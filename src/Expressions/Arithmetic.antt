-- ===== src/Expressions/Arithmetic.antt =====
-- include/parser/parser.hpp: `+=`, `-=`, `*=`, `/=` and `-` on the numbers of an expression. An int
-- operation that overflows, and a division by zero, are undefined; the machine's floats are a parameter.
use hivedb.Base.{
  ℕ, zero, suc, ◌+◌, ◌-◌, ◌*◌, ◌/◌, ℤ, pos, negsuc, leb, if◌then◌else◌, Outcome, ok, fails, ◌>>=◌,
  overflow,
}
use hivedb.Tokens.{TokenType}
use hivedb.Parser.Numbers.{minus, fits_int}

unfoldable pub negate : ℤ → ℤ
negate (pos n) = minus n
negate (negsuc n) = pos (suc n)

abbrev difference : ℕ → ℕ → ℤ
difference a b = if leb b a then pos (a - b) else minus (b - a)

unfoldable pub add : ℤ → ℤ → ℤ
add (pos a) (pos b) = pos (a + b)
add (pos a) (negsuc b) = difference a (suc b)
add (negsuc a) (pos b) = difference b (suc a)
add (negsuc a) (negsuc b) = negsuc (suc (a + b))

unfoldable pub multiply : ℤ → ℤ → ℤ
multiply (pos a) (pos b) = pos (a * b)
multiply (pos a) (negsuc b) = minus (a * suc b)
multiply (negsuc a) (pos b) = minus (suc a * b)
multiply (negsuc a) (negsuc b) = pos (suc a * suc b)

-- Towards zero.
unfoldable pub divide : ℤ → ℤ → Outcome ℤ
divide x (pos zero) = fails overflow
divide (pos a) (pos (suc b)) = ok (pos (a / suc b))
divide (pos a) (negsuc b) = ok (minus (a / suc b))
divide (negsuc a) (pos (suc b)) = ok (minus (suc a / suc b))
divide (negsuc a) (negsuc b) = ok (pos (suc a / suc b))

-- The result of an int operation, where an int holds it.
unfoldable pub checked : ℤ → Outcome ℤ
checked z = if fits_int z then ok z else fails overflow

-- The `if` chain of `handleSameType` for two ints.
unfoldable pub int_operation : TokenType → ℤ → ℤ → Outcome ℤ
unfolding add negate multiply divide
int_operation TokenType.add l r = checked (add l r)
int_operation TokenType.substract l r = checked (add l (negate r))
int_operation TokenType.divide l r = divide l r >>= checked
int_operation TokenType.star l r = checked (multiply l r)
int_operation _ l r = ok l

-- Floats by their patterns. A conversion to int is undefined where an int does not hold the value.
pub record Floats : Type 0 where
  pub add : ℕ → ℕ → ℕ
  pub substract : ℕ → ℕ → ℕ
  pub divide : ℕ → ℕ → ℕ
  pub multiply : ℕ → ℕ → ℕ
  pub negate : ℕ → ℕ
  pub of_int : ℤ → ℕ
  pub to_int : ℕ → Outcome ℤ

-- The same chain for two floats.
unfoldable pub float_operation : Floats → TokenType → ℕ → ℕ → ℕ
float_operation m TokenType.add l r = m.add l r
float_operation m TokenType.substract l r = m.substract l r
float_operation m TokenType.divide l r = m.divide l r
float_operation m TokenType.star l r = m.multiply l r
float_operation m _ l r = l
