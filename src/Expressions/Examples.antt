-- ===== src/Expressions/Examples.antt =====
-- The theorems on execution at concrete expressions.
use hivedb.Base.{
  ℕ, true, false, List, [], ◌∷◌, ◌≡◌, refl, pos, Outcome, ok, fails, out_of_bounds, Ensures,
  same_text, if◌then◌else◌,
}
use hivedb.Tokens.{TokenType}
use hivedb.Syntax.{Value, int, text, Expr, literal, binary, select, no_exprs, exprs}
use hivedb.Expressions.{unset, gone, name_of_column, execute, retrive_columns}
use hivedb.Expressions.Arithmetic.{Floats}
use hivedb.Expressions.Meaning.{meaning}
use hivedb.Expressions.Operators.{Captures}
use hivedb.Expressions.Uniform.{execute-first_op, execute-Uniform}
use hivedb.Expressions.Gone.{Strays, execute-gone}
use hivedb.Expressions.Vectors.{NotSingle, execute-NotSingle}
use hivedb.Expressions.Reads.{execute-columns}

-- Some operations on floats.
abbrev machine : Floats
machine = record {
  add = λ a b. a;
  substract = λ a b. a;
  divide = λ a b. a;
  multiply = λ a b. a;
  negate = λ a. a;
  of_int = λ z. 0;
  to_int = λ a. ok (pos 0);
}

abbrev number : ℕ → Expr
number n = literal (int (pos n)) false

-- `1 + 2 * 3`, of which the product is solved first, and `7 - 2 - 1`.
abbrev mixed : Expr
mixed = binary (number 1) TokenType.add (binary (number 2) TokenType.star (number 3))

abbrev differences : Expr
differences =
    binary (number 7) TokenType.substract (binary (number 2) TokenType.substract (number 1))

-- `a + 1`, and `select (a + 1, 2)`.
abbrev with_column : Expr
with_column = binary (literal (text (b'a' ∷ [])) true) TokenType.add (number 1)

abbrev two_values : Expr
two_values = select (exprs with_column (exprs (number 2) no_exprs)) []

-- Two rows that agree on `a`.
abbrev only_a : List ℕ → Outcome Value
only_a name = if same_text name (b'a' ∷ []) then ok (int (pos 5)) else fails out_of_bounds

abbrev every_column : List ℕ → Outcome Value
every_column name = ok (int (pos 5))

execute-first_op_example :
    Captures TokenType.star
      (meaning machine name_of_column (λ op. TokenType.star) mixed)
      (execute machine name_of_column mixed unset)
execute-first_op_example = execute-first_op machine name_of_column mixed TokenType.star refl

execute-Uniform_example :
    (execute machine name_of_column differences unset).0
    ≡ meaning machine name_of_column (λ op. op) differences
execute-Uniform_example =
    execute-Uniform machine name_of_column differences TokenType.substract
      (tt, refl, (tt, refl, tt))

execute-gone_example :
    Strays
      (meaning machine name_of_column (λ op. op) mixed)
      (execute machine name_of_column mixed gone).0
execute-gone_example = execute-gone machine name_of_column (λ op. op) mixed TokenType.star refl

execute-NotSingle_example : Ensures (execute machine only_a two_values unset).0 NotSingle
execute-NotSingle_example = execute-NotSingle machine only_a two_values unset

execute-columns_example :
    execute machine only_a two_values unset ≡ execute machine every_column two_values unset
unfolding retrive_columns
execute-columns_example = execute-columns machine only_a every_column two_values unset (refl, tt)
