-- ===== src/Parser/Numbers.antt =====
-- The calls of std::stoi, on a NUL-terminated text: the behaviour that the C++ standard gives it.
use hivedb.Base.{
  ℕ, ◌+◌, ◌-◌, ◌*◌, ◌^◌, Bool, ◌&&◌, ◌||◌, List, [], ◌∷◌, ℤ, pos, negsuc, ltb, leb, ◌==◌,
  if◌then◌else◌, Outcome, ok, fails, ◌>>=◌, invalid_argument, out_of_range, Settles, if-cases,
}

abbrev pub is_digit : ℕ → Bool
is_digit c = leb b'0' c && leb c b'9'

abbrev is_space : ℕ → Bool
is_space c = c == b' ' || (leb 9 c && leb c 13)

unfoldable pub skip_spaces : List ℕ → List ℕ
skip_spaces [] = []
skip_spaces (c ∷ cs) = if is_space c then skip_spaces cs else c ∷ cs

-- The value of the digits at the front, behind digits worth `acc`.
unfoldable pub digits : ℕ → List ℕ → ℕ
digits acc [] = acc
digits acc (c ∷ cs) = if is_digit c then digits (acc * 10 + (c - b'0')) cs else acc

unfoldable pub magnitude : List ℕ → Outcome ℕ
unfolding digits
magnitude [] = fails invalid_argument
magnitude (c ∷ cs) = if is_digit c then ok (digits 0 (c ∷ cs)) else fails invalid_argument

-- The minus of a number, and the range of an int.
abbrev pub minus : ℕ → ℤ
minus n = if n == 0 then pos 0 else negsuc (n - 1)

abbrev pub fits_int : ℤ → Bool
fits_int (pos n) = ltb n (2 ^ 31)
fits_int (negsuc n) = ltb n (2 ^ 31)

abbrev pub in_range : ℤ → Outcome ℤ
in_range z = if fits_int z then ok z else fails out_of_range

unfoldable pub signed : List ℕ → Outcome ℤ
unfolding magnitude
signed [] = fails invalid_argument
signed (c ∷ cs) =
    if c == b'-'
    then magnitude cs >>= (λ n. in_range (minus n))
    else if c == b'+'
    then magnitude cs >>= (λ n. in_range (pos n))
    else magnitude (c ∷ cs) >>= λ n. in_range (pos n)

unfoldable pub stoi : List ℕ → Outcome ℤ
unfolding signed skip_spaces
stoi cs = signed (skip_spaces cs)

in_range-Settles : (z : ℤ) → Settles (in_range z) (λ n. Unit {0})
in_range-Settles z =
    if-cases (λ (o : Outcome ℤ). Settles o (λ n. Unit {0})) (fits_int z) (λ e. tt) (λ e. tt)

magnitude-Settles :
    (cs : List ℕ) (f : ℕ → ℤ) → Settles (magnitude cs >>= (λ n. in_range (f n))) (λ n. Unit {0})
unfolding magnitude
magnitude-Settles [] f = tt
magnitude-Settles (c ∷ cs) f =
    if-cases (λ (o : Outcome ℕ). Settles (o >>= (λ n. in_range (f n))) (λ n. Unit {0})) (is_digit c)
      (λ e. in_range-Settles (f (digits 0 (c ∷ cs)))) (λ e. tt)

-- The call gives an int or throws.
pub stoi-Settles : (cs : List ℕ) → Settles (stoi cs) (λ n. Unit {0})
unfolding stoi signed
stoi-Settles cs = on (skip_spaces cs)
  where
    on : (cs : List ℕ) → Settles (signed cs) (λ n. Unit {0})
    on [] = tt
    on (c ∷ cs) =
        if-cases (λ (o : Outcome ℤ). Settles o (λ n. Unit {0})) (c == b'-')
          (λ e. magnitude-Settles cs minus)
          (λ e.
            if-cases (λ (o : Outcome ℤ). Settles o (λ n. Unit {0})) (c == b'+')
              (λ g. magnitude-Settles cs pos) (λ g. magnitude-Settles (c ∷ cs) pos))
