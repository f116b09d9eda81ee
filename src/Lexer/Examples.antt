-- ===== src/Lexer/Examples.antt =====
-- The theorems on the lexer at concrete statements.
use hivedb.Base.{ℕ, List, [], ◌∷◌, Ensures, ◌>>=◌}
use hivedb.Lexer.{make, get_tokens}
use hivedb.Lexer.Termination.{Finishes, get_tokens-Finishes}
use hivedb.Lexer.Reals.{NoReals, get_tokens-NoReals}

-- `select 12.5;`
abbrev statement : List ℕ
statement = b's' ∷ b'e' ∷ b'l' ∷ b'e' ∷ b'c' ∷ b't' ∷ b' ' ∷ b'1' ∷ b'2' ∷ b'.' ∷ b'5' ∷ b';' ∷ []

get_tokens-Finishes_example : Finishes (make statement >>= get_tokens)
get_tokens-Finishes_example = get_tokens-Finishes statement

get_tokens-NoReals_example : Ensures (make statement >>= get_tokens) NoReals
get_tokens-NoReals_example = get_tokens-NoReals statement
