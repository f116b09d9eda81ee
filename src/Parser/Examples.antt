-- ===== src/Parser/Examples.antt =====
-- The theorems on the parser at concrete tokens.
use hivedb.Base.{
  ℕ, true, ◌++◌, List, [], ◌∷◌, ◌≡◌, refl, inl, Outcome, ok, fails, out_of_bounds, Settles,
}
use hivedb.Tokens.{TokenType, Token, bare}
use hivedb.Parser.Statements.{parse}
use hivedb.Parser.Whole.{IsSpelledBy, parse-Statement}
use hivedb.Parser.Truncated.{parse-signs}
use hivedb.Syntax.{TableColumn, create_tbl}
use hivedb.Parser.Grammar
use hivedb.Parser.Complete.{parse-OfLists}

-- A conversion that takes every text for 0.
abbrev zero_stof : List ℕ → Outcome ℕ
zero_stof cs = ok 0

-- `select 12 + a from t`, and `select -`.
abbrev statement : List Token
statement =
    bare TokenType.select
    ∷ (record { type = TokenType.integer; literal = b'1' ∷ b'2' ∷ [] })
    ∷ bare TokenType.add
    ∷ (record { type = TokenType.identifier; literal = b'a' ∷ [] })
    ∷ bare TokenType.from
    ∷ (record { type = TokenType.identifier; literal = b't' ∷ [] })
    ∷ []

abbrev only_minus : List Token
only_minus = bare TokenType.substract ∷ []

parse-Statement_example : Settles (parse zero_stof statement) (IsSpelledBy zero_stof statement)
parse-Statement_example = parse-Statement zero_stof (λ cs. tt) statement

parse-signs_example : parse zero_stof (bare TokenType.select ∷ only_minus) ≡ fails out_of_bounds
parse-signs_example = parse-signs zero_stof (bare TokenType.select) only_minus refl (inl refl, tt)

-- `create table t (a integer not null)` and a token behind it.
abbrev word : ℕ → Token
word c = record { type = TokenType.identifier; literal = c ∷ [] }

abbrev column_tokens : List Token
column_tokens = word b'a' ∷ word b'i' ∷ bare TokenType.not ∷ bare TokenType.null ∷ []

abbrev create_tokens : List Token
create_tokens =
    bare TokenType.create
      ∷ bare TokenType.table
      ∷ word b't'
      ∷ bare TokenType.parentheses_l
      ∷ column_tokens
    ++ bare TokenType.parentheses_r ∷ []

abbrev column_a : TableColumn
column_a = record { name = b'a' ∷ []; type = b'i' ∷ []; can_be_null = true }

column_tokens-spell : Grammar.Column column_a column_tokens
column_tokens-spell =
    Grammar.column (word b'a') (word b'i') true _ refl refl
      (Grammar.not_null (bare TokenType.not) (bare TokenType.null) refl refl)

parse-OfLists_example :
    parse zero_stof (create_tokens ++ bare TokenType.dot ∷ [])
    ≡ ok (create_tbl (b't' ∷ []) (column_a ∷ []))
parse-OfLists_example =
    parse-OfLists zero_stof (create_tbl (b't' ∷ []) (column_a ∷ [])) create_tokens
      (bare TokenType.dot ∷ [])
      (Grammar.create_stmt (column_a ∷ []) (column_tokens ++ bare TokenType.parentheses_r ∷ []) _
        (bare TokenType.create) (bare TokenType.table) (word b't') (bare TokenType.parentheses_l)
        refl refl refl refl
        (Grammar.last column_a column_tokens _ (bare TokenType.parentheses_r) column_tokens-spell
          refl))
      tt
