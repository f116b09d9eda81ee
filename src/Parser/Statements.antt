-- ===== src/Parser/Statements.antt =====
-- src/parser/parser.cpp: `insertExpr`, `createExpr`, `expr` and `parse`.
use hivedb.Base.{
  ℕ, zero, suc, ◌+◌, ◌*◌, Bool, true, false, none, some, List, [], ◌∷◌, if◌then◌else◌, length,
  Outcome, ok, fails, invalid_argument, out_of_fuel, and_then,
}
use hivedb.Tokens.{TokenType, Token}
use hivedb.Syntax.{Value, float, int, text, TableColumn, Expr, create_tbl, insert_into}
use hivedb.Parser.{Parser, ◌>>=◌, ◌>>◌, pure, is_done, match_one, consume, invalid_token}
use hivedb.Parser.Numbers.{stoi}
use hivedb.Parser.Descent.{select_expr}

-- What a round of a loop does behind its item: on at a comma, out at a parenthesis, else it throws.
abbrev pub after_item : {A : Type 0} → A → Parser (List A) → Parser (List A)
after_item a next ts = elim (match_one TokenType.comma ts) [
  | some (t, rest) ↦ and_then (next rest) λ (more, rest'). ok (a ∷ more, rest')
  | none ↦ elim (match_one TokenType.parentheses_r ts) [
    | some (t, rest) ↦ ok (a ∷ [], rest)
    | none ↦ fails invalid_argument
  ]
]

-- `while (!isDone())`, of the lists in parentheses.
unfoldable pub item_loop : {A : Type 0} → Parser A → ℕ → Parser (List A)
item_loop item zero ts = fails out_of_fuel
item_loop item (suc f) ts =
    let round = and_then (item ts) (λ (a, rest). after_item a (item_loop item f) rest) in
    if is_done ts then ok ([], ts) else round

-- The fuel of such a loop: each round takes a token.
abbrev pub in_parentheses : {A : Type 0} → Parser A → Parser (List A)
in_parentheses item ts = item_loop item (suc (length ts)) ts

unfoldable pub column_name : Parser (List ℕ)
column_name = do name ← consume TokenType.identifier; pure name.literal

-- `if (match(_not)) ...`, which sets `canBeNull`.
unfoldable pub null_clause : Parser Bool
null_clause ts = elim (match_one TokenType.not ts) [
  | none ↦ ok (false, ts)
  | some (t, rest) ↦ and_then (consume TokenType.null rest) λ (u, rest'). ok (true, rest')
]

unfoldable pub table_column : Parser TableColumn
table_column = do
  name ← consume TokenType.identifier
  type ← consume TokenType.identifier
  can_be_null ← null_clause
  pure (record { name = name.literal; type = type.literal; can_be_null = can_be_null })

unfoldable pub create_expr : Parser Expr
create_expr = do
  consume TokenType.table
  name ← consume TokenType.identifier
  consume TokenType.parentheses_l
  columns ← in_parentheses table_column
  pure (create_tbl name.literal columns)

module _ (stof : List ℕ → Outcome ℕ) where
  unfoldable pub insert_value : Parser Value
  insert_value ts = elim (match_one TokenType.string ts) [
    | some (t, rest) ↦ ok (text t.literal, rest)
    | none ↦ elim (match_one TokenType.integer ts) [
      | some (t, rest) ↦ and_then (stoi t.literal) λ n. ok (int n, rest)
      | none ↦ elim (match_one TokenType.real ts) [
        | some (t, rest) ↦ and_then (stof t.literal) λ x. ok (float x, rest)
        | none ↦ fails invalid_argument
      ]
    ]
  ]

  unfoldable pub insert_expr : Parser Expr
  insert_expr = do
    consume TokenType.into
    name ← consume TokenType.identifier
    consume TokenType.parentheses_l
    columns ← in_parentheses column_name
    consume TokenType.values
    consume TokenType.parentheses_l
    values ← in_parentheses insert_value
    pure (insert_into name.literal values columns)

  -- `expr`, on fuel for the descent.
  unfoldable pub expr : ℕ → Parser Expr
  expr fuel ts = elim (match_one TokenType.select ts) [
    | some (t, rest) ↦ select_expr stof fuel rest
    | none ↦ elim (match_one TokenType.create ts) [
      | some (t, rest) ↦ create_expr rest
      | none ↦ elim (match_one TokenType.insert ts) [
        | some (t, rest) ↦ insert_expr rest
        | none ↦ invalid_token ts
      ]
    ]
  ]

  -- What `parse` leaves of the tokens is not looked at.
  unfoldable pub parse : List Token → Outcome Expr
  parse ts = and_then (expr (5 * length ts + 5) ts) λ (e, rest). ok e
