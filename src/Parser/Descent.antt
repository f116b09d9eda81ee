-- ===== src/Parser/Descent.antt =====
-- src/parser/parser.cpp: the expressions, from `binaryExpr` down to `primaryExpr`, and `selectExpr`.
use hivedb.Base.{
  ℕ, zero, suc, true, false, Option, none, some, List, [], ◌∷◌, Outcome, ok, fails, out_of_fuel,
  and_then,
}
use hivedb.Tokens.{TokenType, Token}
use hivedb.Syntax.{
  float, int, text, Expr, Exprs, literal, unary, grouping, binary, select, no_exprs, exprs,
}
use hivedb.Parser.{Parser, match_one, match_any, consume, invalid_token}
use hivedb.Parser.Numbers.{stoi}

abbrev pub operators : List TokenType
operators = TokenType.add ∷ TokenType.substract ∷ TokenType.divide ∷ TokenType.star ∷ []

abbrev pub signs : List TokenType
signs = TokenType.substract ∷ TokenType.bang ∷ []

-- `if (match(from)) ...`
unfoldable pub from_clause : Parser (List ℕ)
from_clause ts = elim (match_one TokenType.from ts) [
  | none ↦ ok ([], ts)
  | some (t, rest) ↦
      and_then (consume TokenType.identifier rest) λ (name, rest'). ok (name.literal, rest')
]

-- `std::stof`, which gives the bits of a float.
module _ (stof : List ℕ → Outcome ℕ) where
  -- The first four cases of `primaryExpr`.
  unfoldable pub literal_expr : List Token → Option (Outcome (Expr × List Token))
  literal_expr ts = elim (match_one TokenType.string ts) [
    | some (t, rest) ↦ some (ok (literal (text t.literal) false, rest))
    | none ↦ elim (match_one TokenType.identifier ts) [
      | some (t, rest) ↦ some (ok (literal (text t.literal) true, rest))
      | none ↦ elim (match_one TokenType.integer ts) [
        | some (t, rest) ↦ some (and_then (stoi t.literal) λ n. ok (literal (int n) false, rest))
        | none ↦ elim (match_one TokenType.real ts) [
          | some (t, rest) ↦
              some (and_then (stof t.literal) λ x. ok (literal (float x) false, rest))
          | none ↦ none
        ]
      ]
    ]
  ]

  unfoldable mutual
    pub binary_expr : ℕ → Parser Expr
    binary_expr zero ts = fails out_of_fuel
    binary_expr (suc f) ts = and_then (unary_expr f ts) λ (e, rest).
        elim (match_any operators rest) [
          | none ↦ ok (e, rest)
          | some (t, rest') ↦
              and_then (binary_expr f rest') λ (r, rest''). ok (binary e t.type r, rest'')
        ]

    pub unary_expr : ℕ → Parser Expr
    unary_expr zero ts = fails out_of_fuel
    unary_expr (suc f) ts = elim (match_any signs ts) [
      | none ↦ primary_expr f ts
      | some (t, rest) ↦ and_then (unary_expr f rest) λ (e, rest'). ok (unary t.type e, rest')
    ]

    pub primary_expr : ℕ → Parser Expr
    primary_expr zero ts = fails out_of_fuel
    primary_expr (suc f) ts = elim (literal_expr ts) [
      | some o ↦ o
      | none ↦ elim (match_one TokenType.parentheses_l ts) [
        | some (t, rest) ↦ and_then (inside_expr f rest) λ (e, rest').
            and_then (consume TokenType.parentheses_r rest') λ (u, rest''). ok (grouping e, rest'')
        | none ↦ elim (match_one TokenType.select ts) [
          | some (t, rest) ↦ and_then (select_expr f rest) λ (e, rest'). ok (grouping e, rest')
          | none ↦ invalid_token ts
        ]
      ]
    ]

    -- `match(select) ? selectExpr() : binaryExpr()`
    pub inside_expr : ℕ → Parser Expr
    inside_expr zero ts = fails out_of_fuel
    inside_expr (suc f) ts = elim (match_one TokenType.select ts) [
      | some (t, rest) ↦ select_expr f rest
      | none ↦ binary_expr f ts
    ]

    -- Behind the token `select`.
    pub select_expr : ℕ → Parser Expr
    select_expr zero ts = fails out_of_fuel
    select_expr (suc f) ts = elim (match_one TokenType.parentheses_l ts) [
      | some (t, rest) ↦ and_then (binary_expr f rest) λ (e, rest₁).
          and_then (more_exprs f rest₁) λ (es, rest₂).
            and_then (consume TokenType.parentheses_r rest₂) λ (u, rest₃).
              and_then (from_clause rest₃) λ (name, rest₄). ok (select (exprs e es) name, rest₄)
      | none ↦ and_then (binary_expr f ts) λ (e, rest₁).
          and_then (from_clause rest₁) λ (name, rest₂). ok (select (exprs e no_exprs) name, rest₂)
    ]

    -- `while (match(comma)) ...`
    pub more_exprs : ℕ → Parser Exprs
    more_exprs zero ts = fails out_of_fuel
    more_exprs (suc f) ts = elim (match_one TokenType.comma ts) [
      | none ↦ ok (no_exprs, ts)
      | some (t, rest) ↦
          and_then (binary_expr f rest)
            λ (e, rest₁). and_then (more_exprs f rest₁) λ (es, rest₂). ok (exprs e es, rest₂)
    ]
