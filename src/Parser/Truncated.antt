-- ===== src/Parser/Truncated.antt =====
-- `current()` behind the last token: a statement that stops where an operand should stand.
use hivedb.Base.{
  ℕ, zero, suc, ◌+◌, ◌*◌, ◌<◌, ◌≡◌, refl, ap, ◌∙◌, Option, none, some, List, [], ◌∷◌, arith, length,
  Outcome, ok, fails, out_of_bounds, and_then, inl, inr, branch_some, branch_none,
}
use hivedb.Tokens.{TokenType, Token}
use hivedb.Syntax.{exprs, no_exprs, unary, binary, select}
use hivedb.Parser.{TokenType-discrete, match_one, match_any, invalid_token}
use hivedb.Parser.Descent.{
  operators, signs, from_clause, literal_expr, binary_expr, unary_expr, primary_expr, select_expr,
}
use hivedb.Parser.Statements.{expr, parse}
use hivedb.Parser.Grammar

pub match_one-same :
    (type : TokenType) (t : Token) (ts : List Token)
    → t.type ≡ type
    → match_one type (t ∷ ts) ≡ some (t, ts)
unfolding match_one
match_one-same type t ts e = on (TokenType-discrete t.type type)
  where
    on :
        (d : Dec (t.type ≡ type))
        → ◌≡◌ {A = Option (Token × List Token)}
            (elim d [ yes same ↦ some (t, ts) | no other ↦ none ])
            (some (t, ts))
    on (yes same) = refl
    on (no other) = absurd (other e)

pub match_one-other :
    (type : TokenType) (t : Token) (ts : List Token)
    → (t.type ≡ type → ⊥)
    → match_one type (t ∷ ts) ≡ none
unfolding match_one
match_one-other type t ts n = on (TokenType-discrete t.type type)
  where
    on :
        (d : Dec (t.type ≡ type))
        → ◌≡◌ {A = Option (Token × List Token)}
            (elim d [ yes same ↦ some (t, ts) | no other ↦ none ])
            none
    on (yes same) = absurd (n same)
    on (no other) = refl

-- A statement that is only signs behind `select`: the tokens of a list of signs.
abbrev pub AllSigns : List Token → Type 0
AllSigns [] = Unit {0}
AllSigns (t ∷ ts) = Grammar.Sign t.type × AllSigns ts

match_any-sign :
    (t : Token) (ts : List Token) → Grammar.Sign t.type → match_any signs (t ∷ ts) ≡ some (t, ts)
unfolding match_any
match_any-sign t ts (inl e) =
    branch_some (match_one TokenType.substract (t ∷ ts)) _ _ (t, ts)
      (match_one-same TokenType.substract t ts e)
match_any-sign t ts (inr (inl e)) =
    branch_none (match_one TokenType.substract (t ∷ ts)) _ _
      (match_one-other TokenType.substract t ts (λ p. cc))
    ∙ branch_some (match_one TokenType.bang (t ∷ ts)) _ _ (t, ts)
        (match_one-same TokenType.bang t ts e)
match_any-sign t ts (inr (inr x)) = elim x [ ]

no_parenthesis : (ts : List Token) → AllSigns ts → match_one TokenType.parentheses_l ts ≡ none
unfolding match_one
no_parenthesis [] s = refl
no_parenthesis (t ∷ ts) (inl e, more) = match_one-other TokenType.parentheses_l t ts (λ p. cc)
no_parenthesis (t ∷ ts) (inr (inl e), more) = match_one-other TokenType.parentheses_l t ts (λ p. cc)
no_parenthesis (t ∷ ts) (inr (inr x), more) = elim x [ ]

unary_signs :
    (stof : List ℕ → Outcome ℕ) (f : ℕ) (ts : List Token)
    → AllSigns ts
    → length ts + 1 < f
    → unary_expr stof f ts ≡ fails out_of_bounds
unfolding unary_expr primary_expr literal_expr invalid_token match_any match_one
unary_signs stof zero ts s h = absurd (omega arith)
unary_signs stof (suc zero) ts s h = absurd (omega arith)
unary_signs stof (suc (suc f)) [] s h = refl
unary_signs stof (suc (suc f)) (t ∷ ts) (s, more) h =
    branch_some (match_any signs (t ∷ ts)) _ _ (t, ts) (match_any-sign t ts s)
    ∙ ap (λ o. and_then o λ (e, rest). ok (unary t.type e, rest))
        (unary_signs stof (suc f) ts more (omega arith))

select_signs :
    (stof : List ℕ → Outcome ℕ) (f : ℕ) (ts : List Token)
    → AllSigns ts
    → length ts + 3 < f
    → select_expr stof f ts ≡ fails out_of_bounds
unfolding select_expr binary_expr
select_signs stof zero ts s h = absurd (omega arith)
select_signs stof (suc zero) ts s h = absurd (omega arith)
select_signs stof (suc (suc f)) ts s h =
    branch_none (match_one TokenType.parentheses_l ts) _ _ (no_parenthesis ts s)
    ∙ ap
        (λ o.
          and_then
            (and_then o λ (e, rest). elim (match_any operators rest) [
              | none ↦ ok (e, rest)
              | some (t, rest') ↦
                  and_then (binary_expr stof f rest') λ (r, rest''). ok (binary e t.type r, rest'')
            ])
            λ (e, rest).
              and_then (from_clause rest)
                λ (name, rest'). ok (select (exprs e no_exprs) name, rest'))
        (unary_signs stof f ts s (omega arith))

-- A `select` with nothing but signs behind it: the message of the exception reads the token behind the
-- last one, whatever the number of signs.
pub parse-signs :
    (stof : List ℕ → Outcome ℕ) (s : Token) (ts : List Token)
    → s.type ≡ TokenType.select
    → AllSigns ts
    → parse stof (s ∷ ts) ≡ fails out_of_bounds
unfolding parse expr
parse-signs stof s ts e all =
    ap (λ o. and_then o λ (e, rest). ok e)
      (branch_some (match_one TokenType.select (s ∷ ts)) _ _ (s, ts)
          (match_one-same TokenType.select s ts e)
        ∙ select_signs stof (5 * suc (length ts) + 5) ts all (omega arith))
