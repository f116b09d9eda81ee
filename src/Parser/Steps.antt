-- ===== src/Parser/Steps.antt =====
-- Parts of the rules of the expression parser.
use hivedb.Base.{
  ℕ, zero, suc, ◌+◌, ◌*◌, ◌<◌, ◌≡◌, refl, ap, ◌∙◌, sym, Option, none, some, List, [], ◌∷◌, ◌++◌,
  arith, length, length-append, Outcome, ok, and_then, Settles, Settles-bind, Settles-mono,
  option-branch,
}
use mathlib.Core.List.{append_assoc}
use hivedb.Tokens.{TokenType, Token}
use hivedb.Syntax.{Expr, Exprs, select, exprs}
use hivedb.Parser.{consume}
use hivedb.Parser.Descent.{from_clause}
use hivedb.Parser.Grammar
use hivedb.Parser.Took.{
  Took, Takes, IsToken, consume-Takes, from_clause-Takes, AsChain, AsPrimary, AsSelect,
  TakesLiteral,
}

pub length_tokens : (us vs : List Token) → length (us ++ vs) ≡ length us + length vs
length_tokens = length-append

-- For `omega`, on token lists.
pub ruleset lengths = (arith, length_tokens)

-- Tokens taken behind others that were taken.
pub then_took :
    (ts us rest vs rest' : List Token)
    → ts ≡ us ++ rest
    → rest ≡ vs ++ rest'
    → ts ≡ (us ++ vs) ++ rest'
then_took ts us rest vs rest' p q = p ∙ ap (λ r. us ++ r) q ∙ sym (append_assoc us vs rest')

module _ (stof : List ℕ → Outcome ℕ) where
  pub from_literal :
      (o : Option (Outcome (Expr × List Token))) (n : Outcome (Expr × List Token)) (ts : List Token)
      → TakesLiteral stof ts o
      → Takes (AsPrimary stof) ts n
      → Takes (AsPrimary stof) ts (elim o [ some x ↦ x | none ↦ n ])
  from_literal none n ts h k = k
  from_literal (some x) n ts h k = h

  -- The end of a `select` of expressions in parentheses.
  pub select_end :
      (ts : List Token) (x : Token × List Token) (r₁ : Expr × List Token)
      → Took (AsChain stof) x.1 r₁
      → (r₂ : Exprs × List Token) → Took (Grammar.More stof) r₁.1 r₂
      → (ts ≡ x.0 ∷ x.1) × (x.0.type ≡ TokenType.parentheses_l)
      → Takes (AsSelect stof) ts (
          and_then (consume TokenType.parentheses_r r₂.1) λ (u, rest₃).
            and_then (from_clause rest₃) λ (name, rest₄). ok (select (exprs r₁.0 r₂.0) name, rest₄))
  select_end ts x r₁ u₁ r₂ u₂ m =
      Settles-bind (Took (IsToken TokenType.parentheses_r) r₂.1) (Took (AsSelect stof) ts)
        (consume TokenType.parentheses_r r₂.1) _ (consume-Takes TokenType.parentheses_r r₂.1)
        (λ r₃ u₃.
          Settles-bind (Took Grammar.From r₃.1) (Took (AsSelect stof) ts) (from_clause r₃.1) _
            (from_clause-Takes r₃.1)
            (λ r₄ u₄. record {
              used = x.0 ∷ u₁.used ++ (u₂.used ++ r₃.0 ∷ u₄.used);
              split =
                  m.0
                  ∙ ap (λ y. x.0 ∷ y)
                      (then_took x.1 u₁.used r₁.1 (u₂.used ++ r₃.0 ∷ u₄.used) r₄.1 u₁.split (
                        then_took r₁.1 u₂.used r₂.1 (r₃.0 ∷ u₄.used) r₄.1 u₂.split (
                          u₃.split
                          ∙ ap (λ us. us ++ r₃.1) u₃.spells.0
                          ∙ ap (λ y. r₃.0 ∷ y) u₄.split)));
              spells = (
                Grammar.many r₁.0 r₂.0 r₄.0 u₁.used u₂.used u₄.used x.0 r₃.0 m.1 u₁.spells.0
                    u₂.spells u₃.spells.1 u₄.spells,
                omega arith,
              );
            }))
