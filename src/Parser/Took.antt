-- ===== src/Parser/Took.antt =====
-- What a step of the parser takes: single tokens, the table's name, and the literals.
use hivedb.Base.{
  ℕ, ◌<◌, ◌≡◌, refl, ap, ◌∙◌, sym, Option, none, some, List, [], ◌∷◌, ◌++◌, arith, length, Outcome,
  Settles, Settles-bind, option-branch, Settles-eq, inl, inr, some_injective, or_else-some,
}
use hivedb.Tokens.{TokenType, Token}
use hivedb.Syntax.{Expr}
use hivedb.Parser.{TokenType-discrete, match_one, match_any, consume, invalid_token}
use hivedb.Parser.Numbers.{stoi, stoi-Settles}
use hivedb.Parser.Descent.{from_clause, literal_expr}
use hivedb.Parser.Grammar

-- The call ends, and the tokens that it took, if it returns, are such as `P` says of the value.
pub record Took {A : Type 0} (P : A → List Token → Type 0) (ts : List Token) (r : A × List Token)
    : Type 0 where
  pub used : List Token
  pub split : ts ≡ used ++ r.1
  pub spells : P r.0 used

abbrev pub Takes :
    {A : Type 0} → (A → List Token → Type 0) → List Token → Outcome (A × List Token) → Type 0
Takes P ts o = Settles o (Took P ts)

-- A token that `match` took, of one of the types.
pub match_one_sound :
    (type : TokenType) (ts : List Token) (x : Token × List Token)
    → match_one type ts ≡ some x
    → (ts ≡ x.0 ∷ x.1) × (x.0.type ≡ type)
unfolding match_one
match_one_sound type [] x e = cc
match_one_sound type (t ∷ ts) x e = on (TokenType-discrete t.type type) e
  where
    on :
        (d : Dec (t.type ≡ type))
        → ◌≡◌ {A = Option (Token × List Token)}
            (elim d [ yes same ↦ some (t, ts) | no other ↦ none ])
            (some x)
        → (t ∷ ts ≡ x.0 ∷ x.1) × (x.0.type ≡ type)
    on (yes same) e =
        let p = some_injective (t, ts) x e in
        (
          ap (λ (y : Token × List Token). y.0 ∷ y.1) p,
          ap (λ (y : Token × List Token). y.0.type) (sym p) ∙ same,
        )
    on (no other) e = cc

pub match_any_sound :
    (types : List TokenType) (ts : List Token) (x : Token × List Token)
    → match_any types ts ≡ some x
    → (ts ≡ x.0 ∷ x.1) × Grammar.OneOf x.0.type types
unfolding match_any
match_any_sound [] ts x e = cc
match_any_sound (type ∷ types) ts x e =
    elim (or_else-some (match_one type ts) (match_any types ts) x e) [
      | inl found ↦ let m = match_one_sound type ts x found in (m.0, inl m.1)
      | inr later ↦ let m = match_any_sound types ts x later in (m.0, inr m.1)
    ]

abbrev pub IsToken : TokenType → Token → List Token → Type 0
IsToken type t us = (us ≡ t ∷ []) × (t.type ≡ type)

-- A step over one token.
pub consume-Takes : (type : TokenType) (ts : List Token) → Takes (IsToken type) ts (consume type ts)
unfolding consume
consume-Takes type ts =
    option-branch (Takes (IsToken type) ts) (match_one type ts) _ _ (λ e. tt)
      (λ x e.
        let m = match_one_sound type ts x e in
        record { used = x.0 ∷ []; split = m.0; spells = (refl, m.1) })

pub invalid_token-Settles :
    {A : Type 0} (P : A × List Token → Type 0) (ts : List Token) → Settles (invalid_token ts) P
unfolding invalid_token
invalid_token-Settles P [] = tt
invalid_token-Settles P (t ∷ ts) = tt

pub from_clause-Takes : (ts : List Token) → Takes Grammar.From ts (from_clause ts)
unfolding from_clause
from_clause-Takes ts =
    option-branch (Takes Grammar.From ts) (match_one TokenType.from ts) _ _
      (λ e. record { used = []; split = refl; spells = Grammar.nowhere })
      (λ x e.
        let m = match_one_sound TokenType.from ts x e in
        Settles-bind (Took (IsToken TokenType.identifier) x.1) (Took Grammar.From ts)
          (consume TokenType.identifier x.1) _ (consume-Takes TokenType.identifier x.1)
          (λ r u. record {
            used = x.0 ∷ r.0 ∷ [];
            split = m.0 ∙ ap (λ rest. x.0 ∷ rest) (u.split ∙ ap (λ us. us ++ r.1) u.spells.0);
            spells = Grammar.table x.0 r.0 m.1 u.spells.1;
          }))

module _ (stof : List ℕ → Outcome ℕ) where
  -- What an expression is spelled by, which is never empty.
  abbrev pub AsChain : Expr → List Token → Type 0
  AsChain e us = Grammar.Chain stof e us × (0 < length us)

  abbrev pub AsOperand : Expr → List Token → Type 0
  AsOperand e us = Grammar.Operand stof e us × (0 < length us)

  abbrev pub AsPrimary : Expr → List Token → Type 0
  AsPrimary e us = Grammar.Primary stof e us × (0 < length us)

  abbrev pub AsInside : Expr → List Token → Type 0
  AsInside e us = Grammar.Inside stof e us × (0 < length us)

  abbrev pub AsSelect : Expr → List Token → Type 0
  AsSelect e us = Grammar.Select stof e us × (0 < length us)

  one_token :
      (ts : List Token) (x : Token × List Token) (e : Expr)
      → ts ≡ x.0 ∷ x.1
      → Grammar.Primary stof e (x.0 ∷ [])
      → Took AsPrimary ts (e, x.1)
  one_token ts x e split spells = record {
    used = x.0 ∷ [];
    split = split;
    spells = (spells, omega arith);
  }

  abbrev pub TakesLiteral : List Token → Option (Outcome (Expr × List Token)) → Type 0
  TakesLiteral ts none = Unit {0}
  TakesLiteral ts (some o) = Takes AsPrimary ts o

  pub literal_expr-Takes :
      (total : (cs : List ℕ) → Settles (stof cs) (λ x. Unit {0}))
      → (ts : List Token) → TakesLiteral ts (literal_expr stof ts)
  unfolding literal_expr
  literal_expr-Takes total ts =
      option-branch (TakesLiteral ts) (match_one TokenType.string ts) _ _
        (λ e.
          option-branch (TakesLiteral ts) (match_one TokenType.identifier ts) _ _
            (λ e.
              option-branch (TakesLiteral ts) (match_one TokenType.integer ts) _ _
                (λ e.
                  option-branch (TakesLiteral ts) (match_one TokenType.real ts) _ _ (λ e. tt)
                    (λ x e.
                      let m = match_one_sound TokenType.real ts x e in
                      Settles-bind _ (Took AsPrimary ts) (stof x.0.literal) _
                        (Settles-eq (λ y. Unit {0}) (stof x.0.literal) (total x.0.literal))
                        (λ y h. one_token ts x _ m.0 (Grammar.real x.0 y m.1 h.1))))
                (λ x e.
                  let m = match_one_sound TokenType.integer ts x e in
                  Settles-bind _ (Took AsPrimary ts) (stoi x.0.literal) _
                    (Settles-eq (λ y. Unit {0}) (stoi x.0.literal) (stoi-Settles x.0.literal))
                    (λ n h. one_token ts x _ m.0 (Grammar.integer x.0 n m.1 h.1))))
            (λ x e.
              let m = match_one_sound TokenType.identifier ts x e in
              one_token ts x _ m.0 (Grammar.column x.0 m.1)))
        (λ x e.
          let m = match_one_sound TokenType.string ts x e in
          one_token ts x _ m.0 (Grammar.string x.0 m.1))
