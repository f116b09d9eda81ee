-- ===== src/Parser/Lists.antt =====
-- The lists in parentheses that `insertExpr` and `createExpr` read.
use hivedb.Base.{
  ℕ, zero, suc, ◌+◌, ◌<◌, ◌≡◌, refl, ap, ◌∙◌, List, [], ◌∷◌, ◌++◌, arith, length, Outcome, and_then,
  Settles, Settles-bind, option-branch,
}
use hivedb.Tokens.{TokenType, Token}
use hivedb.Parser.{Parser, match_one, consume}
use hivedb.Parser.Statements.{
  after_item, item_loop, in_parentheses, column_name, null_clause, table_column,
}
use hivedb.Parser.Grammar
use hivedb.Parser.Took.{Took, Takes, match_one_sound, IsToken, consume-Takes}
use hivedb.Parser.Steps.{length_tokens, then_took}

-- The tokens that a call took, by what it says of them and of those that it left.
pub record Left {A : Type 0} (P : A → List Token → List Token → Type 0) (ts : List Token)
    (r : A × List Token) : Type 0 where
  pub used : List Token
  pub split : ts ≡ used ++ r.1
  pub spells : P r.0 used r.1

-- A rule that begins with a token that must stand there.
pub consumed :
    {B : Type 0} (Q : B → Type 0) (type : TokenType) (ts : List Token)
    (f : Token × List Token → Outcome B)
    → ((t : Token) (rest : List Token) → ts ≡ t ∷ rest → t.type ≡ type → Settles (f (t, rest)) Q)
    → Settles (and_then (consume type ts) f) Q
consumed Q type ts f k =
    Settles-bind (Took (IsToken type) ts) Q (consume type ts) f (consume-Takes type ts)
      (λ r u. k r.0 r.1 (u.split ∙ ap (λ us. us ++ r.1) u.spells.0) u.spells.1)

pub column_name-Takes : (ts : List Token) → Takes Grammar.Name ts (column_name ts)
unfolding column_name
column_name-Takes ts =
    consumed (Took Grammar.Name ts) TokenType.identifier ts _
      λ t rest p e. record { used = t ∷ []; split = p; spells = Grammar.name t e }

null_clause-Takes : (ts : List Token) → Takes Grammar.NullClause ts (null_clause ts)
unfolding null_clause
null_clause-Takes ts =
    option-branch (Takes Grammar.NullClause ts) (match_one TokenType.not ts) _ _
      (λ e. record { used = []; split = refl; spells = Grammar.absent })
      (λ x e.
        let m = match_one_sound TokenType.not ts x e in
        consumed (Took Grammar.NullClause ts) TokenType.null x.1 _ λ t rest p d. record {
          used = x.0 ∷ t ∷ [];
          split = m.0 ∙ ap (λ y. x.0 ∷ y) p;
          spells = Grammar.not_null x.0 t m.1 d;
        })

pub table_column-Takes : (ts : List Token) → Takes Grammar.Column ts (table_column ts)
unfolding table_column
table_column-Takes ts = consumed (Took Grammar.Column ts) TokenType.identifier ts _ λ n rest₁ p₁ e₁.
    consumed (Took Grammar.Column ts) TokenType.identifier rest₁ _ λ t rest₂ p₂ e₂.
      Settles-bind (Took Grammar.NullClause rest₂) (Took Grammar.Column ts) (null_clause rest₂) _
        (null_clause-Takes rest₂)
        (λ r u. record {
          used = n ∷ t ∷ u.used;
          split = p₁ ∙ ap (λ y. n ∷ y) (p₂ ∙ ap (λ y. t ∷ y) u.split);
          spells = Grammar.column n t r.0 u.used e₁ e₂ u.spells;
        })

module _ {A : Type 0} (P : A → List Token → Type 0) (item : Parser A)
    (takes : (ts : List Token) → Takes P ts (item ts))
    (nonempty : (a : A) (us : List Token) → P a us → 0 < length us) where
  -- A round behind its item, by what the rounds after it do.
  after_item-Takes :
      (loop : Parser (List A)) (ts : List Token) (a : A) (rest : List Token)
      → Took P ts (a, rest)
      → ((ts' : List Token)
          → length ts' < length rest
          → Settles (loop ts') (Left (Grammar.Items P) ts'))
      → Settles (after_item a loop rest) (Left (Grammar.Items P) ts)
  after_item-Takes loop ts a rest u later =
      option-branch (λ o. Settles o (Left (Grammar.Items P) ts)) (match_one TokenType.comma rest) _
        _
        (λ e.
          option-branch (λ o. Settles o (Left (Grammar.Items P) ts))
            (match_one TokenType.parentheses_r rest) _ _ (λ e'. tt)
            (λ x e'.
              let m = match_one_sound TokenType.parentheses_r rest x e' in
              record {
                used = u.used ++ x.0 ∷ [];
                split = then_took ts u.used rest (x.0 ∷ []) x.1 u.split m.0;
                spells = Grammar.last a u.used x.1 x.0 u.spells m.1;
              }))
        (λ x e.
          let m = match_one_sound TokenType.comma rest x e in
          let one : length rest ≡ suc (length x.1) = ap length m.0 in
          Settles-bind (Left (Grammar.Items P) x.1) (Left (Grammar.Items P) ts) (loop x.1) _
            (later x.1 (omega arith))
            (λ r v. record {
              used = u.used ++ x.0 ∷ v.used;
              split =
                  then_took ts u.used rest (x.0 ∷ v.used) r.1 u.split
                    (m.0 ∙ ap (λ y. x.0 ∷ y) v.split);
              spells = Grammar.next a r.0 u.used v.used r.1 x.0 u.spells m.1 v.spells;
            }))

  item_loop-Takes :
      (f : ℕ) (ts : List Token)
      → length ts < f
      → Settles (item_loop item f ts) (Left (Grammar.Items P) ts)
  unfolding item_loop
  item_loop-Takes zero ts h = absurd (omega arith)
  item_loop-Takes (suc f) [] h = record { used = []; split = refl; spells = Grammar.cut_off }
  item_loop-Takes (suc f) (t ∷ ts) h =
      Settles-bind (Took P (t ∷ ts)) (Left (Grammar.Items P) (t ∷ ts)) (item (t ∷ ts)) _
        (takes (t ∷ ts))
        λ r u.
          let here : suc (length ts) ≡ length u.used + length r.1 =
            ap length u.split ∙ length_tokens u.used r.1 in
          let some_used : 0 < length u.used = nonempty r.0 u.used u.spells in
          after_item-Takes (item_loop item f) (t ∷ ts) r.0 r.1 u
            λ ts' l. item_loop-Takes f ts' (omega arith)

  pub in_parentheses-Takes :
      (ts : List Token) → Settles (in_parentheses item ts) (Left (Grammar.Items P) ts)
  in_parentheses-Takes ts = item_loop-Takes (suc (length ts)) ts (omega arith)
