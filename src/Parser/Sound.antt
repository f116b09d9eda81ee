-- ===== src/Parser/Sound.antt =====
-- The expression parser: with enough fuel it ends, and what it takes spells what it returns.
use hivedb.Base.{
  ℕ, zero, suc, ◌+◌, ◌*◌, ◌<◌, ◌≡◌, refl, ap, ◌∙◌, List, [], ◌∷◌, ◌++◌, arith, length, Outcome,
  Settles, Settles-bind, Settles-mono, option-branch,
}
use hivedb.Tokens.{TokenType, Token}
use hivedb.Parser.{match_one, match_any, consume}
use hivedb.Parser.Descent.{
  operators, signs, from_clause, literal_expr, binary_expr, unary_expr, primary_expr, inside_expr,
  select_expr, more_exprs,
}
use hivedb.Parser.Grammar
use hivedb.Parser.Took.{
  Took, Takes, match_one_sound, match_any_sound, IsToken, consume-Takes, invalid_token-Settles,
  from_clause-Takes, AsChain, AsOperand, AsPrimary, AsInside, AsSelect, literal_expr-Takes,
}
use hivedb.Parser.Steps.{lengths, length_tokens, then_took, from_literal, select_end}

module _ (stof : List ℕ → Outcome ℕ)
    (total : (cs : List ℕ) → Settles (stof cs) (λ x. Unit {0})) where
  mutual
    unfolding binary_expr

    binary-Takes :
        (f : ℕ) (ts : List Token)
        → 5 * length ts + 3 < f
        → Takes (AsChain stof) ts (binary_expr stof f ts)
    binary-Takes zero ts h = absurd (omega arith)
    binary-Takes (suc f) ts h =
        Settles-bind (Took (AsOperand stof) ts) (Took (AsChain stof) ts) (unary_expr stof f ts) _
          (unary-Takes f ts (omega arith))
          (λ r u.
            option-branch (Takes (AsChain stof) ts) (match_any operators r.1) _ _
              (λ e. record {
                used = u.used;
                split = u.split;
                spells = (Grammar.operand r.0 u.used u.spells.0, u.spells.1);
              })
              (λ x e.
                let m = match_any_sound operators r.1 x e in
                let here : length ts ≡ length u.used + length r.1 =
                  ap length u.split ∙ length_tokens u.used r.1 in
                let one : length r.1 ≡ suc (length x.1) = ap length m.0 in
                Settles-bind (Took (AsChain stof) x.1) (Took (AsChain stof) ts)
                  (binary_expr stof f x.1) _ (binary-Takes f x.1 (omega arith))
                  (λ r' v. record {
                    used = u.used ++ x.0 ∷ v.used;
                    split =
                        then_took ts u.used r.1 (x.0 ∷ v.used) r'.1 u.split
                          (m.0 ∙ ap (λ y. x.0 ∷ y) v.split);
                    spells = (
                      Grammar.chain r.0 r'.0 u.used v.used x.0 u.spells.0 m.1 v.spells.0,
                      omega lengths,
                    );
                  })))

    unary-Takes :
        (f : ℕ) (ts : List Token)
        → 5 * length ts + 2 < f
        → Takes (AsOperand stof) ts (unary_expr stof f ts)
    unary-Takes zero ts h = absurd (omega arith)
    unary-Takes (suc f) ts h =
        option-branch (Takes (AsOperand stof) ts) (match_any signs ts) _ _
          (λ e.
            Settles-mono (Took (AsPrimary stof) ts) (Took (AsOperand stof) ts)
              (primary_expr stof f ts)
              (λ r u. record {
                used = u.used;
                split = u.split;
                spells = (Grammar.plain r.0 u.used u.spells.0, u.spells.1);
              })
              (primary-Takes f ts (omega arith)))
          (λ x e.
            let m = match_any_sound signs ts x e in
            let one : length ts ≡ suc (length x.1) = ap length m.0 in
            Settles-bind (Took (AsOperand stof) x.1) (Took (AsOperand stof) ts)
              (unary_expr stof f x.1) _ (unary-Takes f x.1 (omega arith))
              (λ r u. record {
                used = x.0 ∷ u.used;
                split = m.0 ∙ ap (λ y. x.0 ∷ y) u.split;
                spells = (Grammar.signed r.0 u.used x.0 m.1 u.spells.0, omega arith);
              }))

    primary-Takes :
        (f : ℕ) (ts : List Token)
        → 5 * length ts + 1 < f
        → Takes (AsPrimary stof) ts (primary_expr stof f ts)
    primary-Takes zero ts h = absurd (omega arith)
    primary-Takes (suc f) ts h =
        from_literal stof (literal_expr stof ts) _ ts (literal_expr-Takes stof total ts) (
          option-branch (Takes (AsPrimary stof) ts) (match_one TokenType.parentheses_l ts) _ _
            (λ e.
              option-branch (Takes (AsPrimary stof) ts) (match_one TokenType.select ts) _ _
                (λ e. invalid_token-Settles (Took (AsPrimary stof) ts) ts)
                (λ x e.
                  let m = match_one_sound TokenType.select ts x e in
                  let one : length ts ≡ suc (length x.1) = ap length m.0 in
                  Settles-bind (Took (AsSelect stof) x.1) (Took (AsPrimary stof) ts)
                    (select_expr stof f x.1) _ (select-Takes f x.1 (omega arith))
                    (λ r u. record {
                      used = x.0 ∷ u.used;
                      split = m.0 ∙ ap (λ y. x.0 ∷ y) u.split;
                      spells = (Grammar.bare_select r.0 u.used x.0 m.1 u.spells.0, omega arith);
                    })))
            (λ x e.
              let m = match_one_sound TokenType.parentheses_l ts x e in
              let one : length ts ≡ suc (length x.1) = ap length m.0 in
              Settles-bind (Took (AsInside stof) x.1) (Took (AsPrimary stof) ts)
                (inside_expr stof f x.1) _ (inside-Takes f x.1 (omega arith))
                (λ r u.
                  Settles-bind (Took (IsToken TokenType.parentheses_r) r.1)
                    (Took (AsPrimary stof) ts) (consume TokenType.parentheses_r r.1) _
                    (consume-Takes TokenType.parentheses_r r.1)
                    (λ r' v. record {
                      used = x.0 ∷ u.used ++ r'.0 ∷ [];
                      split =
                          m.0
                          ∙ ap (λ y. x.0 ∷ y)
                              (then_took x.1 u.used r.1 (r'.0 ∷ []) r'.1 u.split
                                (v.split ∙ ap (λ us. us ++ r'.1) v.spells.0));
                      spells = (
                        Grammar.group r.0 u.used x.0 r'.0 m.1 u.spells.0 v.spells.1,
                        omega arith,
                      );
                    }))))

    inside-Takes :
        (f : ℕ) (ts : List Token)
        → 5 * length ts + 4 < f
        → Takes (AsInside stof) ts (inside_expr stof f ts)
    inside-Takes zero ts h = absurd (omega arith)
    inside-Takes (suc f) ts h =
        option-branch (Takes (AsInside stof) ts) (match_one TokenType.select ts) _ _
          (λ e.
            Settles-mono (Took (AsChain stof) ts) (Took (AsInside stof) ts) (binary_expr stof f ts)
              (λ r u. record {
                used = u.used;
                split = u.split;
                spells = (Grammar.expression r.0 u.used u.spells.0, u.spells.1);
              })
              (binary-Takes f ts (omega arith)))
          (λ x e.
            let m = match_one_sound TokenType.select ts x e in
            let one : length ts ≡ suc (length x.1) = ap length m.0 in
            Settles-mono (Took (AsSelect stof) x.1) (Took (AsInside stof) ts)
              (select_expr stof f x.1)
              (λ r u. record {
                used = x.0 ∷ u.used;
                split = m.0 ∙ ap (λ y. x.0 ∷ y) u.split;
                spells = (Grammar.subselect r.0 u.used x.0 m.1 u.spells.0, omega arith);
              })
              (select-Takes f x.1 (omega arith)))

    pub select-Takes :
        (f : ℕ) (ts : List Token)
        → 5 * length ts + 4 < f
        → Takes (AsSelect stof) ts (select_expr stof f ts)
    select-Takes zero ts h = absurd (omega arith)
    select-Takes (suc f) ts h =
        option-branch (Takes (AsSelect stof) ts) (match_one TokenType.parentheses_l ts) _ _
          (λ e.
            Settles-bind (Took (AsChain stof) ts) (Took (AsSelect stof) ts) (binary_expr stof f ts)
              _ (binary-Takes f ts (omega arith))
              (λ r u.
                Settles-bind (Took Grammar.From r.1) (Took (AsSelect stof) ts) (from_clause r.1) _
                  (from_clause-Takes r.1)
                  (λ r' v. record {
                    used = u.used ++ v.used;
                    split = then_took ts u.used r.1 v.used r'.1 u.split v.split;
                    spells =
                        (Grammar.one r.0 r'.0 u.used v.used u.spells.0 v.spells, omega lengths);
                  })))
          (λ x e.
            let m = match_one_sound TokenType.parentheses_l ts x e in
            let one : length ts ≡ suc (length x.1) = ap length m.0 in
            Settles-bind (Took (AsChain stof) x.1) (Took (AsSelect stof) ts)
              (binary_expr stof f x.1) _ (binary-Takes f x.1 (omega arith))
              (λ r₁ u₁.
                let here : length x.1 ≡ length u₁.used + length r₁.1 =
                  ap length u₁.split ∙ length_tokens u₁.used r₁.1 in
                Settles-bind (Took (Grammar.More stof) r₁.1) (Took (AsSelect stof) ts)
                  (more_exprs stof f r₁.1) _ (rest-Takes f r₁.1 (omega arith))
                  (λ r₂ u₂. select_end stof ts x r₁ u₁ r₂ u₂ m)))

    rest-Takes :
        (f : ℕ) (ts : List Token)
        → 5 * length ts + 4 < f
        → Takes (Grammar.More stof) ts (more_exprs stof f ts)
    rest-Takes zero ts h = absurd (omega arith)
    rest-Takes (suc f) ts h =
        option-branch (Takes (Grammar.More stof) ts) (match_one TokenType.comma ts) _ _
          (λ e. record { used = []; split = refl; spells = Grammar.no_more })
          (λ x e.
            let m = match_one_sound TokenType.comma ts x e in
            let one : length ts ≡ suc (length x.1) = ap length m.0 in
            Settles-bind (Took (AsChain stof) x.1) (Took (Grammar.More stof) ts)
              (binary_expr stof f x.1) _ (binary-Takes f x.1 (omega arith))
              (λ r u.
                let here : length x.1 ≡ length u.used + length r.1 =
                  ap length u.split ∙ length_tokens u.used r.1 in
                Settles-bind (Took (Grammar.More stof) r.1) (Took (Grammar.More stof) ts)
                  (more_exprs stof f r.1) _ (rest-Takes f r.1 (omega arith))
                  (λ r' v. record {
                    used = x.0 ∷ u.used ++ v.used;
                    split =
                        m.0
                        ∙ ap (λ y. x.0 ∷ y) (then_took x.1 u.used r.1 v.used r'.1 u.split v.split);
                    spells = Grammar.more r.0 r'.0 u.used v.used x.0 m.1 u.spells.0 v.spells;
                  })))
