-- ===== src/Parser/Whole.antt =====
-- `parse`: it ends on every input, and what it returns is spelled by the tokens that it took.
use hivedb.Base.{
  ℕ, suc, ◌+◌, ◌*◌, ◌<◌, ◌≡◌, ap, ◌∙◌, sym, subst, List, [], ◌∷◌, ◌++◌, arith, length, Outcome,
  Settles, Settles-bind, Settles-mono, Settles-eq, option-branch,
}
use hivedb.Tokens.{TokenType, Token}
use hivedb.Syntax.{Value, TableColumn, Expr}
use hivedb.Parser.{match_one}
use hivedb.Parser.Numbers.{stoi, stoi-Settles}
use hivedb.Parser.Descent.{select_expr}
use hivedb.Parser.Statements.{
  in_parentheses, column_name, table_column, create_expr, insert_value, insert_expr, expr, parse,
}
use hivedb.Parser.Grammar
use hivedb.Parser.Took.{Took, Takes, match_one_sound, invalid_token-Settles, AsSelect}
use hivedb.Parser.Sound.{select-Takes}
use hivedb.Parser.Steps.{then_took}
use hivedb.Parser.Lists.{
  Left, consumed, column_name-Takes, table_column-Takes, in_parentheses-Takes,
}

Name-nonempty : (cs : List ℕ) (us : List Token) → Grammar.Name cs us → 0 < length us
Name-nonempty cs us (Grammar.name t e) = omega arith

Column-nonempty : (c : TableColumn) (us : List Token) → Grammar.Column c us → 0 < length us
Column-nonempty c us (Grammar.column n t b vs e d k) = omega arith

create_expr-Takes :
    (c : Token) (ts : List Token)
    → c.type ≡ TokenType.create
    → (stof : List ℕ → Outcome ℕ)
    → Settles (create_expr ts) (Left (Grammar.Statement stof) (c ∷ ts))
unfolding create_expr
create_expr-Takes c ts e stof =
    consumed (Left (Grammar.Statement stof) (c ∷ ts)) TokenType.table ts _ λ t rest₁ p₁ e₁.
      consumed (Left (Grammar.Statement stof) (c ∷ ts)) TokenType.identifier rest₁ _
        λ n rest₂ p₂ e₂.
          consumed (Left (Grammar.Statement stof) (c ∷ ts)) TokenType.parentheses_l rest₂ _
            λ l rest₃ p₃ e₃.
              Settles-bind (Left (Grammar.Items Grammar.Column) rest₃)
                (Left (Grammar.Statement stof) (c ∷ ts)) (in_parentheses table_column rest₃) _
                (in_parentheses-Takes Grammar.Column table_column table_column-Takes Column-nonempty
                  rest₃)
                (λ r u. record {
                  used = c ∷ t ∷ n ∷ l ∷ u.used;
                  split =
                      ap (λ y. c ∷ y)
                        (p₁
                          ∙ ap (λ y. t ∷ y) (p₂ ∙ ap (λ y. n ∷ y) (p₃ ∙ ap (λ y. l ∷ y) u.split)));
                  spells = Grammar.create_stmt r.0 u.used r.1 c t n l e e₁ e₂ e₃ u.spells;
                })

-- A front part of the tokens spells the statement.
abbrev pub IsSpelledBy : (List ℕ → Outcome ℕ) → List Token → Expr → Type 0
IsSpelledBy stof ts e =
    (used : List Token) × (rest : List Token) × (ts ≡ used ++ rest)
    × Grammar.Statement stof e used rest

module _ (stof : List ℕ → Outcome ℕ)
    (total : (cs : List ℕ) → Settles (stof cs) (λ x. Unit {0})) where
  Constant-nonempty : (v : Value) (us : List Token) → Grammar.Constant stof v us → 0 < length us
  Constant-nonempty v us (Grammar.string t e) = omega arith
  Constant-nonempty v us (Grammar.integer t n e d) = omega arith
  Constant-nonempty v us (Grammar.real t x e d) = omega arith

  insert_value-Takes : (ts : List Token) → Takes (Grammar.Constant stof) ts (insert_value stof ts)
  unfolding insert_value
  insert_value-Takes ts =
      option-branch (Takes (Grammar.Constant stof) ts) (match_one TokenType.string ts) _ _
        (λ e.
          option-branch (Takes (Grammar.Constant stof) ts) (match_one TokenType.integer ts) _ _
            (λ e.
              option-branch (Takes (Grammar.Constant stof) ts) (match_one TokenType.real ts) _ _
                (λ e. tt)
                (λ x e.
                  let m = match_one_sound TokenType.real ts x e in
                  Settles-bind _ (Took (Grammar.Constant stof) ts) (stof x.0.literal) _
                    (Settles-eq (λ y. Unit {0}) (stof x.0.literal) (total x.0.literal))
                    (λ y h. one_token ts x _ m.0 (Grammar.real x.0 y m.1 h.1))))
            (λ x e.
              let m = match_one_sound TokenType.integer ts x e in
              Settles-bind _ (Took (Grammar.Constant stof) ts) (stoi x.0.literal) _
                (Settles-eq (λ y. Unit {0}) (stoi x.0.literal) (stoi-Settles x.0.literal))
                (λ n h. one_token ts x _ m.0 (Grammar.integer x.0 n m.1 h.1))))
        (λ x e.
          let m = match_one_sound TokenType.string ts x e in
          one_token ts x _ m.0 (Grammar.string x.0 m.1))
    where
      one_token :
          (ts : List Token) (x : Token × List Token) (v : Value)
          → ts ≡ x.0 ∷ x.1
          → Grammar.Constant stof v (x.0 ∷ [])
          → Took (Grammar.Constant stof) ts (v, x.1)
      one_token ts x v p k = record { used = x.0 ∷ []; split = p; spells = k }

  insert_expr-Takes :
      (i : Token) (ts : List Token)
      → i.type ≡ TokenType.insert
      → Settles (insert_expr stof ts) (Left (Grammar.Statement stof) (i ∷ ts))
  unfolding insert_expr
  insert_expr-Takes i ts e =
      consumed (Left (Grammar.Statement stof) (i ∷ ts)) TokenType.into ts _ λ o rest₁ p₁ e₁.
        consumed (Left (Grammar.Statement stof) (i ∷ ts)) TokenType.identifier rest₁ _
          λ n rest₂ p₂ e₂.
            consumed (Left (Grammar.Statement stof) (i ∷ ts)) TokenType.parentheses_l rest₂ _
              λ l rest₃ p₃ e₃.
                Settles-bind (Left (Grammar.Items Grammar.Name) rest₃)
                  (Left (Grammar.Statement stof) (i ∷ ts)) (in_parentheses column_name rest₃) _
                  (in_parentheses-Takes Grammar.Name column_name column_name-Takes Name-nonempty
                    rest₃)
                  (λ r u.
                    consumed (Left (Grammar.Statement stof) (i ∷ ts)) TokenType.values r.1 _
                      λ v rest₄ p₄ e₄.
                        consumed (Left (Grammar.Statement stof) (i ∷ ts)) TokenType.parentheses_l
                          rest₄ _
                          λ m rest₅ p₅ e₅.
                            Settles-bind (Left (Grammar.Items (Grammar.Constant stof)) rest₅)
                              (Left (Grammar.Statement stof) (i ∷ ts))
                              (in_parentheses (insert_value stof) rest₅) _
                              (in_parentheses-Takes (Grammar.Constant stof) (insert_value stof)
                                insert_value-Takes Constant-nonempty rest₅)
                              (λ r' w.
                                let behind = p₄ ∙ ap (λ y. v ∷ y) (p₅ ∙ ap (λ y. m ∷ y) w.split) in
                                record {
                                  used = i ∷ o ∷ n ∷ l ∷ u.used ++ (v ∷ m ∷ w.used);
                                  split =
                                      ap (λ y. i ∷ y)
                                        (p₁
                                          ∙ ap (λ y. o ∷ y)
                                              (p₂
                                                ∙ ap (λ y. n ∷ y)
                                                    (p₃
                                                      ∙ ap (λ y. l ∷ y)
                                                          (then_took rest₃ u.used r.1
                                                            (v ∷ m ∷ w.used) r'.1 u.split
                                                            behind))));
                                  spells =
                                      Grammar.insert_stmt r.0 r'.0 u.used w.used r'.1 i o n l v m e
                                        e₁ e₂ e₃
                                        (subst (λ z. Grammar.Items Grammar.Name r.0 u.used z) behind
                                          u.spells)
                                        e₄ e₅ w.spells;
                                }))

  expr-Takes :
      (ts : List Token)
      → Settles (expr stof (5 * length ts + 5) ts) (Left (Grammar.Statement stof) ts)
  unfolding expr
  expr-Takes ts =
      option-branch (λ o. Settles o (Left (Grammar.Statement stof) ts))
        (match_one TokenType.select ts) _ _
        (λ e.
          option-branch (λ o. Settles o (Left (Grammar.Statement stof) ts))
            (match_one TokenType.create ts) _ _
            (λ e.
              option-branch (λ o. Settles o (Left (Grammar.Statement stof) ts))
                (match_one TokenType.insert ts) _ _
                (λ e. invalid_token-Settles (Left (Grammar.Statement stof) ts) ts)
                (λ x e.
                  let m = match_one_sound TokenType.insert ts x e in
                  subst (λ us. Settles (insert_expr stof x.1) (Left (Grammar.Statement stof) us))
                    (sym m.0) (insert_expr-Takes x.0 x.1 m.1)))
            (λ x e.
              let m = match_one_sound TokenType.create ts x e in
              subst (λ us. Settles (create_expr x.1) (Left (Grammar.Statement stof) us)) (sym m.0)
                (create_expr-Takes x.0 x.1 m.1 stof)))
        (λ x e.
          let m = match_one_sound TokenType.select ts x e in
          let one : length ts ≡ suc (length x.1) = ap length m.0 in
          Settles-mono (Took (AsSelect stof) x.1) (Left (Grammar.Statement stof) ts)
            (select_expr stof (5 * length ts + 5) x.1)
            (λ r u. record {
              used = x.0 ∷ u.used;
              split = m.0 ∙ ap (λ y. x.0 ∷ y) u.split;
              spells = Grammar.select_stmt r.0 u.used r.1 x.0 m.1 u.spells.0;
            })
            (select-Takes stof total (5 * length ts + 5) x.1 (omega arith)))

  -- On every list of tokens `parse` ends, with enough fuel in the model, and the statement that it
  -- returns is spelled, in the grammar, by a front part of the tokens. Where std::stof ends.
  pub parse-Statement : (ts : List Token) → Settles (parse stof ts) (IsSpelledBy stof ts)
  unfolding parse
  parse-Statement ts =
      Settles-bind (Left (Grammar.Statement stof) ts) _ (expr stof (5 * length ts + 5) ts) _
        (expr-Takes ts) (λ r u. (u.used, r.1, u.split, u.spells))
