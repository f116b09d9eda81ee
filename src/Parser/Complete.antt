-- ===== src/Parser/Complete.antt =====
-- `createExpr` and `insertExpr` read what is spelled.
use hivedb.Base.{ℕ, ◌≡◌, ap, ◌∙◌, List, ◌∷◌, ◌++◌, Outcome, ok, branch_some, branch_none}
use mathlib.Core.List.{append_assoc}
use hivedb.Tokens.{TokenType, Token}
use hivedb.Syntax.{Value, TableColumn, Expr, create_tbl, insert_into}
use hivedb.Parser.{match_one, consume}
use hivedb.Parser.Numbers.{stoi}
use hivedb.Parser.Statements.{
  in_parentheses, column_name, table_column, create_expr, insert_value, insert_expr, expr, parse,
}
use hivedb.Parser.Grammar
use hivedb.Parser.Truncated.{match_one-same, match_one-other}
use hivedb.Parser.Spelled.{
  Follows, consume-same, run, column_name_complete, table_column_complete, in_parentheses_complete,
}

create_expr_complete :
    (columns : List TableColumn) (us rest : List Token) (t n l : Token)
    → t.type ≡ TokenType.table
    → n.type ≡ TokenType.identifier
    → l.type ≡ TokenType.parentheses_l
    → Grammar.Items Grammar.Column columns us rest
    → create_expr (t ∷ n ∷ l ∷ us ++ rest) ≡ ok (create_tbl n.literal columns, rest)
unfolding create_expr
create_expr_complete columns us rest t n l e₁ e₂ e₃ i =
    run (consume TokenType.table (t ∷ n ∷ l ∷ us ++ rest)) (t, n ∷ l ∷ us ++ rest) _
      (consume-same TokenType.table t (n ∷ l ∷ us ++ rest) e₁)
    ∙ run (consume TokenType.identifier (n ∷ l ∷ us ++ rest)) (n, l ∷ us ++ rest) _
        (consume-same TokenType.identifier n (l ∷ us ++ rest) e₂)
    ∙ run (consume TokenType.parentheses_l (l ∷ us ++ rest)) (l, us ++ rest) _
        (consume-same TokenType.parentheses_l l (us ++ rest) e₃)
    ∙ run (in_parentheses table_column (us ++ rest)) (columns, rest) _
        (in_parentheses_complete Grammar.Column table_column table_column_complete columns us rest
          i)

module _ (stof : List ℕ → Outcome ℕ) where
  insert_value_complete :
      (v : Value) (us rest : List Token)
      → Grammar.Constant stof v us
      → Follows rest
      → insert_value stof (us ++ rest) ≡ ok (v, rest)
  unfolding insert_value
  insert_value_complete v us rest (Grammar.string t e) h =
      branch_some (match_one TokenType.string (t ∷ rest)) _ _ (t, rest)
        (match_one-same TokenType.string t rest e)
  insert_value_complete v us rest (Grammar.integer t n e d) h =
      branch_none (match_one TokenType.string (t ∷ rest)) _ _
        (match_one-other TokenType.string t rest (λ p. cc))
      ∙ branch_some (match_one TokenType.integer (t ∷ rest)) _ _ (t, rest)
          (match_one-same TokenType.integer t rest e)
      ∙ run (stoi t.literal) n _ d
  insert_value_complete v us rest (Grammar.real t x e d) h =
      branch_none (match_one TokenType.string (t ∷ rest)) _ _
        (match_one-other TokenType.string t rest (λ p. cc))
      ∙ branch_none (match_one TokenType.integer (t ∷ rest)) _ _
          (match_one-other TokenType.integer t rest (λ p. cc))
      ∙ branch_some (match_one TokenType.real (t ∷ rest)) _ _ (t, rest)
          (match_one-same TokenType.real t rest e)
      ∙ run (stof t.literal) x _ d

  insert_expr_complete :
      (columns : List (List ℕ)) (values : List Value) (us vs rest : List Token) (o n l v m : Token)
      → o.type ≡ TokenType.into
      → n.type ≡ TokenType.identifier
      → l.type ≡ TokenType.parentheses_l
      → Grammar.Items Grammar.Name columns us (v ∷ m ∷ vs ++ rest)
      → v.type ≡ TokenType.values
      → m.type ≡ TokenType.parentheses_l
      → Grammar.Items (Grammar.Constant stof) values vs rest
      → insert_expr stof (o ∷ n ∷ l ∷ us ++ (v ∷ m ∷ vs ++ rest))
        ≡ ok (insert_into n.literal values columns, rest)
  unfolding insert_expr
  insert_expr_complete columns values us vs rest o n l v m e₁ e₂ e₃ i e₄ e₅ j =
      let behind : List Token = v ∷ m ∷ vs ++ rest in
      run (consume TokenType.into (o ∷ n ∷ l ∷ us ++ behind)) (o, n ∷ l ∷ us ++ behind) _
        (consume-same TokenType.into o (n ∷ l ∷ us ++ behind) e₁)
      ∙ run (consume TokenType.identifier (n ∷ l ∷ us ++ behind)) (n, l ∷ us ++ behind) _
          (consume-same TokenType.identifier n (l ∷ us ++ behind) e₂)
      ∙ run (consume TokenType.parentheses_l (l ∷ us ++ behind)) (l, us ++ behind) _
          (consume-same TokenType.parentheses_l l (us ++ behind) e₃)
      ∙ run (in_parentheses column_name (us ++ behind)) (columns, behind) _
          (in_parentheses_complete Grammar.Name column_name column_name_complete columns us behind
            i)
      ∙ run (consume TokenType.values behind) (v, m ∷ vs ++ rest) _
          (consume-same TokenType.values v (m ∷ vs ++ rest) e₄)
      ∙ run (consume TokenType.parentheses_l (m ∷ vs ++ rest)) (m, vs ++ rest) _
          (consume-same TokenType.parentheses_l m (vs ++ rest) e₅)
      ∙ run (in_parentheses (insert_value stof) (vs ++ rest)) (values, rest) _
          (in_parentheses_complete (Grammar.Constant stof) (insert_value stof) insert_value_complete
            values vs rest j)

  -- The statements that are made of lists.
  abbrev pub OfLists : Expr → Type 0
  OfLists (create_tbl name columns) = Unit {0}
  OfLists (insert_into name values columns) = Unit {0}
  OfLists e = ⊥

  expr-create :
      (f : ℕ) (c : Token) (ts : List Token)
      → c.type ≡ TokenType.create
      → expr stof f (c ∷ ts) ≡ create_expr ts
  unfolding expr
  expr-create f c ts e =
      branch_none (match_one TokenType.select (c ∷ ts)) _ _
        (match_one-other TokenType.select c ts (λ p. cc))
      ∙ branch_some (match_one TokenType.create (c ∷ ts)) _ _ (c, ts)
          (match_one-same TokenType.create c ts e)

  expr-insert :
      (f : ℕ) (c : Token) (ts : List Token)
      → c.type ≡ TokenType.insert
      → expr stof f (c ∷ ts) ≡ insert_expr stof ts
  unfolding expr
  expr-insert f c ts e =
      branch_none (match_one TokenType.select (c ∷ ts)) _ _
        (match_one-other TokenType.select c ts (λ p. cc))
      ∙ branch_none (match_one TokenType.create (c ∷ ts)) _ _
          (match_one-other TokenType.create c ts (λ p. cc))
      ∙ branch_some (match_one TokenType.insert (c ∷ ts)) _ _ (c, ts)
          (match_one-same TokenType.insert c ts e)

  -- `create` and `insert` statements are read as they are spelled, whatever stands behind them.
  pub parse-OfLists :
      (e : Expr) (us rest : List Token)
      → Grammar.Statement stof e us rest
      → OfLists e
      → parse stof (us ++ rest) ≡ ok e
  unfolding parse
  parse-OfLists e us rest (Grammar.select_stmt e' us' rest' s p (Grammar.one x name vs ws k h)) o =
      absurd o
  parse-OfLists e us rest
        (Grammar.select_stmt e' us' rest' s p (Grammar.many x xs name vs ws ys l r q k h d g)) o =
      absurd o
  parse-OfLists e us rest (Grammar.create_stmt columns vs rest' c t n l e₀ e₁ e₂ e₃ i) o =
      run (expr stof _ (c ∷ t ∷ n ∷ l ∷ vs ++ rest)) (e, rest) _
        (expr-create _ c (t ∷ n ∷ l ∷ vs ++ rest) e₀
          ∙ create_expr_complete columns vs rest t n l e₁ e₂ e₃ i)
  parse-OfLists e us rest
        (Grammar.insert_stmt columns values xs vs rest' i o n l v m e₀ e₁ e₂ e₃ k e₄ e₅ j) q =
      ap (λ ts. parse stof (i ∷ o ∷ n ∷ l ∷ ts)) (append_assoc xs (v ∷ m ∷ vs) rest)
      ∙ run (expr stof _ (i ∷ o ∷ n ∷ l ∷ xs ++ (v ∷ m ∷ vs ++ rest))) (e, rest) _
          (expr-insert _ i (o ∷ n ∷ l ∷ xs ++ (v ∷ m ∷ vs ++ rest)) e₀
            ∙ insert_expr_complete columns values xs vs rest o n l v m e₁ e₂ e₃ k e₄ e₅ j)
