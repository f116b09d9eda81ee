-- ===== src/Parser/Spelled.antt =====
-- The lists of `createExpr` and `insertExpr`, read from the tokens that spell them.
use hivedb.Base.{
  ℕ, zero, suc, ◌<◌, ◌≡◌, refl, ap, ◌∙◌, Bool, false, List, [], ◌∷◌, ◌++◌, arith, length, ◌⊎◌, inl,
  inr, Outcome, ok, fails, and_then, invalid_argument, if◌then◌else◌, branch_some, branch_none,
}
use mathlib.Core.List.{append_assoc}
use hivedb.Tokens.{TokenType, Token}
use hivedb.Syntax.{TableColumn}
use hivedb.Parser.{Parser, is_done, match_one, consume}
use hivedb.Parser.Statements.{
  after_item, item_loop, in_parentheses, column_name, null_clause, table_column,
}
use hivedb.Parser.Grammar
use hivedb.Parser.Steps.{length_tokens}
use hivedb.Parser.Truncated.{match_one-same, match_one-other}

-- The tokens behind an item of a list.
abbrev pub Follows : List Token → Type 0
Follows [] = ⊥
Follows (t ∷ ts) = (t.type ≡ TokenType.comma) ⊎ (t.type ≡ TokenType.parentheses_r)

pub consume-same :
    (type : TokenType) (t : Token) (ts : List Token)
    → t.type ≡ type
    → consume type (t ∷ ts) ≡ ok (t, ts)
unfolding consume
consume-same type t ts e =
    branch_some (match_one type (t ∷ ts)) (fails invalid_argument) ok (t, ts)
      (match_one-same type t ts e)

-- A step that is known to succeed.
pub run : {A B : Type 0} (o : Outcome A) (a : A) (f : A → Outcome B) → o ≡ ok a → and_then o f ≡ f a
run o a f e = ap (λ p. and_then p f) e

pub column_name_complete :
    (cs : List ℕ) (us rest : List Token)
    → Grammar.Name cs us
    → Follows rest
    → column_name (us ++ rest) ≡ ok (cs, rest)
unfolding column_name
column_name_complete cs us rest (Grammar.name t e) h =
    run (consume TokenType.identifier (t ∷ rest)) (t, rest) _
      (consume-same TokenType.identifier t rest e)

no_clause : (rest : List Token) → Follows rest → null_clause rest ≡ ok (false, rest)
unfolding null_clause
no_clause [] h = absurd h
no_clause (t ∷ ts) (inl e) =
    branch_none (match_one TokenType.not (t ∷ ts)) _ _
      (match_one-other TokenType.not t ts (λ p. cc))
no_clause (t ∷ ts) (inr e) =
    branch_none (match_one TokenType.not (t ∷ ts)) _ _
      (match_one-other TokenType.not t ts (λ p. cc))

null_clause_complete :
    (b : Bool) (us rest : List Token)
    → Grammar.NullClause b us
    → Follows rest
    → null_clause (us ++ rest) ≡ ok (b, rest)
unfolding null_clause
null_clause_complete b us rest Grammar.absent h = no_clause rest h
null_clause_complete b us rest (Grammar.not_null n u e d) h =
    branch_some (match_one TokenType.not (n ∷ u ∷ rest)) _ _ (n, u ∷ rest)
      (match_one-same TokenType.not n (u ∷ rest) e)
    ∙ run (consume TokenType.null (u ∷ rest)) (u, rest) _ (consume-same TokenType.null u rest d)

pub table_column_complete :
    (c : TableColumn) (us rest : List Token)
    → Grammar.Column c us
    → Follows rest
    → table_column (us ++ rest) ≡ ok (c, rest)
unfolding table_column
table_column_complete c us rest (Grammar.column n t b vs e d k) h =
    run (consume TokenType.identifier (n ∷ t ∷ vs ++ rest)) (n, t ∷ vs ++ rest) _
      (consume-same TokenType.identifier n (t ∷ vs ++ rest) e)
    ∙ run (consume TokenType.identifier (t ∷ vs ++ rest)) (t, vs ++ rest) _
        (consume-same TokenType.identifier t (vs ++ rest) d)
    ∙ run (null_clause (vs ++ rest)) (b, rest) _ (null_clause_complete b vs rest k h)

not_done : (us rest : List Token) (t : Token) → is_done (us ++ t ∷ rest) ≡ false
not_done [] rest t = refl
not_done (u ∷ us) rest t = refl

module _ {A : Type 0} (P : A → List Token → Type 0) (item : Parser A)
    (reads : (a : A) (us rest : List Token)
      → P a us
      → Follows rest
      → item (us ++ rest) ≡ ok (a, rest)) where
  after_last :
      (loop : Parser (List A)) (a : A) (r : Token) (rest : List Token)
      → r.type ≡ TokenType.parentheses_r
      → after_item a loop (r ∷ rest) ≡ ok (a ∷ [], rest)
  after_last loop a r rest e =
      branch_none (match_one TokenType.comma (r ∷ rest)) _ _
        (match_one-other TokenType.comma r rest (λ p. cc))
      ∙ branch_some (match_one TokenType.parentheses_r (r ∷ rest)) _ _ (r, rest)
          (match_one-same TokenType.parentheses_r r rest e)

  -- A round whose item is there.
  round :
      (f : ℕ) (a : A) (us rest : List Token) (t : Token)
      → P a us
      → Follows (t ∷ rest)
      → item_loop item (suc f) (us ++ t ∷ rest) ≡ after_item a (item_loop item f) (t ∷ rest)
  unfolding item_loop
  round f a us rest t p h =
      ap
        (λ b.
          if b
          then ok ([], us ++ t ∷ rest)
          else and_then (item (us ++ t ∷ rest)) λ (c, rest'). after_item c (item_loop item f) rest')
        (not_done us rest t)
      ∙ run (item (us ++ t ∷ rest)) (a, t ∷ rest) _ (reads a us (t ∷ rest) p h)

  item_loop_complete :
      (f : ℕ) (more : List A) (us rest : List Token)
      → Grammar.Items P more us rest
      → length (us ++ rest) < f
      → item_loop item f (us ++ rest) ≡ ok (more, rest)
  unfolding item_loop
  item_loop_complete zero more us rest i l = absurd (omega arith)
  item_loop_complete (suc f) more us rest Grammar.cut_off l = refl
  item_loop_complete (suc f) more us rest (Grammar.last a vs rest' r p e) l =
      ap (item_loop item (suc f)) (append_assoc vs (r ∷ []) rest)
      ∙ round f a vs rest r p (inr e)
      ∙ after_last (item_loop item f) a r rest e
  item_loop_complete (suc f) more us rest (Grammar.next a as' vs ws rest' c p e i) l =
      let apart : (vs ++ c ∷ ws) ++ rest ≡ vs ++ c ∷ (ws ++ rest) = append_assoc vs (c ∷ ws) rest in
      ap (item_loop item (suc f)) apart
      ∙ round f a vs (ws ++ rest) c p (inl e)
      ∙ branch_some (match_one TokenType.comma (c ∷ ws ++ rest)) _ _ (c, ws ++ rest)
          (match_one-same TokenType.comma c (ws ++ rest) e)
      ∙ run (item_loop item f (ws ++ rest)) (as', rest) _
          (item_loop_complete f as' ws rest i
            (omega (arith, ap length apart, length_tokens vs (c ∷ ws ++ rest))))

  pub in_parentheses_complete :
      (more : List A) (us rest : List Token)
      → Grammar.Items P more us rest
      → in_parentheses item (us ++ rest) ≡ ok (more, rest)
  in_parentheses_complete more us rest i =
      item_loop_complete (suc (length (us ++ rest))) more us rest i (omega arith)
