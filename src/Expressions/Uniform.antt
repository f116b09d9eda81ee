-- ===== src/Expressions/Uniform.antt =====
-- When the captured pointer is harmless: expressions with one operator.
use hivedb.Base.{
  ℕ, List, ◌∷◌, ◌≡◌, refl, ap, ◌∙◌, sym, inl, inr, some, Option-cases, Outcome, ok, fails, and_then,
}
use hivedb.Tokens.{TokenType}
use hivedb.Syntax.{
  Value, Expr, Exprs, literal, unary, grouping, binary, create_tbl, insert_into, select, no_exprs,
  exprs,
}
use hivedb.Expressions.{Result, unset, solve_unary, solve_results, single, execute}
use hivedb.Expressions.Arithmetic.{Floats}
use hivedb.Expressions.Meaning.{meaning, meaning_all, first_op, first_all, Uniform, UniformAll}
use hivedb.Expressions.Operators.{Captures, execute-no_op, execute-unset, or_later-some}

mutual
  -- The operator that is solved first is the one that they all are.
  first_op-Uniform : (o p : TokenType) (e : Expr) → Uniform o e → first_op e ≡ some p → p ≡ o
  first_op-Uniform o p (literal v i) u h = cc
  first_op-Uniform o p (unary op e) u h = first_op-Uniform o p e u h
  first_op-Uniform o p (grouping e) u h = first_op-Uniform o p e u h
  first_op-Uniform o p (binary l op r) (ul, e, ur) h = elim (or_later-some _ (some op) p h) [
    | inl inside ↦ elim (or_later-some (first_op l) (first_op r) p inside) [
      | inl left ↦ first_op-Uniform o p l ul left
      | inr (no_left, right) ↦ first_op-Uniform o p r ur right
    ]
    | inr (neither, own) ↦ cc
  ]
  first_op-Uniform o p (create_tbl name columns) u h = cc
  first_op-Uniform o p (insert_into name values columns) u h = cc
  first_op-Uniform o p (select es name) u h = first_all-Uniform o p es u h

  first_all-Uniform :
      (o p : TokenType) (es : Exprs) → UniformAll o es → first_all es ≡ some p → p ≡ o
  first_all-Uniform o p no_exprs u h = cc
  first_all-Uniform o p (exprs e es) (u, us) h =
      elim (or_later-some (first_op e) (first_all es) p h) [
        | inl own ↦ first_op-Uniform o p e u own
        | inr (none_first, later) ↦ first_all-Uniform o p es us later
      ]

then_same :
    {A B : Type 0} (m n : Outcome A) (f g : A → Outcome B)
    → m ≡ n
    → ((a : A) → f a ≡ g a)
    → and_then m f ≡ and_then n g
then_same m (ok a) f g e k = ap (λ x. and_then x f) e ∙ k a
then_same m (fails x) f g e k = ap (λ x. and_then x f) e

module _ (machine : Floats) (read : List ℕ → Outcome Value) (o : TokenType) where
  mutual
    unfolding meaning

    meaning-Uniform :
        (e : Expr)
        → Uniform o e
        → meaning machine read (λ op. o) e ≡ meaning machine read (λ op. op) e
    meaning-Uniform (literal v i) u = refl
    meaning-Uniform (unary op e) u =
        ap (λ m. and_then m (solve_unary machine)) (meaning-Uniform e u)
    meaning-Uniform (grouping e) u = meaning-Uniform e u
    meaning-Uniform (binary l op r) (ul, e, ur) = then_same _ _ _ _ (meaning-Uniform l ul) λ x.
        then_same _ _ _ _ (meaning-Uniform r ur)
          λ y. ap (λ p. solve_results machine (ok p) x y) (sym e)
    meaning-Uniform (create_tbl name columns) u = refl
    meaning-Uniform (insert_into name values columns) u = refl
    meaning-Uniform (select no_exprs name) u = refl
    meaning-Uniform (select (exprs e no_exprs) name) (u, us) = meaning-Uniform e u
    meaning-Uniform (select (exprs e (exprs e' es)) name) (u, us) =
        then_same _ _ _ _ (meaning-Uniform e u) λ x.
          ap (λ m. and_then (single x) λ v. and_then m λ vs. ok (Result.many (v ∷ vs)))
            (meaning_all-Uniform (exprs e' es) us)

    meaning_all-Uniform :
        (es : Exprs)
        → UniformAll o es
        → meaning_all machine read (λ op. o) es ≡ meaning_all machine read (λ op. op) es
    meaning_all-Uniform no_exprs u = refl
    meaning_all-Uniform (exprs e es) (u, us) = then_same _ _ _ _ (meaning-Uniform e u) λ x.
        ap (λ m. and_then (single x) λ v. and_then m λ vs. ok (v ∷ vs)) (meaning_all-Uniform es us)

-- The first execution of the process gives what the expression would with every operator replaced by the
-- one that is solved first, and from then on that operator is the captured one.
pub execute-first_op :
    (machine : Floats) (read : List ℕ → Outcome Value) (e : Expr) (o : TokenType)
    → first_op e ≡ some o
    → Captures o (meaning machine read (λ op. o) e) (execute machine read e unset)
execute-first_op machine read e o h = execute-unset machine read o e h

-- The first execution of the process computes what the expression means, where its operators are all the
-- same one.
pub execute-Uniform :
    (machine : Floats) (read : List ℕ → Outcome Value) (e : Expr) (o : TokenType)
    → Uniform o e
    → (execute machine read e unset).0 ≡ meaning machine read (λ op. op) e
execute-Uniform machine read e o u = elim (Option-cases (first_op e)) [
  | inl without ↦ ap (λ r. r.0) (execute-no_op machine read (λ op. op) unset e without)
  | inr (p, h) ↦
      (execute-unset machine read p e h).0
      ∙ ap (λ q. meaning machine read (λ op. q) e) (first_op-Uniform o p e u h)
      ∙ meaning-Uniform machine read o e u
]
