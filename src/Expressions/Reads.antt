-- ===== src/Expressions/Reads.antt =====
-- `retriveColumns` against `execute`: which columns an execution reads.
use hivedb.Base.{
  ℕ, true, false, List, [], ◌∷◌, ◌++◌, ◌≡◌, refl, ap, ◌∙◌, Outcome, ok, fails, and_then,
}
use hivedb.Syntax.{
  Value, float, int, text, Expr, Exprs, literal, unary, grouping, binary, create_tbl, insert_into,
  select, no_exprs, exprs,
}
use hivedb.Expressions.{
  one, Captured, Run, continue, literal_value, single, execute, execute_all, retrive_columns,
  retrive_all,
}
use hivedb.Expressions.Arithmetic.{Floats}

-- Two ways of reading columns that agree on these.
abbrev pub AgreeOn : List (List ℕ) → (List ℕ → Outcome Value) → (List ℕ → Outcome Value) → Type 0
AgreeOn [] read read' = Unit {0}
AgreeOn (c ∷ cs) read read' = (read c ≡ read' c) × AgreeOn cs read read'

-- What two ways of reading agree on, if the columns are listed at all.
abbrev pub Agree :
    Outcome (List (List ℕ)) → (List ℕ → Outcome Value) → (List ℕ → Outcome Value) → Type 0
Agree (ok cs) read read' = AgreeOn cs read read'
Agree (fails x) read read' = ⊥

AgreeOn-append :
    (read read' : List ℕ → Outcome Value) (xs ys : List (List ℕ))
    → AgreeOn (xs ++ ys) read read'
    → AgreeOn xs read read' × AgreeOn ys read read'
AgreeOn-append read read' [] ys h = (tt, h)
AgreeOn-append read read' (x ∷ xs) ys (h, t) =
    let both = AgreeOn-append read read' xs ys t in ((h, both.0), both.1)

Agree-both :
    (read read' : List ℕ → Outcome Value) (o o' : Outcome (List (List ℕ)))
    → Agree (and_then o λ xs. and_then o' λ ys. ok (xs ++ ys)) read read'
    → Agree o read read' × Agree o' read read'
Agree-both read read' (ok xs) (ok ys) h = AgreeOn-append read read' xs ys h
Agree-both read read' (ok xs) (fails x) h = absurd h
Agree-both read read' (fails x) o' h = absurd h

-- Runs in a row that are the same.
pub continue_same :
    {A B : Type 0} (p p' : Outcome A × Captured) (f f' : A → Run B)
    → p ≡ p'
    → ((a : A) (s : Captured) → f a s ≡ f' a s)
    → continue p f ≡ continue p' f'
continue_same p (ok a, s) f f' e k = ap (λ x. continue x f) e ∙ k a s
continue_same p (fails x, s) f f' e k = ap (λ x. continue x f) e

module _ (machine : Floats) (read read' : List ℕ → Outcome Value) where
  mutual
    unfolding execute retrive_columns literal_value

    execute_same :
        (e : Expr) (s : Captured)
        → Agree (retrive_columns e) read read'
        → execute machine read e s ≡ execute machine read' e s
    execute_same (literal (text name) true) s h = ap (λ o. (and_then o λ x. ok (one x), s)) h.0
    execute_same (literal (text name) false) s h = refl
    execute_same (literal (int z) i) s h = refl
    execute_same (literal (float x) i) s h = refl
    execute_same (unary op e) s h = continue_same _ _ _ _ (execute_same e s h) (λ x s'. refl)
    execute_same (grouping e) s h = execute_same e s h
    execute_same (binary l op r) s h =
        let both = Agree-both read read' (retrive_columns l) (retrive_columns r) h in
        continue_same _ _ _ _ (execute_same l s both.0)
          λ x s₁. continue_same _ _ _ _ (execute_same r s₁ both.1) (λ y s₂. refl)
    execute_same (create_tbl name columns) s h = absurd h
    execute_same (insert_into name values columns) s h = absurd h
    execute_same (select no_exprs name) s h = refl
    execute_same (select (exprs e no_exprs) name) s h =
        execute_same e s (Agree-both read read' (retrive_columns e) (ok []) h).0
    execute_same (select (exprs e (exprs e' es)) name) s h =
        let both = Agree-both read read' (retrive_columns e) (retrive_all (exprs e' es)) h in
        continue_same _ _ _ _ (execute_same e s both.0) λ x s₁.
          continue_same (single x, s₁) (single x, s₁) _ _ refl
            λ v s₂. continue_same _ _ _ _ (execute_all_same (exprs e' es) s₂ both.1) (λ vs s₃. refl)

    execute_all_same :
        (es : Exprs) (s : Captured)
        → Agree (retrive_all es) read read'
        → execute_all machine read es s ≡ execute_all machine read' es s
    execute_all_same no_exprs s h = refl
    execute_all_same (exprs e es) s h =
        let both = Agree-both read read' (retrive_columns e) (retrive_all es) h in
        continue_same _ _ _ _ (execute_same e s both.0) λ x s₁.
          continue_same (single x, s₁) (single x, s₁) _ _ refl
            λ v s₂. continue_same _ _ _ _ (execute_all_same es s₂ both.1) (λ vs s₃. refl)

  -- The result depends on the columns that `retriveColumns` lists, and on no other.
  pub execute-columns :
      (e : Expr) (s : Captured)
      → Agree (retrive_columns e) read read'
      → execute machine read e s ≡ execute machine read' e s
  execute-columns = execute_same
