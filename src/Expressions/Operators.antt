-- ===== src/Expressions/Operators.antt =====
-- What the captured pointer does to an execution.
use hivedb.Base.{
  ℕ, List, ◌≡◌, refl, ap, ◌∙◌, sym, subst, some_injective, ◌⊎◌, inl, inr, Option, none, some,
  Outcome, ok, fails, and_then,
}
use hivedb.Tokens.{TokenType}
use hivedb.Syntax.{
  Value, Expr, Exprs, literal, unary, grouping, binary, create_tbl, insert_into, select, no_exprs,
  exprs,
}
use hivedb.Expressions.{
  Result, Captured, unset, holds, Run, continue, solve_results, solve_binary, single, execute,
  execute_all,
}
use hivedb.Expressions.Arithmetic.{Floats}
use hivedb.Expressions.Meaning.{meaning, meaning_all, first_op, first_all, or_later}

options_differ : {A : Type 0} {a : A} → ◌≡◌ {A = Option A} (some a) none → ⊥
options_differ e = cc

-- Two computations in a row that leave the state as it is.
continue_pure :
    {A B : Type 0} (p : Outcome A × Captured) (f : A → Run B) (o : Outcome A) (g : A → Outcome B)
    (s : Captured)
    → p ≡ (o, s)
    → ((a : A) → f a s ≡ (g a, s))
    → continue p f ≡ (and_then o g, s)
continue_pure p f (ok a) g s e k = ap (λ x. continue x f) e ∙ k a
continue_pure p f (fails x) g s e k = ap (λ x. continue x f) e

module _ (machine : Floats) (read : List ℕ → Outcome Value) (o : TokenType) where
  mutual
    unfolding execute meaning solve_binary

    -- Once an operator is captured, it is every expression's.
    execute-holds :
        (e : Expr) → execute machine read e (holds o) ≡ (meaning machine read (λ op. o) e, holds o)
    execute-holds (literal v i) = refl
    execute-holds (unary op e) =
        continue_pure (execute machine read e (holds o)) _ (meaning machine read (λ op. o) e) _
          (holds o) (execute-holds e) (λ x. refl)
    execute-holds (grouping e) = execute-holds e
    execute-holds (binary l op r) =
        continue_pure _ _ (meaning machine read (λ op. o) l) _ (holds o) (execute-holds l) (λ x.
          continue_pure _ _ (meaning machine read (λ op. o) r) _ (holds o) (execute-holds r)
            (λ y. refl))
    execute-holds (create_tbl name columns) = refl
    execute-holds (insert_into name values columns) = refl
    execute-holds (select no_exprs name) = refl
    execute-holds (select (exprs e no_exprs) name) = execute-holds e
    execute-holds (select (exprs e (exprs e' es)) name) =
        continue_pure _ _ (meaning machine read (λ op. o) e) _ (holds o) (execute-holds e) λ x.
          continue_pure _ _ (single x) _ (holds o) refl λ v.
            continue_pure _ _ (meaning_all machine read (λ op. o) (exprs e' es)) _ (holds o)
              (execute_all-holds (exprs e' es)) (λ vs. refl)

    execute_all-holds :
        (es : Exprs)
        → execute_all machine read es (holds o) ≡ (meaning_all machine read (λ op. o) es, holds o)
    execute_all-holds no_exprs = refl
    execute_all-holds (exprs e es) =
        continue_pure _ _ (meaning machine read (λ op. o) e) _ (holds o) (execute-holds e) λ x.
          continue_pure _ _ (single x) _ (holds o) refl λ v.
            continue_pure _ _ (meaning_all machine read (λ op. o) es) _ (holds o)
              (execute_all-holds es) (λ vs. refl)

or_later-none : (m n : Option TokenType) → or_later m n ≡ none → (m ≡ none) × (n ≡ none)
or_later-none none n e = (refl, e)
or_later-none (some op) n e = cc

pub or_later-some :
    (m n : Option TokenType) (o : TokenType)
    → or_later m n ≡ some o
    → (m ≡ some o) ⊎ ((m ≡ none) × (n ≡ some o))
or_later-some none n o e = inr (refl, e)
or_later-some (some op) n o e = inl e

module _ (machine : Floats) (read : List ℕ → Outcome Value) (pick : TokenType → TokenType)
    (s : Captured) where
  mutual
    unfolding execute meaning

    -- An expression without operators neither reads nor sets the captured one.
    pub execute-no_op :
        (e : Expr) → first_op e ≡ none → execute machine read e s ≡ (meaning machine read pick e, s)
    execute-no_op (literal v i) h = refl
    execute-no_op (unary op e) h =
        continue_pure _ _ (meaning machine read pick e) _ s (execute-no_op e h) (λ x. refl)
    execute-no_op (grouping e) h = execute-no_op e h
    execute-no_op (binary l op r) h =
        absurd (options_differ (or_later-none (or_later (first_op l) (first_op r)) (some op) h).1)
    execute-no_op (create_tbl name columns) h = refl
    execute-no_op (insert_into name values columns) h = refl
    execute-no_op (select no_exprs name) h = refl
    execute-no_op (select (exprs e no_exprs) name) h =
        execute-no_op e (or_later-none (first_op e) none h).0
    execute-no_op (select (exprs e (exprs e' es)) name) h =
        let both = or_later-none (first_op e) (first_all (exprs e' es)) h in
        continue_pure _ _ (meaning machine read pick e) _ s (execute-no_op e both.0) λ x.
          continue_pure _ _ (single x) _ s refl λ v.
            continue_pure _ _ (meaning_all machine read pick (exprs e' es)) _ s
              (execute_all-no_op (exprs e' es) both.1) (λ vs. refl)

    execute_all-no_op :
        (es : Exprs)
        → first_all es ≡ none
        → execute_all machine read es s ≡ (meaning_all machine read pick es, s)
    execute_all-no_op no_exprs h = refl
    execute_all-no_op (exprs e es) h =
        let both = or_later-none (first_op e) (first_all es) h in
        continue_pure _ _ (meaning machine read pick e) _ s (execute-no_op e both.0) λ x.
          continue_pure _ _ (single x) _ s refl λ v.
            continue_pure _ _ (meaning_all machine read pick es) _ s (execute_all-no_op es both.1)
              (λ vs. refl)

abbrev Returning : {A : Type 0} → Outcome A → Type 0 → Type 0
Returning (ok a) P = P
Returning (fails e) P = Unit {0}

-- An execution that starts with nothing captured: its result, and what is captured if it returns.
abbrev pub Captures : {A : Type 0} → TokenType → Outcome A → Outcome A × Captured → Type 0
Captures o m r = (r.0 ≡ m) × Returning m (r.1 ≡ holds o)

Returning-always : {A : Type 0} (m : Outcome A) (P : Type 0) → P → Returning m P
Returning-always (ok a) P p = p
Returning-always (fails e) P p = tt

captured_already :
    {A : Type 0} (o : TokenType) (m : Outcome A) (r : Outcome A × Captured)
    → r ≡ (m, holds o)
    → Captures o m r
captured_already o m r e = (ap (λ p. p.0) e, Returning-always m (r.1 ≡ holds o) (ap (λ p. p.1) e))

module _ {A B : Type 0} (o : TokenType) where
  captured_before :
      (m : Outcome A) (p : Outcome A × Captured) (g : A → Outcome B) (f : A → Run B)
      → Captures o m p
      → ((a : A) → f a (holds o) ≡ (g a, holds o))
      → Captures o (and_then m g) (continue p f)
  captured_before (ok a) (q, s) g f (e, h) k =
      captured_already o (g a) (continue (q, s) f)
        (continue_pure (q, s) f (ok a) g (holds o) (ap (λ y. (y, s)) e ∙ ap (λ y. (ok a, y)) h) k)
  captured_before (fails x) (q, s) g f (e, h) k = (ap (λ y. (continue (y, s) f).0) e, tt)

  captured_after :
      (m : Outcome A) (p : Outcome A × Captured) (g : A → Outcome B) (f : A → Run B)
      → p ≡ (m, unset)
      → ((a : A) → Captures o (g a) (f a unset))
      → Captures o (and_then m g) (continue p f)
  captured_after (ok a) p g f e k = subst (λ y. Captures o (g a) (continue y f)) (sym e) (k a)
  captured_after (fails x) p g f e k = (ap (λ y. (continue y f).0) e, tt)

module _ (machine : Floats) (read : List ℕ → Outcome Value) (o : TokenType) where
  abbrev all_o : Expr → Outcome Result
  all_o = meaning machine read (λ op. o)

  solve-holds :
      (op : TokenType) (x y : Result)
      → solve_binary machine op x y (holds o) ≡ (solve_results machine (ok o) x y, holds o)
  unfolding solve_binary
  solve-holds op x y = refl

  solve-unset :
      (op : TokenType) (x y : Result)
      → op ≡ o
      → Captures o (solve_results machine (ok o) x y) (solve_binary machine op x y unset)
  unfolding solve_binary
  solve-unset op x y e =
      captured_already o (solve_results machine (ok o) x y) (solve_binary machine op x y unset)
        (ap (λ p. (solve_results machine (ok p) x y, holds p)) e)

  mutual
    unfolding execute meaning

    pub execute-unset :
        (e : Expr) → first_op e ≡ some o → Captures o (all_o e) (execute machine read e unset)
    execute-unset (literal v i) h = absurd (options_differ (sym h))
    execute-unset (unary op e) h = captured_before o (all_o e) _ _ _ (execute-unset e h) (λ x. refl)
    execute-unset (grouping e) h = execute-unset e h
    execute-unset (binary l op r) h =
        elim (or_later-some (or_later (first_op l) (first_op r)) (some op) o h) [
          | inl inside ↦ elim (or_later-some (first_op l) (first_op r) o inside) [
            | inl left ↦ captured_before o (all_o l) _ _ _ (execute-unset l left) λ x.
                continue_pure _ _ (all_o r) _ (holds o) (execute-holds machine read o r)
                  (λ y. solve-holds op x y)
            | inr (no_left, right) ↦
                captured_after o (all_o l) _ _ _
                  (execute-no_op machine read (λ op. o) unset l no_left)
                  λ x.
                    captured_before o (all_o r) _ _ _ (execute-unset r right)
                      (λ y. solve-holds op x y)
          ]
          | inr (neither, own) ↦
              let no = or_later-none (first_op l) (first_op r) neither in
              captured_after o (all_o l) _ _ _ (execute-no_op machine read (λ op. o) unset l no.0)
                λ x.
                  captured_after o (all_o r) _ _ _
                    (execute-no_op machine read (λ op. o) unset r no.1)
                    (λ y. solve-unset op x y (some_injective op o own))
        ]
    execute-unset (create_tbl name columns) h = absurd (options_differ (sym h))
    execute-unset (insert_into name values columns) h = absurd (options_differ (sym h))
    execute-unset (select no_exprs name) h = absurd (options_differ (sym h))
    execute-unset (select (exprs e no_exprs) name) h = elim (or_later-some (first_op e) none o h) [
      | inl own ↦ execute-unset e own
      | inr (none_first, later) ↦ absurd (options_differ (sym later))
    ]
    execute-unset (select (exprs e (exprs e' es)) name) h =
        elim (or_later-some (first_op e) (first_all (exprs e' es)) o h) [
          | inl own ↦ captured_before o (all_o e) _ _ _ (execute-unset e own) λ x.
              continue_pure _ _ (single x) _ (holds o) refl λ v.
                continue_pure _ _ (meaning_all machine read (λ op. o) (exprs e' es)) _ (holds o)
                  (execute_all-holds machine read o (exprs e' es)) (λ vs. refl)
          | inr (none_first, later) ↦
              captured_after o (all_o e) _ _ _
                (execute-no_op machine read (λ op. o) unset e none_first)
                λ x. captured_after o (single x) _ _ _ refl λ v.
                  captured_before o (meaning_all machine read (λ op. o) (exprs e' es)) _ _ _
                    (execute_all-unset (exprs e' es) later) (λ vs. refl)
        ]

    execute_all-unset :
        (es : Exprs)
        → first_all es ≡ some o
        → Captures o (meaning_all machine read (λ op. o) es) (execute_all machine read es unset)
    execute_all-unset no_exprs h = absurd (options_differ (sym h))
    execute_all-unset (exprs e es) h = elim (or_later-some (first_op e) (first_all es) o h) [
      | inl own ↦ captured_before o (all_o e) _ _ _ (execute-unset e own) λ x.
          continue_pure _ _ (single x) _ (holds o) refl λ v.
            continue_pure _ _ (meaning_all machine read (λ op. o) es) _ (holds o)
              (execute_all-holds machine read o es) (λ vs. refl)
      | inr (none_first, later) ↦
          captured_after o (all_o e) _ _ _ (execute-no_op machine read (λ op. o) unset e none_first)
            λ x. captured_after o (single x) _ _ _ refl λ v.
              captured_before o (meaning_all machine read (λ op. o) es) _ _ _
                (execute_all-unset es later) (λ vs. refl)
    ]
