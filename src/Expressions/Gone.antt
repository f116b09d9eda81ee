-- ===== src/Expressions/Gone.antt =====
-- When the captured pointer is to an expression that was destroyed.
use hivedb.Base.{
  ℕ, List, [], ◌∷◌, ◌≡◌, refl, sym, subst, Option, none, some, Outcome, ok, fails, and_then,
  Ensures, ◌==◌, not, ◌&&◌, length, out_of_bounds, Bool-cases, inl, inr,
}
use hivedb.Tokens.{TokenType}
use hivedb.Syntax.{
  Value, float, int, text, Expr, Exprs, literal, unary, grouping, binary, create_tbl, insert_into,
  select, no_exprs, exprs,
}
use hivedb.Expressions.{
  Result, one, many, Captured, gone, Run, continue, solve_values, solve_copy, solve_vector1,
  solve_vector2, solve_heads, solve_results, solve_binary, single, execute, execute_all,
}
use hivedb.Expressions.Arithmetic.{Floats}
use hivedb.Expressions.Meaning.{meaning, meaning_all, first_op, first_all, or_later}

abbrev pub Failing : {A : Type 0} → Outcome A → Type 0
Failing o = Ensures o (λ a. ⊥)

-- Beside an outcome that is meant, the one of a run through the dangling pointer: where a value is meant,
-- an undefined read, and otherwise some failure.
abbrev pub Strays : {A : Type 0} → Outcome A → Outcome A → Type 0
Strays (ok a) o = o ≡ fails out_of_bounds
Strays (fails e) o = Failing o

-- Beside the outcome that is meant, a run: the same outcome where no operator is read.
abbrev Goes : {A : Type 0} → Option TokenType → Outcome A → Outcome A × Captured → Type 0
Goes none m r = r ≡ (m, gone)
Goes (some op) m r = Strays m r.0

strayed : {A : Type 0} (m : Outcome A) → Strays m (fails out_of_bounds)
strayed (ok a) = refl
strayed (fails e) = tt

module _ {A B : Type 0} where
  Strays-and_then :
      (m p : Outcome A) (g : A → Outcome B) (f : A → Run B) (s : Captured)
      → Strays m p
      → Strays (and_then m g) (continue (p, s) f).0
  Strays-and_then (ok a) (ok b) g f s h = cc
  Strays-and_then (ok a) (fails e) g f s h =
      subst (λ (o : Outcome A). Strays (g a) (and_then o λ b. fails out_of_bounds)) (sym h)
        (strayed (g a))
  Strays-and_then (fails e) (ok b) g f s h = absurd h
  Strays-and_then (fails e) (fails e') g f s h = tt

  Goes-and_then :
      (o o' : Option TokenType) (m : Outcome A) (p : Outcome A × Captured) (g : A → Outcome B)
      (f : A → Run B)
      → Goes o m p
      → ((a : A) → Goes o' (g a) (f a gone))
      → Goes (or_later o o') (and_then m g) (continue p f)
  Goes-and_then (some op) o' m (q, s) g f h k = Strays-and_then m q g f s h
  Goes-and_then none o' (ok a) p g f h k = subst (λ q. Goes o' (g a) (continue q f)) (sym h) (k a)
  Goes-and_then none none (fails e) p g f h k =
      subst (λ q. Goes none (fails e) (continue q f)) (sym h) refl
  Goes-and_then none (some op) (fails e) p g f h k =
      subst (λ q. Goes (some op) (fails e) (continue q f)) (sym h) tt

or_later-none : (o : Option TokenType) → or_later o none ≡ o
or_later-none none = refl
or_later-none (some op) = refl

or_later_assoc :
    (o o' o'' : Option TokenType) → or_later o (or_later o' o'') ≡ or_later (or_later o o') o''
or_later_assoc none o' o'' = refl
or_later_assoc (some op) o' o'' = refl

module _ (machine : Floats) (read : List ℕ → Outcome Value) (pick : TokenType → TokenType) where
  solve_values-Strays :
      (o : TokenType) (l r : Value) {B : Type 0} (k : Value → Outcome B)
      → Strays
          (and_then (solve_values machine (ok o) l r) k)
          (and_then (solve_values machine (fails out_of_bounds) l r) k)
  unfolding solve_values
  solve_values-Strays o (text l) r k = tt
  solve_values-Strays o (float l) (text r) k = tt
  solve_values-Strays o (float l) (float r) k = strayed _
  solve_values-Strays o (float l) (int r) k = strayed _
  solve_values-Strays o (int l) (text r) k = tt
  solve_values-Strays o (int l) (float r) k = strayed _
  solve_values-Strays o (int l) (int r) k = strayed _

  solve_vector1-Strays :
      (o : TokenType) (l : Value) (rs : List Value)
      → Strays
          (solve_vector1 machine (ok o) l rs)
          (solve_vector1 machine (fails out_of_bounds) l rs)
  unfolding solve_vector1
  solve_vector1-Strays o l [] = tt
  solve_vector1-Strays o l (r ∷ []) = solve_values-Strays o l r _
  solve_vector1-Strays o l (r ∷ r' ∷ rs) = tt

  solve_vector2-Strays :
      (o : TokenType) (ls : List Value) (r : Value)
      → Strays
          (solve_vector2 machine (ok o) ls r)
          (solve_vector2 machine (fails out_of_bounds) ls r)
  unfolding solve_vector2 solve_copy
  solve_vector2-Strays o [] r = tt
  solve_vector2-Strays o (int l ∷ []) (float r) = strayed _
  solve_vector2-Strays o (int l ∷ []) (int r) = solve_values-Strays o (int l) (int r) _
  solve_vector2-Strays o (int l ∷ []) (text r) = tt
  solve_vector2-Strays o (float l ∷ []) r = solve_values-Strays o (float l) r _
  solve_vector2-Strays o (text l ∷ []) r = tt
  solve_vector2-Strays o (l ∷ l' ∷ ls) r = tt

  solve_heads-Strays :
      (o : TokenType) (ls rs : List Value)
      → Strays (solve_heads machine (ok o) ls rs) (solve_heads machine (fails out_of_bounds) ls rs)
  unfolding solve_heads
  solve_heads-Strays o [] rs = tt
  solve_heads-Strays o (l ∷ ls) [] = tt
  solve_heads-Strays o (l ∷ ls) (r ∷ rs) = solve_values-Strays o l r _

  solve_results-Strays :
      (o : TokenType) (x y : Result)
      → Strays (solve_results machine (ok o) x y) (solve_results machine (fails out_of_bounds) x y)
  unfolding solve_results
  solve_results-Strays o (one (text l)) (one r) = tt
  solve_results-Strays o (one (float l)) (one r) = solve_values-Strays o (float l) r _
  solve_results-Strays o (one (int l)) (one r) = solve_values-Strays o (int l) r _
  solve_results-Strays o (one (text l)) (many rs) = tt
  solve_results-Strays o (one (float l)) (many rs) = solve_vector1-Strays o (float l) rs
  solve_results-Strays o (one (int l)) (many rs) = solve_vector1-Strays o (int l) rs
  solve_results-Strays o (many ls) (one (text r)) = tt
  solve_results-Strays o (many ls) (one (float r)) = solve_vector2-Strays o ls (float r)
  solve_results-Strays o (many ls) (one (int r)) = solve_vector2-Strays o ls (int r)
  solve_results-Strays o (many ls) (many rs) =
      elim (Bool-cases (not (length ls == 1) && not (length rs == 1))) [
        | inl e ↦ rw e tt
        | inr e ↦ rw e (solve_heads-Strays o ls rs)
      ]

  mutual
    unfolding execute solve_binary meaning

    execute-Goes :
        (e : Expr) → Goes (first_op e) (meaning machine read pick e) (execute machine read e gone)
    execute-Goes (literal v i) = refl
    execute-Goes (unary op e) =
        subst
          (λ o.
            Goes o (meaning machine read pick (unary op e))
              (execute machine read (unary op e) gone))
          (or_later-none (first_op e))
          (Goes-and_then (first_op e) none _ _ _ _ (execute-Goes e) (λ x. refl))
    execute-Goes (grouping e) = execute-Goes e
    execute-Goes (binary l op r) =
        subst
          (λ o.
            Goes o (meaning machine read pick (binary l op r))
              (execute machine read (binary l op r) gone))
          (or_later_assoc (first_op l) (first_op r) (some op))
          (Goes-and_then (first_op l) (or_later (first_op r) (some op)) _ _ _ _ (execute-Goes l)
            λ x.
              Goes-and_then (first_op r) (some op) _ _ _ _ (execute-Goes r)
                λ y. solve_results-Strays (pick op) x y)
    execute-Goes (create_tbl name columns) = refl
    execute-Goes (insert_into name values columns) = refl
    execute-Goes (select no_exprs name) = refl
    execute-Goes (select (exprs e no_exprs) name) =
        subst (λ o. Goes o (meaning machine read pick e) (execute machine read e gone))
          (sym (or_later-none (first_op e))) (execute-Goes e)
    execute-Goes (select (exprs e (exprs e' es)) name) =
        Goes-and_then (first_op e) (first_all (exprs e' es)) _ _ _ _ (execute-Goes e) λ x.
          Goes-and_then none (first_all (exprs e' es)) _ (single x, gone) _ _ refl
            λ v.
              subst
                (λ o.
                  Goes o
                    (and_then (meaning_all machine read pick (exprs e' es))
                      λ vs. ok (many (v ∷ vs)))
                    (continue (execute_all machine read (exprs e' es) gone)
                      (λ vs s. (ok (many (v ∷ vs)), s))))
                (or_later-none (first_all (exprs e' es)))
                (Goes-and_then (first_all (exprs e' es)) none _ _ _ _
                  (execute_all-Goes (exprs e' es)) (λ vs. refl))

    execute_all-Goes :
        (es : Exprs)
        → Goes (first_all es) (meaning_all machine read pick es) (execute_all machine read es gone)
    execute_all-Goes no_exprs = refl
    execute_all-Goes (exprs e es) =
        Goes-and_then (first_op e) (first_all es) _ _ _ _ (execute-Goes e) λ x.
          Goes-and_then none (first_all es) _ (single x, gone) _ _ refl
            λ v.
              subst
                (λ o.
                  Goes o (and_then (meaning_all machine read pick es) λ vs. ok (v ∷ vs))
                    (continue (execute_all machine read es gone) (λ vs s. (ok (v ∷ vs), s))))
                (or_later-none (first_all es))
                (Goes-and_then (first_all es) none _ _ _ _ (execute_all-Goes es) (λ vs. refl))

  -- Once the captured expression is destroyed, the execution of an expression with an operator reads
  -- freed memory wherever the expression has a value, with its own operators or with others in their
  -- place. Where it has none, the execution fails too.
  pub execute-gone :
      (e : Expr) (o : TokenType)
      → first_op e ≡ some o
      → Strays (meaning machine read pick e) (execute machine read e gone).0
  execute-gone e o h =
      subst (λ first. Goes first (meaning machine read pick e) (execute machine read e gone)) h
        (execute-Goes e)
