-- ===== src/Expressions/Vectors.antt =====
-- The vectors that an execution gives.
use hivedb.Base.{
  ℕ, arith, List, [], ◌∷◌, refl, true, not, ◌&&◌, Bool-cases, inl, inr, ◌≡◌, Outcome, ok, fails,
  and_then, Ensures, ◌==◌, ◌<◌, length,
}
use hivedb.Tokens.{TokenType}
use hivedb.Syntax.{
  Value, float, int, text, Expr, Exprs, literal, unary, grouping, binary, create_tbl, insert_into,
  select, no_exprs, exprs,
}
use hivedb.Expressions.{
  Result, one, many, Captured, Run, continue, capture, captured_op, literal_value, solve_unary,
  negate_value, solve_values, solve_vector1, solve_vector2, solve_results, solve_binary, single,
  execute, execute_all,
}
use hivedb.Expressions.Arithmetic.{Floats}

-- A value, or a vector whose length is not 1.
abbrev pub NotSingle : Result → Type 0
NotSingle (one v) = Unit {0}
NotSingle (many vs) = length vs ≡ 1 → ⊥

-- What a run returns, whatever its state.
record Gives {A : Type 0} (P : A → Type 0) (r : Outcome A × Captured) : Type 0 where
  ensures : Ensures r.0 P

module _ {A B : Type 0} (P : A → Type 0) (Q : B → Type 0) where
  continue-Gives :
      (p : Outcome A × Captured) (f : A → Run B)
      → Gives P p
      → ((a : A) (s : Captured) → P a → Gives Q (f a s))
      → Gives Q (continue p f)
  continue-Gives (ok a, s) f h k = k a s h.ensures
  continue-Gives (fails x, s) f h k = record { ensures = tt }

module _ (machine : Floats) (read : List ℕ → Outcome Value) where
  -- An operation does not return a vector of one value.
  abbrev One : Outcome Result → Type 0
  One o = Ensures o NotSingle

  value_One : (o : Outcome Value) → One (and_then o λ v. ok (one v))
  value_One (ok v) = tt
  value_One (fails x) = tt

  solve_unary-One : (x : Result) → NotSingle x → One (solve_unary machine x)
  unfolding solve_unary
  solve_unary-One (one v) h = value_One (negate_value machine v)
  solve_unary-One (many []) h = tt
  solve_unary-One (many (v ∷ [])) h = absurd (h refl)
  solve_unary-One (many (v ∷ w ∷ vs)) h = tt

  solve_vector1-One :
      (op : Outcome TokenType) (l : Value) (rs : List Value) → One (solve_vector1 machine op l rs)
  unfolding solve_vector1
  solve_vector1-One op l [] = tt
  solve_vector1-One op l (r ∷ []) = value_One (solve_values machine op l r)
  solve_vector1-One op l (r ∷ r' ∷ rs) = tt

  solve_vector2-One :
      (op : Outcome TokenType) (ls : List Value) (r : Value)
      → NotSingle (many ls)
      → One (solve_vector2 machine op ls r)
  unfolding solve_vector2
  solve_vector2-One op [] r h = tt
  solve_vector2-One op (l ∷ []) r h = absurd (h refl)
  solve_vector2-One op (l ∷ l' ∷ ls) r h = tt

  both_long :
      (ls rs : List Value)
      → NotSingle (many ls)
      → NotSingle (many rs)
      → (not (length ls == 1) && not (length rs == 1)) ≡ true
  both_long ls rs h k = elim (Bool-cases (length ls == 1)) [
    | inl e ↦ absurd (h (ground arith))
    | inr e ↦ elim (Bool-cases (length rs == 1)) [
      | inl e' ↦ absurd (k (ground arith))
      | inr e' ↦ rw (e, e')
    ]
  ]

  -- Neither operand is a vector of one value, and no more is the result.
  solve_results-One :
      (op : Outcome TokenType) (x y : Result)
      → NotSingle x
      → NotSingle y
      → One (solve_results machine op x y)
  unfolding solve_results
  solve_results-One op (one (text l)) (one r) h k = value_One (solve_values machine op (text l) r)
  solve_results-One op (one (float l)) (one r) h k = value_One (solve_values machine op (float l) r)
  solve_results-One op (one (int l)) (one r) h k = value_One (solve_values machine op (int l) r)
  solve_results-One op (one (text l)) (many rs) h k = tt
  solve_results-One op (one (float l)) (many rs) h k = solve_vector1-One op (float l) rs
  solve_results-One op (one (int l)) (many rs) h k = solve_vector1-One op (int l) rs
  solve_results-One op (many ls) (one (text r)) h k = tt
  solve_results-One op (many ls) (one (float r)) h k = solve_vector2-One op ls (float r) h
  solve_results-One op (many ls) (one (int r)) h k = solve_vector2-One op ls (int r) h
  solve_results-One op (many ls) (many rs) h k = rw (both_long ls rs h k) tt

  abbrev Any : {A : Type 0} → A → Type 0
  Any a = Unit {0}

  any : {A : Type 0} (r : Outcome A × Captured) → Gives Any r
  any (ok a, s) = record { ensures = tt }
  any (fails x, s) = record { ensures = tt }

  abbrev NotEmpty : List Value → Type 0
  NotEmpty vs = 0 < length vs

  -- A list of some expressions gives some values.
  abbrev AsLong : Exprs → List Value → Type 0
  AsLong no_exprs vs = Unit {0}
  AsLong (exprs e es) vs = NotEmpty vs

  mutual
    unfolding execute execute_all solve_binary

    execute-Gives : (e : Expr) (s : Captured) → Gives NotSingle (execute machine read e s)
    execute-Gives (literal v i) s = record { ensures = value_One (literal_value machine read v i) }
    execute-Gives (unary op e) s =
        continue-Gives NotSingle NotSingle _ _ (execute-Gives e s)
          (λ x s' h. record { ensures = solve_unary-One x h })
    execute-Gives (grouping e) s = execute-Gives e s
    execute-Gives (binary l op r) s =
        continue-Gives NotSingle NotSingle _ _ (execute-Gives l s) λ x s₁ h.
          continue-Gives NotSingle NotSingle _ _ (execute-Gives r s₁)
            λ y s₂ k. record { ensures = solve_results-One (captured_op (capture op s₂)) x y h k }
    execute-Gives (create_tbl name columns) s = record { ensures = tt }
    execute-Gives (insert_into name values columns) s = record { ensures = tt }
    execute-Gives (select no_exprs name) s = record { ensures = λ e. cc }
    execute-Gives (select (exprs e no_exprs) name) s = execute-Gives e s
    execute-Gives (select (exprs e (exprs e' es)) name) s =
        continue-Gives NotSingle NotSingle _ _ (execute-Gives e s) λ x s₁ h.
          continue-Gives Any NotSingle (single x, s₁) _ (any (single x, s₁))
            λ v s₂ t.
              continue-Gives NotEmpty NotSingle _ _ (execute_all-Gives (exprs e' es) s₂)
                λ vs s₃ n. record { ensures = λ e. omega arith }

    execute_all-Gives :
        (es : Exprs) (s : Captured) → Gives (AsLong es) (execute_all machine read es s)
    execute_all-Gives no_exprs s = record { ensures = tt }
    execute_all-Gives (exprs e es) s =
        continue-Gives NotSingle NotEmpty _ _ (execute-Gives e s) λ x s₁ h.
          continue-Gives Any NotEmpty (single x, s₁) _ (any (single x, s₁))
            λ v s₂ t.
              continue-Gives Any NotEmpty _ _ (any (execute_all machine read es s₂))
                λ vs s₃ n. record { ensures = omega arith }

  -- What an execution returns is a value, or a vector of no or of several values. An operation on a
  -- vector of one value, which the code allows, may return one, but no execution meets one.
  pub execute-NotSingle : (e : Expr) (s : Captured) → Ensures (execute machine read e s).0 NotSingle
  execute-NotSingle e s = (execute-Gives e s).ensures
