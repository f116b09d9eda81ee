-- ===== src/Expressions.antt =====
-- include/parser/parser.hpp: `execute` and `retriveColumns` of the expressions.
-- The lambdas of `binary_expr::solveExprs` are static: they capture the `this` of the first binary
-- expression that the process executes, and every later one reads its operator through that pointer. The
-- captured pointer is the state here, and it outlives an exception.
pub mod Arithmetic
pub mod Meaning
pub mod Operators
pub mod Uniform
pub mod Gone
pub mod Vectors
pub mod Reads
mod Examples
use hivedb.Base.{
  ℕ, zero, suc, ◌-◌, Bool, true, false, List, [], ◌∷◌, ◌++◌, ◌==◌, not, ◌&&◌, if◌then◌else◌, ℤ,
  length, Outcome, ok, fails, and_then, invalid_argument, out_of_bounds,
}
use hivedb.Tokens.{TokenType}
use hivedb.Syntax.{
  Value, float, int, text, Expr, Exprs, literal, unary, grouping, binary, create_tbl, insert_into,
  select, no_exprs, exprs,
}
use Arithmetic.{Floats, negate, checked, int_operation, float_operation}

-- `std::variant<float, int, std::string_view, std::vector<values>>`.
pub data Result : Type 0 where
  one : Value → Result
  many : List Value → Result

-- The captured pointer: not set yet, to a living expression with this operator, or to one that is gone.
pub data Captured : Type 0 where
  unset : Captured
  holds : TokenType → Captured
  gone : Captured

abbrev pub Run : Type 0 → Type 0
Run A = Captured → Outcome A × Captured

abbrev pub continue : {A B : Type 0} → Outcome A × Captured → (A → Run B) → Outcome B × Captured
continue (ok a, s) f = f a s
continue (fails e, s) f = (fails e, s)

module _ {A B : Type 0} where
  infixl 5 ◌>>=◌
  abbrev pub ◌>>=◌ : Run A → (A → Run B) → Run B
  ◌>>=◌ p f s = continue (p s) f

abbrev pub lift : {A : Type 0} → Outcome A → Run A
lift o s = (o, s)

-- What the static initialisers do when `solveExprs` of an expression with this operator starts.
abbrev pub capture : TokenType → Captured → Captured
capture op unset = holds op
capture op (holds first) = holds first
capture op gone = gone

-- `op`, through the captured pointer.
abbrev pub captured_op : Captured → Outcome TokenType
captured_op unset = fails out_of_bounds
captured_op (holds op) = ok op
captured_op gone = fails out_of_bounds

module _ (machine : Floats) where
  -- `applyOperator` and `handleStrings` of `unary_expr::solveExprs`. It negates whatever its operator.
  unfoldable pub negate_value : Value → Outcome Value
  unfolding negate checked
  negate_value (float x) = ok (float (machine.negate x))
  negate_value (int z) = and_then (checked (negate z)) λ n. ok (int n)
  negate_value (text cs) = fails invalid_argument

  unfoldable pub solve_unary : Result → Outcome Result
  unfolding negate_value
  solve_unary (one v) = and_then (negate_value v) λ w. ok (one w)
  solve_unary (many []) = fails invalid_argument
  solve_unary (many (v ∷ [])) = and_then (negate_value v) λ w. ok (many (w ∷ []))
  solve_unary (many (v ∷ w ∷ vs)) = fails invalid_argument

  -- `std::visit` of `binary_expr::solveExprs` on two values. The right one is converted to the type of
  -- the left.
  unfoldable pub solve_values : Outcome TokenType → Value → Value → Outcome Value
  unfolding int_operation float_operation
  solve_values op (text l) r = fails invalid_argument
  solve_values op (float l) (text r) = fails invalid_argument
  solve_values op (float l) (float r) = and_then op λ o. ok (float (float_operation machine o l r))
  solve_values op (float l) (int r) =
      and_then op λ o. ok (float (float_operation machine o l (machine.of_int r)))
  solve_values op (int l) (text r) = fails invalid_argument
  solve_values op (int l) (int r) = and_then op λ o. and_then (int_operation o l r) λ z. ok (int z)
  solve_values op (int l) (float r) =
      and_then op
        λ o. and_then (machine.to_int r) λ n. and_then (int_operation o l n) λ z. ok (int z)

  -- `handleEitherVector1`, on a number and a vector.
  unfoldable pub solve_vector1 : Outcome TokenType → Value → List Value → Outcome Result
  unfolding solve_values
  solve_vector1 op l [] = fails invalid_argument
  solve_vector1 op l (r ∷ []) = and_then (solve_values op l r) λ v. ok (one v)
  solve_vector1 op l (r ∷ r' ∷ rs) = fails invalid_argument

  -- What `handleEitherVector2` computes with a copy of the vector's value. An int and a float are
  -- calculated with as floats.
  unfoldable pub solve_copy : Outcome TokenType → Value → Value → Outcome Value
  unfolding solve_values float_operation
  solve_copy op (int l) (float r) = and_then op λ o.
      and_then (machine.to_int (float_operation machine o (machine.of_int l) r)) λ z. ok (int z)
  solve_copy op l r = solve_values op l r

  -- `handleEitherVector2`, on a vector and a number: the vector stays as it is.
  unfoldable pub solve_vector2 : Outcome TokenType → List Value → Value → Outcome Result
  unfolding solve_copy
  solve_vector2 op [] r = fails invalid_argument
  solve_vector2 op (l ∷ []) r = and_then (solve_copy op l r) λ v. ok (many (l ∷ []))
  solve_vector2 op (l ∷ l' ∷ ls) r = fails invalid_argument

  -- `std::visit` on `l[0]` and `r[0]`, which are undefined on an empty vector.
  unfoldable pub solve_heads : Outcome TokenType → List Value → List Value → Outcome Result
  unfolding solve_values
  solve_heads op [] rs = fails out_of_bounds
  solve_heads op (l ∷ ls) [] = fails out_of_bounds
  solve_heads op (l ∷ ls) (r ∷ rs) = and_then (solve_values op l r) λ v. ok (many (v ∷ ls))

  -- `std::visit` of `binary_expr::solveExprs`. The static lambdas inside handleEitherVector1 and 2 keep a
  -- reference to the operand of their first call: the equations for a vector of one value are those of
  -- that call.
  unfoldable pub solve_results : Outcome TokenType → Result → Result → Outcome Result
  unfolding solve_values solve_vector1 solve_vector2 solve_heads
  solve_results op (one l) (one r) = and_then (solve_values op l r) λ v. ok (one v)
  solve_results op (one (text l)) (many rs) = fails invalid_argument
  solve_results op (one l) (many rs) = solve_vector1 op l rs
  solve_results op (many ls) (one (text r)) = fails invalid_argument
  solve_results op (many ls) (one r) = solve_vector2 op ls r
  solve_results op (many ls) (many rs) =
      if not (length ls == 1) && not (length rs == 1)
      then fails invalid_argument
      else solve_heads op ls rs

  unfoldable pub solve_binary : TokenType → Result → Result → Run Result
  unfolding solve_results
  solve_binary op l r s = (solve_results (captured_op (capture op s)) l r, capture op s)

-- What `select_expr::execute` appends for one of its expressions.
unfoldable pub single : Result → Outcome Value
single (one v) = ok v
single (many []) = fails invalid_argument
single (many (v ∷ [])) = ok v
single (many (v ∷ w ∷ vs)) = fails invalid_argument

-- `read` gives the value of a column: `execute()` gives its name, `execute(map, idx)` looks it up.
module _ (machine : Floats) (read : List ℕ → Outcome Value) where
  unfoldable pub literal_value : Value → Bool → Outcome Value
  literal_value (text name) true = read name
  literal_value v is_identifier = ok v

  unfoldable mutual
    unfolding literal_value solve_unary solve_binary single

    pub execute : Expr → Run Result
    execute (literal v is_identifier) =
        lift (and_then (literal_value v is_identifier) λ x. ok (one x))
    execute (unary op e) = execute e >>= λ v. lift (solve_unary machine v)
    execute (grouping e) = execute e
    execute (binary l op r) = execute l >>= λ x. execute r >>= λ y. solve_binary machine op x y
    execute (create_tbl name columns) = lift (fails invalid_argument)
    execute (insert_into name values columns) = lift (fails invalid_argument)
    execute (select no_exprs name) = lift (ok (many []))
    execute (select (exprs e no_exprs) name) = execute e
    execute (select (exprs e (exprs e' es)) name) = execute e >>= λ x.
        lift (single x) >>= λ v. execute_all (exprs e' es) >>= λ vs. lift (ok (many (v ∷ vs)))

    pub execute_all : Exprs → Run (List Value)
    execute_all no_exprs = lift (ok [])
    execute_all (exprs e es) =
        execute e >>= λ x. lift (single x) >>= λ v. execute_all es >>= λ vs. lift (ok (v ∷ vs))

-- `execute()`, in which a column is its name.
abbrev pub name_of_column : List ℕ → Outcome Value
name_of_column name = ok (text name)

unfoldable mutual
  -- `retriveColumns`, which appends to a vector.
  pub retrive_columns : Expr → Outcome (List (List ℕ))
  retrive_columns (literal (text name) true) = ok (name ∷ [])
  retrive_columns (literal v is_identifier) = ok []
  retrive_columns (unary op e) = retrive_columns e
  retrive_columns (grouping e) = retrive_columns e
  retrive_columns (binary l op r) =
      and_then (retrive_columns l) λ xs. and_then (retrive_columns r) λ ys. ok (xs ++ ys)
  retrive_columns (create_tbl name columns) = fails invalid_argument
  retrive_columns (insert_into name values columns) = fails invalid_argument
  retrive_columns (select es name) = retrive_all es

  -- `retriveColumnsToBeFetched`, and the loop of `select_expr::retriveColumns`.
  pub retrive_all : Exprs → Outcome (List (List ℕ))
  retrive_all no_exprs = ok []
  retrive_all (exprs e es) =
      and_then (retrive_columns e) λ xs. and_then (retrive_all es) λ ys. ok (xs ++ ys)
