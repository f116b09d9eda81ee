-- ===== src/Expressions/Meaning.antt =====
-- What an expression means, with no state: each binary expression reads an operator that `pick` gives for
-- its own. With its own, that is what the code means to compute.
use hivedb.Base.{
  ℕ, List, [], ◌∷◌, ◌≡◌, Option, none, some, Outcome, ok, fails, and_then, invalid_argument,
}
use hivedb.Tokens.{TokenType}
use hivedb.Syntax.{
  Value, Expr, Exprs, literal, unary, grouping, binary, create_tbl, insert_into, select, no_exprs,
  exprs,
}
use hivedb.Expressions.{Result, one, many, literal_value, solve_unary, solve_results, single}
use hivedb.Expressions.Arithmetic.{Floats}

module _ (machine : Floats) (read : List ℕ → Outcome Value) (pick : TokenType → TokenType) where
  unfoldable mutual
    pub meaning : Expr → Outcome Result
    meaning (literal v is_identifier) =
        and_then (literal_value machine read v is_identifier) λ x. ok (one x)
    meaning (unary op e) = and_then (meaning e) (solve_unary machine)
    meaning (grouping e) = meaning e
    meaning (binary l op r) =
        and_then (meaning l) λ x. and_then (meaning r) λ y. solve_results machine (ok (pick op)) x y
    meaning (create_tbl name columns) = fails invalid_argument
    meaning (insert_into name values columns) = fails invalid_argument
    meaning (select no_exprs name) = ok (many [])
    meaning (select (exprs e no_exprs) name) = meaning e
    meaning (select (exprs e (exprs e' es)) name) =
        and_then (meaning e) λ x.
          and_then (single x) λ v. and_then (meaning_all (exprs e' es)) λ vs. ok (many (v ∷ vs))

    pub meaning_all : Exprs → Outcome (List Value)
    meaning_all no_exprs = ok []
    meaning_all (exprs e es) =
        and_then (meaning e)
          λ x. and_then (single x) λ v. and_then (meaning_all es) λ vs. ok (v ∷ vs)

-- The operator of the binary expression that is solved first.
abbrev pub or_later : Option TokenType → Option TokenType → Option TokenType
or_later none later = later
or_later (some op) later = some op

abbrev mutual
  pub first_op : Expr → Option TokenType
  first_op (literal v is_identifier) = none
  first_op (unary op e) = first_op e
  first_op (grouping e) = first_op e
  first_op (binary l op r) = or_later (or_later (first_op l) (first_op r)) (some op)
  first_op (create_tbl name columns) = none
  first_op (insert_into name values columns) = none
  first_op (select es name) = first_all es

  pub first_all : Exprs → Option TokenType
  first_all no_exprs = none
  first_all (exprs e es) = or_later (first_op e) (first_all es)

-- Every operator, except of statements, is this one.
abbrev mutual
  pub Uniform : TokenType → Expr → Type 0
  Uniform o (literal v is_identifier) = Unit {0}
  Uniform o (unary op e) = Uniform o e
  Uniform o (grouping e) = Uniform o e
  Uniform o (binary l op r) = Uniform o l × (op ≡ o) × Uniform o r
  Uniform o (create_tbl name columns) = Unit {0}
  Uniform o (insert_into name values columns) = Unit {0}
  Uniform o (select es name) = UniformAll o es

  pub UniformAll : TokenType → Exprs → Type 0
  UniformAll o no_exprs = Unit {0}
  UniformAll o (exprs e es) = Uniform o e × UniformAll o es
