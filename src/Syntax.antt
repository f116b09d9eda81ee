-- ===== src/Syntax.antt =====
-- include/parser/parser.hpp: the expressions and statements as data, a constructor for each class that
-- derives from `exprs`. A `literal_expr<T>` is one of three, by its T. `whereExpr` is never set, and is
-- left out.
use hivedb.Base.{ℕ, Bool, List, ℤ}
use hivedb.Tokens.{TokenType}

-- `std::variant<float, int, std::string_view>`, also in the order that `insert_expr` gives it. A float
-- is its 32-bit pattern.
pub data Value : Type 0 where
  float : ℕ → Value
  int : ℤ → Value
  text : List ℕ → Value

pub record TableColumn : Type 0 where
  pub name : List ℕ
  pub type : List ℕ
  pub can_be_null : Bool

mutual
  pub data Expr : Type 0 where
    literal : Value → Bool → Expr
    unary : TokenType → Expr → Expr
    grouping : Expr → Expr
    binary : Expr → TokenType → Expr → Expr
    create_tbl : List ℕ → List TableColumn → Expr
    insert_into : List ℕ → List Value → List (List ℕ) → Expr
    select : Exprs → List ℕ → Expr

  pub data Exprs : Type 0 where
    no_exprs : Exprs
    exprs : Expr → Exprs → Exprs
