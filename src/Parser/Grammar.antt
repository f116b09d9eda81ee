-- ===== src/Parser/Grammar.antt =====
-- The language that the parser accepts: which tokens spell an expression or a statement.
use hivedb.Base.{ℕ, ℤ, Bool, true, false, List, [], ◌∷◌, ◌++◌, ◌≡◌, ◌⊎◌, Outcome, ok}
use hivedb.Tokens.{TokenType, Token}
use hivedb.Syntax.{
  Value, float, int, text, TableColumn, Expr, Exprs, literal, unary, grouping, binary, create_tbl,
  insert_into, select, no_exprs, exprs,
}
use hivedb.Parser.Numbers.{stoi}

-- One of the types of a list.
abbrev pub OneOf : TokenType → List TokenType → Type 0
OneOf t [] = ⊥
OneOf t (u ∷ us) = (t ≡ u) ⊎ OneOf t us

abbrev pub Operator : TokenType → Type 0
Operator t = OneOf t (TokenType.add ∷ TokenType.substract ∷ TokenType.divide ∷ TokenType.star ∷ [])

abbrev pub Sign : TokenType → Type 0
Sign t = OneOf t (TokenType.substract ∷ TokenType.bang ∷ [])

-- `from` and a table's name, or nothing.
pub data From : List ℕ → List Token → Type 0 where
  nowhere : From [] []
  table :
      (f n : Token)
      → f.type ≡ TokenType.from
      → n.type ≡ TokenType.identifier
      → From n.literal (f ∷ n ∷ [])

module _ (stof : List ℕ → Outcome ℕ) where
  mutual
    -- Operands joined by operators, all of one rank, which group to the right.
    pub data Chain : Expr → List Token → Type 0 where
      operand : (e : Expr) (us : List Token) → Operand e us → Chain e us
      chain :
          (l r : Expr) (us vs : List Token) (t : Token)
          → Operand l us
          → Operator t.type
          → Chain r vs
          → Chain (binary l t.type r) (us ++ t ∷ vs)

    -- A primary expression behind any number of signs.
    pub data Operand : Expr → List Token → Type 0 where
      plain : (e : Expr) (us : List Token) → Primary e us → Operand e us
      signed :
          (e : Expr) (us : List Token) (t : Token)
          → Sign t.type
          → Operand e us
          → Operand (unary t.type e) (t ∷ us)

    pub data Primary : Expr → List Token → Type 0 where
      string :
          (t : Token)
          → t.type ≡ TokenType.string
          → Primary (literal (text t.literal) false) (t ∷ [])
      column :
          (t : Token)
          → t.type ≡ TokenType.identifier
          → Primary (literal (text t.literal) true) (t ∷ [])
      integer :
          (t : Token) (n : ℤ)
          → t.type ≡ TokenType.integer
          → stoi t.literal ≡ ok n
          → Primary (literal (int n) false) (t ∷ [])
      real :
          (t : Token) (x : ℕ)
          → t.type ≡ TokenType.real
          → stof t.literal ≡ ok x
          → Primary (literal (float x) false) (t ∷ [])
      group :
          (e : Expr) (us : List Token) (l r : Token)
          → l.type ≡ TokenType.parentheses_l
          → Inside e us
          → r.type ≡ TokenType.parentheses_r
          → Primary (grouping e) (l ∷ us ++ r ∷ [])
      bare_select :
          (e : Expr) (us : List Token) (s : Token)
          → s.type ≡ TokenType.select
          → Select e us
          → Primary (grouping e) (s ∷ us)

    -- What may stand in parentheses.
    pub data Inside : Expr → List Token → Type 0 where
      expression : (e : Expr) (us : List Token) → Chain e us → Inside e us
      subselect :
          (e : Expr) (us : List Token) (s : Token)
          → s.type ≡ TokenType.select
          → Select e us
          → Inside e (s ∷ us)

    -- Behind the word `select`: one expression, or some in parentheses, and a table or none.
    pub data Select : Expr → List Token → Type 0 where
      one :
          (e : Expr) (name : List ℕ) (us vs : List Token)
          → Chain e us
          → From name vs
          → Select (select (exprs e no_exprs) name) (us ++ vs)
      many :
          (e : Expr) (es : Exprs) (name : List ℕ) (us vs ws : List Token) (l r : Token)
          → l.type ≡ TokenType.parentheses_l
          → Chain e us
          → More es vs
          → r.type ≡ TokenType.parentheses_r
          → From name ws
          → Select (select (exprs e es) name) (l ∷ us ++ (vs ++ r ∷ ws))

    pub data More : Exprs → List Token → Type 0 where
      no_more : More no_exprs []
      more :
          (e : Expr) (es : Exprs) (us vs : List Token) (c : Token)
          → c.type ≡ TokenType.comma
          → Chain e us
          → More es vs
          → More (exprs e es) (c ∷ us ++ vs)

-- The lists in parentheses that `insert` and `create` read, up to `rest`: items with commas between them
-- and a parenthesis behind the last, or nothing but the end of the tokens in place of an item.
pub data Items {A : Type 0} (P : A → List Token → Type 0)
    : List A → List Token → List Token → Type 0 where
  cut_off : Items P [] [] []
  last :
      (a : A) (us rest : List Token) (r : Token)
      → P a us
      → r.type ≡ TokenType.parentheses_r
      → Items P (a ∷ []) (us ++ r ∷ []) rest
  next :
      (a : A) (more : List A) (us vs rest : List Token) (c : Token)
      → P a us
      → c.type ≡ TokenType.comma
      → Items P more vs rest
      → Items P (a ∷ more) (us ++ c ∷ vs) rest

pub data Name : List ℕ → List Token → Type 0 where
  name : (t : Token) → t.type ≡ TokenType.identifier → Name t.literal (t ∷ [])

-- A column that may hold null is one that is declared `not null`.
pub data NullClause : Bool → List Token → Type 0 where
  absent : NullClause false []
  not_null :
      (n u : Token)
      → n.type ≡ TokenType.not
      → u.type ≡ TokenType.null
      → NullClause true (n ∷ u ∷ [])

pub data Column : TableColumn → List Token → Type 0 where
  column :
      (n t : Token) (b : Bool) (us : List Token)
      → n.type ≡ TokenType.identifier
      → t.type ≡ TokenType.identifier
      → NullClause b us
      → Column (record { name = n.literal; type = t.literal; can_be_null = b }) (n ∷ t ∷ us)

module _ (stof : List ℕ → Outcome ℕ) where
  pub data Constant : Value → List Token → Type 0 where
    string : (t : Token) → t.type ≡ TokenType.string → Constant (text t.literal) (t ∷ [])
    integer :
        (t : Token) (n : ℤ)
        → t.type ≡ TokenType.integer
        → stoi t.literal ≡ ok n
        → Constant (int n) (t ∷ [])
    real :
        (t : Token) (x : ℕ)
        → t.type ≡ TokenType.real
        → stof t.literal ≡ ok x
        → Constant (float x) (t ∷ [])

  -- The tokens of a statement, and those that are left behind it.
  pub data Statement : Expr → List Token → List Token → Type 0 where
    select_stmt :
        (e : Expr) (us rest : List Token) (s : Token)
        → s.type ≡ TokenType.select
        → Select stof e us
        → Statement e (s ∷ us) rest
    create_stmt :
        (columns : List TableColumn) (us rest : List Token) (c t n l : Token)
        → c.type ≡ TokenType.create
        → t.type ≡ TokenType.table
        → n.type ≡ TokenType.identifier
        → l.type ≡ TokenType.parentheses_l
        → Items Column columns us rest
        → Statement (create_tbl n.literal columns) (c ∷ t ∷ n ∷ l ∷ us) rest
    insert_stmt :
        (columns : List (List ℕ)) (values : List Value) (us vs rest : List Token)
        (i o n l v m : Token)
        → i.type ≡ TokenType.insert
        → o.type ≡ TokenType.into
        → n.type ≡ TokenType.identifier
        → l.type ≡ TokenType.parentheses_l
        → Items Name columns us (v ∷ m ∷ vs ++ rest)
        → v.type ≡ TokenType.values
        → m.type ≡ TokenType.parentheses_l
        → Items Constant values vs rest
        → Statement (insert_into n.literal values columns) (i ∷ o ∷ n ∷ l ∷ us ++ (v ∷ m ∷ vs)) rest
