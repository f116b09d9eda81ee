-- ===== src/Tokens.antt =====
-- include/parser/tokens.hpp and src/parser/tokens.cpp: the tokens of a statement. A literal is its bytes.
use hivedb.Base.{ℕ, List, []}

-- `not` is `_not` in the source.
pub data TokenType : Type 0 where
  select from create table not null insert into values : TokenType
  parentheses_l parentheses_r : TokenType
  add substract star divide bang : TokenType
  quote comma dot : TokenType
  identifier string integer real : TokenType
  eof illegal : TokenType

pub record Token : Type 0 where
  pub type : TokenType
  pub literal : List ℕ

-- The constructor without a literal.
abbrev pub bare : TokenType → Token
bare t = record { type = t; literal = [] }
