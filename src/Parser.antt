-- ===== src/Parser.antt =====
-- include/parser/parser.hpp and src/parser/parser.cpp: the recursive descent parser.
-- The parser's state is what of `m_tokens` stands at the cursor and behind it; `match` and `consume`
-- give the token that they took, which the source reads back by `previous()`. std::stof is a parameter.
-- Each call of the descent and each round of a loop costs a unit of fuel.
-- primaryExpr gives std::stoi and std::stof the statement from the literal on, without an end; the lexer
-- ends an integer where its digits end, and here the text ends with the token.
pub mod Numbers
pub mod Descent
pub mod Statements
pub mod Grammar
pub mod Took
pub mod Steps
pub mod Sound
pub mod Lists
pub mod Whole
pub mod Truncated
pub mod Spelled
pub mod Complete
mod Examples
use hivedb.Base.{
  ℕ, Bool, true, false, Option, none, some, List, [], ◌∷◌, ◌==◌, if◌then◌else◌, Outcome, ok, fails,
  invalid_argument, out_of_bounds, and_then,
}
use mathlib.Core.HLevel.{Discrete}
use hivedb.Tokens.{TokenType, Token}

pub TokenType-discrete : Discrete TokenType
TokenType-discrete = hlevel

abbrev pub Parser : Type 0 → Type 0
Parser A = List Token → Outcome (A × List Token)

module _ {A B : Type 0} where
  infixl 5 ◌>>=◌ ◌>>◌
  abbrev pub ◌>>=◌ : Parser A → (A → Parser B) → Parser B
  ◌>>=◌ p f ts = and_then (p ts) λ (a, rest). f a rest

  abbrev pub ◌>>◌ : Parser A → Parser B → Parser B
  p >> q = p >>= λ _. q

abbrev pub pure : {A : Type 0} → A → Parser A
pure a ts = ok (a, ts)

-- `std::stoi` and `std::stof` neither read nor move the tokens.
abbrev pub lift : {A : Type 0} → Outcome A → Parser A
lift o ts = and_then o λ a. ok (a, ts)

abbrev pub is_done : List Token → Bool
is_done [] = true
is_done (t ∷ ts) = false

-- `match` of one type: the token that it advances over, if there is one.
unfoldable pub match_one : TokenType → List Token → Option (Token × List Token)
match_one type [] = none
match_one type (t ∷ ts) = elim (TokenType-discrete t.type type) [
  | yes same ↦ some (t, ts)
  | no other ↦ none
]

unfoldable pub match_any : List TokenType → List Token → Option (Token × List Token)
match_any [] ts = none
match_any (type ∷ types) ts = elim (match_one type ts) [
  | some x ↦ some x
  | none ↦ match_any types ts
]

unfoldable pub consume : TokenType → Parser Token
consume type ts = elim (match_one type ts) [ some x ↦ ok x | none ↦ fails invalid_argument ]

-- The exception whose message holds `current().name()`: behind the last token that reads outside.
unfoldable pub invalid_token : {A : Type 0} → Parser A
invalid_token [] = fails out_of_bounds
invalid_token (t ∷ ts) = fails invalid_argument
