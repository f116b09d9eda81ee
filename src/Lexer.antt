-- ===== src/Lexer.antt =====
-- include/parser/lexer.hpp and src/parser/lexer.cpp: the lexer.
-- The input is its bytes. `m_input[i]` is read at indices up to the length, where it is the terminating
-- zero. The loops take fuel, one round for each byte and the terminator, and fail where it runs out.
pub mod Progress
pub mod Termination
pub mod Reals
mod Examples
use hivedb.Base.{
  same_text, ℕ, zero, suc, ◌+◌, ◌-◌, Bool, true, false, ◌&&◌, ◌||◌, not, Option, none, some, List,
  [], ◌∷◌, ◌++◌, ltb, leb, ◌==◌, if◌then◌else◌, length, take, drop, Outcome, ok, fails, ◌>>=◌,
  lookup, invalid_argument, out_of_fuel,
}
use hivedb.Tokens
use hivedb.Tokens.{TokenType, Token, bare}

pub record Lexer : Type 0 where
  pub input : List ℕ
  pub position : ℕ
  pub next_position : ℕ
  pub current : ℕ
  pub tokens : List Token

-- `m_input[i]`.
abbrev pub char_at : List ℕ → ℕ → ℕ
char_at [] i = 0
char_at (c ∷ cs) zero = c
char_at (c ∷ cs) (suc i) = char_at cs i

-- A `string_view` into the input, which may take in the terminator.
abbrev pub slice : List ℕ → ℕ → ℕ → List ℕ
slice input start size = take size (drop start (input ++ 0 ∷ []))

unfoldable pub make : List ℕ → Outcome Lexer
make [] = fails invalid_argument
make (c ∷ cs) =
    ok (record { input = c ∷ cs; position = 0; next_position = 1; current = c; tokens = [] })

abbrev pub is_letter : ℕ → Bool
is_letter c = (leb b'A' c && leb c b'Z') || (leb b'a' c && leb c b'z')

abbrev pub is_digit : ℕ → Bool
is_digit c = leb b'0' c && leb c b'9'

abbrev pub is_at_end : Lexer → Bool
is_at_end l = ltb (length l.input) l.next_position

unfoldable pub read : Lexer → Lexer
read l = record l {
  current = if is_at_end l then 0 else char_at l.input l.next_position;
  position = l.next_position;
  next_position = l.next_position + 1;
}

unfoldable pub peek : Lexer → ℕ
peek l = if is_at_end l then 0 else char_at l.input l.next_position

abbrev pub add_token : TokenType → List ℕ → Lexer → Lexer
add_token t literal l = record l {
  tokens = l.tokens ++ record { type = t; literal = literal } ∷ [];
}

-- `while (test(peek())) read();`
unfoldable pub read_while : ℕ → (ℕ → Bool) → Lexer → Outcome Lexer
read_while zero test l = fails out_of_fuel
read_while (suc fuel) test l =
    let more = read_while fuel test (read l) in if test (peek l) then more else ok l

-- The fuel of such a loop.
abbrev pub rounds : Lexer → ℕ
rounds l = suc (length l.input)

-- The bytes from `start` to the current one.
abbrev pub lexeme : ℕ → Lexer → List ℕ
lexeme start l = slice l.input start (l.position - start + 1)

unfoldable pub add_number : Lexer → Outcome Lexer
add_number l = read_while (rounds l) is_digit l >>= λ whole.
    if whole.current == b'.' && is_digit (peek whole)
    then (read_while (rounds whole) is_digit whole >>= λ fraction.
        ok (add_token TokenType.real (lexeme l.position fraction) fraction))
    else ok (add_token TokenType.integer (lexeme l.position whole) whole)

-- `while (!isAtEnd() && peek() != '"') read();`
unfoldable pub read_to_quote : ℕ → Lexer → Outcome Lexer
read_to_quote zero l = fails out_of_fuel
read_to_quote (suc fuel) l =
    let more = read_to_quote fuel (read l) in
    if not (is_at_end l) && not (peek l == b'"') then more else ok l

unfoldable pub parse_string : Lexer → Outcome Lexer
parse_string l =
    let opened = read l in
    read_to_quote (rounds opened) opened >>= λ closed.
    ok (add_token TokenType.string (lexeme opened.position closed) (read closed))

-- The table `reservedKeywords`.
abbrev pub reserved_keywords : List (List ℕ × TokenType)
reserved_keywords =
    (b's' ∷ b'e' ∷ b'l' ∷ b'e' ∷ b'c' ∷ b't' ∷ [], TokenType.select)
    ∷ (b'f' ∷ b'r' ∷ b'o' ∷ b'm' ∷ [], TokenType.from)
    ∷ (b'c' ∷ b'r' ∷ b'e' ∷ b'a' ∷ b't' ∷ b'e' ∷ [], TokenType.create)
    ∷ (b't' ∷ b'a' ∷ b'b' ∷ b'l' ∷ b'e' ∷ [], TokenType.table)
    ∷ (b'n' ∷ b'o' ∷ b't' ∷ [], TokenType.not)
    ∷ (b'n' ∷ b'u' ∷ b'l' ∷ b'l' ∷ [], TokenType.null)
    ∷ (b'i' ∷ b'n' ∷ b's' ∷ b'e' ∷ b'r' ∷ b't' ∷ [], TokenType.insert)
    ∷ (b'i' ∷ b'n' ∷ b't' ∷ b'o' ∷ [], TokenType.into)
    ∷ (b'v' ∷ b'a' ∷ b'l' ∷ b'u' ∷ b'e' ∷ b's' ∷ [], TokenType.values)
    ∷ []

abbrev pub find_keyword : List ℕ → List (List ℕ × TokenType) → Option TokenType
find_keyword text [] = none
find_keyword text ((keyword, t) ∷ table) =
    if same_text keyword text then some t else find_keyword text table

abbrev pub keyword_or_identifier : Option TokenType → TokenType
keyword_or_identifier none = TokenType.identifier
keyword_or_identifier (some t) = t

unfoldable pub add_identifier : Lexer → Outcome Lexer
add_identifier l = read_while (rounds l) is_letter l >>= λ word.
    let text = lexeme l.position word in
    ok (add_token (keyword_or_identifier (find_keyword text reserved_keywords)) text word)

-- The tokens of one character, of the `switch`.
abbrev pub single_characters : List (ℕ × TokenType)
single_characters =
    (b'(', TokenType.parentheses_l)
    ∷ (b')', TokenType.parentheses_r)
    ∷ (b'+', TokenType.add)
    ∷ (b'-', TokenType.substract)
    ∷ (b'/', TokenType.divide)
    ∷ (b'*', TokenType.star)
    ∷ (b',', TokenType.comma)
    ∷ (b'.', TokenType.dot)
    ∷ (b'!', TokenType.bang)
    ∷ (0, TokenType.eof)
    ∷ (b';', TokenType.eof)
    ∷ []

abbrev pub is_blank : ℕ → Bool
is_blank c = c == b' ' || c == 10 || c == 13 || c == 9

-- The `default` of the `switch`.
abbrev pub add_word : Lexer → Outcome Lexer
add_word l =
    if is_letter l.current
    then add_identifier l
    else if is_digit l.current
    then add_number l
    else fails invalid_argument

-- The cases behind those of one character.
abbrev pub add_other : Lexer → Outcome Lexer
add_other l =
    if l.current == b'"' then parse_string l else if is_blank l.current then ok l else add_word l

abbrev pub add_current : Option TokenType → Lexer → Outcome Lexer
add_current (some t) l = ok (add_token t [] l)
add_current none l = add_other l

unfoldable pub next_token : Lexer → Outcome Lexer
next_token l = add_current (lookup l.current single_characters) l >>= λ added. ok (read added)

-- `while (m_current != 0) nextToken();`
unfoldable pub read_tokens : ℕ → Lexer → Outcome Lexer
read_tokens zero l = fails out_of_fuel
read_tokens (suc fuel) l = if l.current == 0 then ok l else next_token l >>= read_tokens fuel

unfoldable pub get_tokens : Lexer → Outcome (List Token)
get_tokens l = read_tokens (rounds l) l >>= λ done. ok done.tokens
