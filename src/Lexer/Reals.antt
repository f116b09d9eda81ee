-- ===== src/Lexer/Reals.antt =====
-- src/parser/lexer.cpp: addNumber tests for a point at the last digit it has read, so no token is a real.
use hivedb.Base.{
  same_text, ℕ, zero, suc, Bool, true, false, ◌&&◌, Option, none, some, List, [], ◌∷◌, ◌++◌, ltb,
  ◌==◌, if-cases, Outcome, ok, fails, ◌>>=◌, ◌≡◌, refl, ◌∙◌, subst, arith, lookup, Bool-cases, inl,
  inr, Every, Every-lookup, Ensures, Returns, ap, sym,
}
use hivedb.Tokens.{TokenType, Token}
use hivedb.Lexer.{
  Lexer, char_at, make, is_letter, is_digit, read, peek, read_while, rounds, lexeme, add_number,
  read_to_quote, parse_string, add_identifier, single_characters, is_blank, add_other, add_current,
  next_token, read_tokens, get_tokens, keyword_or_identifier, find_keyword, reserved_keywords,
}
use hivedb.Lexer.Progress.{InStep, Munches, Closes, rounds-Munches, parse_string-Closes}
use hivedb.Lexer.Termination.{Advances, next_token-Advances}

abbrev pub is_real : TokenType → Bool
is_real TokenType.real = true
is_real _ = false

abbrev pub NoReals : List Token → Type 0
NoReals [] = Unit {0}
NoReals (t ∷ ts) = (is_real t.type ≡ false) × NoReals ts

append-NoReals :
    (ts : List Token) (t : Token) → NoReals ts → is_real t.type ≡ false → NoReals (ts ++ t ∷ [])
append-NoReals [] t h e = (e, tt)
append-NoReals (u ∷ ts) t h e = (h.0, append-NoReals ts t h.1 e)

-- The current byte stays a digit while digits are read.
Munches-digit :
    (l r : Lexer)
    → InStep l
    → is_digit l.current ≡ true
    → Munches is_digit l r
    → is_digit r.current ≡ true
Munches-digit l r s d m = elim (Bool-cases (ltb l.position r.position)) [
  | inl e ↦
      ap is_digit (m.0.2.1 ∙ ap (λ input. char_at input r.position) m.0.0)
      ∙ m.1 r.position (ground arith) (omega arith)
  | inr e ↦
      let still : r.position ≡ l.position = ground (arith, m.0.1) in
      ap is_digit (
        m.0.2.1
        ∙ ap (λ input. char_at input r.position) m.0.0
        ∙ ap (char_at l.input) still
        ∙ sym s.1)
      ∙ d
]

digit_is_no_point : (c : ℕ) → is_digit c ≡ true → (c == b'.') ≡ false
digit_is_no_point c h = ground arith

no_point : (c d : ℕ) → (c == b'.') ≡ false → ((c == b'.' && is_digit d) ≡ true) → ⊥
no_point c d p e = ground arith

abbrev Kept : Outcome Lexer → Type 0
Kept (ok r) = NoReals r.tokens
Kept (fails e) = Unit {0}

and_then-Kept :
    (P : Lexer → Type 0) (o : Outcome Lexer) (f : Lexer → Outcome Lexer)
    → Returns o P
    → ((r : Lexer) → P r → Kept (f r))
    → Kept (o >>= f)
and_then-Kept P (ok r) f h k = k r h
and_then-Kept P (fails e) f h k = tt

add_number-Kept :
    (l : Lexer) → InStep l → is_digit l.current ≡ true → NoReals l.tokens → Kept (add_number l)
unfolding add_number
add_number-Kept l s d n =
    and_then-Kept (Munches is_digit l) (read_while (rounds l) is_digit l) _
      (rounds-Munches is_digit l refl s)
      (λ whole m.
        let point = digit_is_no_point whole.current (Munches-digit l whole s d m) in
        if-cases Kept (whole.current == b'.' && is_digit (peek whole))
          (λ e. absurd (no_point whole.current (peek whole) point e))
          (λ e. append-NoReals whole.tokens _ (subst NoReals (sym m.3) n) refl))

abbrev NoRealRows : List (List ℕ × TokenType) → Type 0
NoRealRows [] = Unit {0}
NoRealRows ((keyword, t) ∷ table) = (is_real t ≡ false) × NoRealRows table

find_keyword-NoReals :
    (text : List ℕ) (table : List (List ℕ × TokenType))
    → NoRealRows table
    → is_real (keyword_or_identifier (find_keyword text table)) ≡ false
find_keyword-NoReals text [] a = refl
find_keyword-NoReals text ((keyword, t) ∷ table) a =
    if-cases (λ found. is_real (keyword_or_identifier found) ≡ false) (same_text keyword text)
      (λ e. a.0) (λ e. find_keyword-NoReals text table a.1)

keywords-NoReals : NoRealRows reserved_keywords
keywords-NoReals = (refl, (refl, (refl, (refl, (refl, (refl, (refl, (refl, (refl, tt)))))))))

add_identifier-Kept : (l : Lexer) → InStep l → NoReals l.tokens → Kept (add_identifier l)
unfolding add_identifier
add_identifier-Kept l s n =
    and_then-Kept (Munches is_letter l) (read_while (rounds l) is_letter l) _
      (rounds-Munches is_letter l refl s)
      (λ word m.
        append-NoReals word.tokens _ (subst NoReals (sym m.3) n)
          (find_keyword-NoReals (lexeme l.position word) reserved_keywords keywords-NoReals))

read_tokens_kept : (l : Lexer) → (read l).tokens ≡ l.tokens
unfolding read
read_tokens_kept l = refl

parse_string-Kept : (l : Lexer) → InStep l → NoReals l.tokens → Kept (parse_string l)
unfolding parse_string
parse_string-Kept l s n =
    and_then-Kept (Closes (read l)) (read_to_quote (rounds (read l)) (read l)) _
      (parse_string-Closes l s)
      (λ closed c.
        let kept : (read closed).tokens ≡ l.tokens =
          read_tokens_kept closed ∙ c.2 ∙ read_tokens_kept l in
        append-NoReals (read closed).tokens _ (subst NoReals (sym kept) n) refl)

add_other-Kept : (l : Lexer) → InStep l → NoReals l.tokens → Kept (add_other l)
add_other-Kept l s n =
    if-cases Kept (l.current == b'"') (λ e. parse_string-Kept l s n)
      (λ e.
        if-cases Kept (is_blank l.current) (λ g. n)
          (λ g.
            if-cases Kept (is_letter l.current) (λ h. add_identifier-Kept l s n)
              (λ h. if-cases Kept (is_digit l.current) (λ d. add_number-Kept l s d n) (λ d. tt))))

single_characters-NoReals : Every (λ c t. is_real t ≡ false) single_characters
single_characters-NoReals =
    (refl, (refl, (refl, (refl, (refl, (refl, (refl, (refl, (refl, (refl, (refl, tt)))))))))))

add_current-Kept :
    (l : Lexer) (t : Option TokenType)
    → lookup l.current single_characters ≡ t
    → InStep l
    → NoReals l.tokens
    → Kept (add_current t l)
add_current-Kept l none h s n = add_other-Kept l s n
add_current-Kept l (some t) h s n = append-NoReals l.tokens _ n (
    Every-lookup (λ c u. is_real u ≡ false) l.current t single_characters single_characters-NoReals
      h)

then_read-Kept : (o : Outcome Lexer) → Kept o → Kept (o >>= λ added. ok (read added))
then_read-Kept (ok r) k = subst NoReals (sym (read_tokens_kept r)) k
then_read-Kept (fails e) k = tt

next_token-Kept : (l : Lexer) → InStep l → NoReals l.tokens → Kept (next_token l)
unfolding next_token
next_token-Kept l s n =
    then_read-Kept (add_current (lookup l.current single_characters) l)
      (add_current-Kept l (lookup l.current single_characters) refl s n)

bind-Kept :
    (l : Lexer) (f : Lexer → Outcome Lexer) (o : Outcome Lexer)
    → Advances l o
    → Kept o
    → ((r : Lexer) → InStep r → NoReals r.tokens → Kept (f r))
    → Kept (o >>= f)
bind-Kept l f (ok r) a k g = g r a.0.2 k
bind-Kept l f (fails e) a k g = tt

read_tokens-Kept : (fuel : ℕ) (l : Lexer) → InStep l → NoReals l.tokens → Kept (read_tokens fuel l)
unfolding read_tokens
read_tokens-Kept zero l s n = tt
read_tokens-Kept (suc fuel) l s n =
    if-cases Kept (l.current == 0) (λ e. n)
      (λ e.
        bind-Kept l (read_tokens fuel) (next_token l) (next_token-Advances l s)
          (next_token-Kept l s n) (read_tokens-Kept fuel))

done-Kept : (o : Outcome Lexer) → Kept o → Ensures (o >>= λ done. ok done.tokens) NoReals
done-Kept (ok r) k = k
done-Kept (fails e) k = tt

-- Whatever the input, no token of the result is a `real`.
pub get_tokens-NoReals : (input : List ℕ) → Ensures (make input >>= get_tokens) NoReals
unfolding make get_tokens
get_tokens-NoReals [] = tt
get_tokens-NoReals (c ∷ cs) =
    let start : Lexer = record {
      input = c ∷ cs;
      position = 0;
      next_position = 1;
      current = c;
      tokens = [];
    } in
    done-Kept (read_tokens (rounds start) start)
      (read_tokens-Kept (rounds start) start (refl, refl) tt)
