-- ===== src/Lexer/Termination.antt =====
-- src/parser/lexer.cpp: nextToken and getTokens end, on every input.
use hivedb.Base.{
  ℕ, zero, suc, ◌+◌, ◌<◌, false, Option, none, some, List, [], ◌∷◌, ◌==◌, length, Outcome, ok,
  fails, ◌>>=◌, ◌≡◌, refl, subst, ◌∙◌, arith, lookup, invalid_argument, if-cases, Returns, ap, sym,
}
use hivedb.Tokens.{TokenType, Token}
use hivedb.Lexer.{
  Lexer, char_at, make, is_letter, is_digit, read, rounds, single_characters, is_blank, add_word,
  add_other, add_current, next_token, read_tokens, get_tokens,
}
use hivedb.Lexer.Progress.{
  InStep, Follows, Follows-trans, read-Follows, char_at_outside, add_identifier-Follows,
  add_number-Follows, parse_string-Follows,
}

-- A case of the switch either stays in step or throws invalid_argument.
abbrev pub Steps : Lexer → Outcome Lexer → Type 0
Steps l (ok r) = Follows l r
Steps l (fails e) = e ≡ invalid_argument

Returns-Steps : (l : Lexer) (o : Outcome Lexer) → Returns o (Follows l) → Steps l o
Returns-Steps l (ok r) f = f
Returns-Steps l (fails e) f = absurd f

add_word-Steps : (l : Lexer) → InStep l → Steps l (add_word l)
add_word-Steps l s =
    if-cases (Steps l) (is_letter l.current) (λ e. Returns-Steps l _ (add_identifier-Follows l s))
      (λ e.
        if-cases (Steps l) (is_digit l.current) (λ g. Returns-Steps l _ (add_number-Follows l s))
          (λ g. refl))

add_other-Steps : (l : Lexer) → InStep l → Steps l (add_other l)
add_other-Steps l s =
    if-cases (Steps l) (l.current == b'"') (λ e. Returns-Steps l _ (parse_string-Follows l s))
      (λ e.
        if-cases (Steps l) (is_blank l.current) (λ g. (refl, omega arith, s))
          (λ g. add_word-Steps l s))

add_current-Steps : (t : Option TokenType) (l : Lexer) → InStep l → Steps l (add_current t l)
add_current-Steps none l s = add_other-Steps l s
add_current-Steps (some t) l s = (refl, omega arith, s)

-- One round moves the position on, or throws invalid_argument.
abbrev pub Advances : Lexer → Outcome Lexer → Type 0
Advances l (ok r) = Follows l r × (l.position < r.position)
Advances l (fails e) = e ≡ invalid_argument

then_read-Advances :
    (l : Lexer) (o : Outcome Lexer) → Steps l o → Advances l (o >>= λ added. ok (read added))
unfolding read
then_read-Advances l (ok r) f =
    let step = read-Follows r f.2 in (Follows-trans l r (read r) f step, omega (arith, f.1, f.2.0))
then_read-Advances l (fails e) f = f

pub next_token-Advances : (l : Lexer) → InStep l → Advances l (next_token l)
unfolding next_token
next_token-Advances l s =
    then_read-Advances l (add_current (lookup l.current single_characters) l)
      (add_current-Steps (lookup l.current single_characters) l s)

-- A run of the lexer ends at a terminator or throws invalid_argument.
abbrev pub Ends : List ℕ → Outcome Lexer → Type 0
Ends input (ok r) = (r.input ≡ input) × (char_at input r.position ≡ 0)
Ends input (fails e) = e ≡ invalid_argument

bind-Ends :
    (l : Lexer) (f : Lexer → Outcome Lexer) (o : Outcome Lexer)
    → Advances l o
    → ((r : Lexer) → Follows l r → l.position < r.position → Ends l.input (f r))
    → Ends l.input (o >>= f)
bind-Ends l f (ok r) a k = k r a.0 a.1
bind-Ends l f (fails e) a k = a

current_inside : (l : Lexer) → InStep l → (l.current == 0) ≡ false → l.position < length l.input
current_inside l s e = ground (arith, s.1, char_at_outside l.input l.position)

next-Ends :
    (fuel : ℕ) (l r : Lexer)
    → Follows l r
    → Ends r.input (read_tokens fuel r)
    → Ends l.input (read_tokens fuel r)
next-Ends fuel l r g e = subst (λ input. Ends input (read_tokens fuel r)) g.0 e

pub read_tokens-Ends :
    (fuel : ℕ) (l : Lexer)
    → InStep l
    → 0 < fuel
    → length l.input < fuel + l.position
    → Ends l.input (read_tokens fuel l)
unfolding read_tokens
read_tokens-Ends zero l s z f = absurd (omega arith)
read_tokens-Ends (suc fuel) l s z f =
    if-cases (Ends l.input) (l.current == 0) (λ e. (refl, sym s.1 ∙ ground arith))
      (λ e. bind-Ends l (read_tokens fuel) (next_token l) (next_token-Advances l s) (λ r g h.
        let inside = current_inside l s e in
        let same : length r.input ≡ length l.input = ap length g.0 in
        next-Ends fuel l r g (read_tokens-Ends fuel r g.2 (omega arith) (omega arith))))

abbrev pub Finishes : Outcome (List Token) → Type 0
Finishes (ok ts) = Unit {0}
Finishes (fails e) = e ≡ invalid_argument

done-Finishes :
    (input : List ℕ) (o : Outcome Lexer) → Ends input o → Finishes (o >>= λ done. ok done.tokens)
done-Finishes input (ok r) e = tt
done-Finishes input (fails e) h = h

-- The lexer ends on every input: it gives its tokens or throws invalid_argument. Neither its loop over
-- the tokens nor one of those over letters, digits and quoted text runs out of fuel.
pub get_tokens-Finishes : (input : List ℕ) → Finishes (make input >>= get_tokens)
unfolding make get_tokens
get_tokens-Finishes [] = refl
get_tokens-Finishes (c ∷ cs) =
    let start : Lexer = record {
      input = c ∷ cs;
      position = 0;
      next_position = 1;
      current = c;
      tokens = [];
    } in
    done-Finishes (c ∷ cs) (read_tokens (rounds start) start)
      (read_tokens-Ends (rounds start) start (refl, refl) (omega arith) (omega arith))
