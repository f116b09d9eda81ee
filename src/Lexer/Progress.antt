-- ===== src/Lexer/Progress.antt =====
-- include/parser/lexer.hpp and src/parser/lexer.cpp: where the lexer stands, and where its loops stop.
use hivedb.Base.{
  not, ◌&&◌, ℕ, zero, suc, ◌+◌, ◌≤◌, ◌<◌, Bool, true, false, List, [], ◌∷◌, ◌==◌, length, ◌≡◌, refl,
  ◌∙◌, arith, Bool-cases, if-cases, inl, inr, ap, sym, ltb, Outcome, Returns, Returns-mono,
  Returns-bind,
}
use hivedb.Lexer.{
  is_at_end, Lexer, char_at, is_letter, is_digit, read, peek, read_while, rounds, add_number,
  read_to_quote, parse_string, add_identifier,
}

-- The current byte is the one at the position, and the next position follows it.
abbrev pub InStep : Lexer → Type 0
InStep l = (l.next_position ≡ suc l.position) × (l.current ≡ char_at l.input l.position)

-- `r` reads the same input and stands at `l` or behind it.
abbrev pub Follows : Lexer → Lexer → Type 0
Follows l r = (r.input ≡ l.input) × (l.position ≤ r.position) × InStep r

pub char_at_outside : (cs : List ℕ) (i : ℕ) → length cs ≤ i → char_at cs i ≡ 0
char_at_outside [] i h = refl
char_at_outside (c ∷ cs) zero h = absurd (omega arith)
char_at_outside (c ∷ cs) (suc i) h = char_at_outside cs i (omega arith)

peek_lem : (l : Lexer) → peek l ≡ char_at l.input l.next_position
unfolding peek
peek_lem l = ground (arith, char_at_outside l.input l.next_position)

pub read-current : (l : Lexer) → (read l).current ≡ char_at l.input l.next_position
unfolding read
read-current l = ground (arith, char_at_outside l.input l.next_position)

pub read-Follows : (l : Lexer) → InStep l → Follows l (read l)
unfolding read
read-Follows l s = (refl, omega (arith, s.0), (omega arith, read-current l))

pub Follows-trans : (l m r : Lexer) → Follows l m → Follows m r → Follows l r
Follows-trans l m r f g = (g.0 ∙ f.0, omega (arith, f.1, g.1), g.2)

-- Every byte behind `l`, up to the one where `r` stands, passes the test.
abbrev pub AllBetween : (ℕ → Bool) → Lexer → Lexer → Type 0
AllBetween test l r = (i : ℕ) → l.position < i → i ≤ r.position → test (char_at l.input i) ≡ true

-- The loop of a number or word takes every byte that passes the test, and stops at one that does not.
abbrev pub Munches : (ℕ → Bool) → Lexer → Lexer → Type 0
Munches test l r =
    Follows l r × AllBetween test l r × (test (peek r) ≡ false) × (r.tokens ≡ l.tokens)

still-Munches : (test : ℕ → Bool) (l : Lexer) → InStep l → test (peek l) ≡ false → Munches test l l
still-Munches test l s h = ((refl, omega arith, s), λ i a b. absurd (omega arith), h, refl)

read_position : (l : Lexer) → (read l).position ≡ l.next_position
unfolding read
read_position l = refl

read_input : (l : Lexer) → (read l).input ≡ l.input
unfolding read
read_input l = refl

read-tokens : (l : Lexer) → (read l).tokens ≡ l.tokens
unfolding read
read-tokens l = refl

next-AllBetween :
    (test : ℕ → Bool) (l r : Lexer)
    → InStep l
    → test (char_at l.input l.next_position) ≡ true
    → AllBetween test (read l) r
    → AllBetween test l r
unfolding read
next-AllBetween test l r s h m i a b = elim (Bool-cases (l.next_position == i)) [
  | inl e ↦ ground (arith, h)
  | inr e ↦ m i (ground (arith, s.0)) b
]

next-Munches :
    (test : ℕ → Bool) (l r : Lexer)
    → InStep l
    → test (peek l) ≡ true
    → Munches test (read l) r
    → Munches test l r
next-Munches test l r s h m = (
  Follows-trans l (read l) r (read-Follows l s) m.0,
  next-AllBetween test l r s (sym (ap test (peek_lem l)) ∙ h) m.1,
  m.2,
  m.3 ∙ read-tokens l,
)

-- What passes a test that the terminator does not pass is inside the input.
passes_inside :
    (test : ℕ → Bool) (l : Lexer)
    → test 0 ≡ false
    → test (peek l) ≡ true
    → l.next_position ≤ length l.input
unfolding peek
passes_inside test l z e = elim (Bool-cases (ltb (length l.input) l.next_position)) [
  | inl past ↦ let p : peek l ≡ 0 = rw past refl in absurd (cc (z, e, ap test p))
  | inr inside ↦ ground arith
]

-- With fuel for the rest of the input, the loop of numbers and words returns, and takes exactly the
-- bytes that pass the test, when the terminator does not pass it.
pub read_while-Munches :
    (fuel : ℕ) (test : ℕ → Bool) (l : Lexer)
    → test 0 ≡ false
    → InStep l
    → 0 < fuel
    → length l.input + 1 < fuel + l.next_position
    → Returns (read_while fuel test l) (Munches test l)
unfolding read_while read
read_while-Munches zero test l z s p f = absurd (omega arith)
read_while-Munches (suc fuel) test l z s p f =
    if-cases (λ (o : Outcome Lexer). Returns o (Munches test l)) (test (peek l))
      (λ e.
        let inside = passes_inside test l z e in
        Returns-mono _ _ (read_while fuel test (read l)) (λ r. next-Munches test l r s e)
          (read_while-Munches fuel test (read l) z (read-Follows l s).2 (omega arith)
            (omega (arith, f))))
      (still-Munches test l s)

-- The loops of add_identifier and add_number.
pub rounds-Munches :
    (test : ℕ → Bool) (l : Lexer)
    → test 0 ≡ false
    → InStep l
    → Returns (read_while (rounds l) test l) (Munches test l)
rounds-Munches test l z s =
    read_while-Munches (rounds l) test l z s (omega arith) (omega (arith, s.0))

pub add_identifier-Follows : (l : Lexer) → InStep l → Returns (add_identifier l) (Follows l)
unfolding add_identifier
add_identifier-Follows l s =
    Returns-bind (Munches is_letter l) _ (read_while (rounds l) is_letter l) _
      (rounds-Munches is_letter l refl s) (λ word m. m.0)

pub add_number-Follows : (l : Lexer) → InStep l → Returns (add_number l) (Follows l)
unfolding add_number
add_number-Follows l s =
    Returns-bind (Munches is_digit l) _ (read_while (rounds l) is_digit l) _
      (rounds-Munches is_digit l refl s)
      (λ whole m.
        if-cases (λ (o : Outcome Lexer). Returns o (Follows l))
          (whole.current == b'.' && is_digit (peek whole))
          (λ e.
            Returns-bind (Munches is_digit whole) _ (read_while (rounds whole) is_digit whole) _
              (rounds-Munches is_digit whole refl m.0.2)
              (λ fraction n. Follows-trans l whole fraction m.0 n.0))
          (λ e. m.0))

-- `r` follows `l` and stands before a quote or at the end of the input.
abbrev pub Closes : Lexer → Lexer → Type 0
Closes l r =
    Follows l r × ((not (is_at_end r) && not (peek r == b'"')) ≡ false) × (r.tokens ≡ l.tokens)

-- With fuel for the rest of the input, the loop over a quoted text returns, before a quote or at the end
-- of the input.
pub read_to_quote-Closes :
    (fuel : ℕ) (l : Lexer)
    → InStep l
    → 0 < fuel
    → length l.input + 1 < fuel + l.next_position
    → Returns (read_to_quote fuel l) (Closes l)
unfolding read_to_quote read
read_to_quote-Closes zero l s p f = absurd (omega arith)
read_to_quote-Closes (suc fuel) l s p f =
    if-cases (λ (o : Outcome Lexer). Returns o (Closes l))
      (not (is_at_end l) && not (peek l == b'"'))
      (λ e.
        let step = read-Follows l s in
        let inside : l.next_position ≤ length l.input = ground arith in
        Returns-mono _ _ (read_to_quote fuel (read l))
          (λ r c. (Follows-trans l (read l) r step c.0, c.1, c.2 ∙ read-tokens l))
          (read_to_quote-Closes fuel (read l) step.2 (omega arith) (omega (arith, f))))
      (λ e. ((refl, omega arith, s), e, refl))

pub parse_string-Closes :
    (l : Lexer) → InStep l → Returns (read_to_quote (rounds (read l)) (read l)) (Closes (read l))
parse_string-Closes l s =
    let opened = read-Follows l s in
    read_to_quote-Closes (rounds (read l)) (read l) opened.2 (omega arith)
      (omega (arith, opened.2.0))

pub parse_string-Follows : (l : Lexer) → InStep l → Returns (parse_string l) (Follows l)
unfolding parse_string
parse_string-Follows l s =
    Returns-bind (Closes (read l)) _ (read_to_quote (rounds (read l)) (read l)) _
      (parse_string-Closes l s)
      (λ closed c.
        let all = Follows-trans l (read l) closed (read-Follows l s) c.0 in
        Follows-trans l closed (read closed) all (read-Follows closed all.2))
