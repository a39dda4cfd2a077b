-- ===== src/Expr/Lexer/Onward.antt =====
-- About the bytes that symbols, sigils and numbers leave (crates/expr/src/lex.rs).
use eieio.Base.{
  is_digit, ℕ, suc, ◌+◌, ◌-◌, ◌≤◌, ◌≡◌, refl, Bool, true, false, ◌||◌, Option, none, some, [], ◌∷◌,
  Bytes, ℤ, arith, length, length-drop, ◌==◌, if◌then◌else◌, if-splits, or-left, Result, ok, err,
  fits_i64,
}
use eieio.Expr.Syntax.{Span, Error, error, parse_error, span, float_not_finite, integer_outside_i64}
use eieio.Signal.Value.{int, float}
use eieio.Expr.Num.{is_finite}
use eieio.Expr.Tokens.{
  TokenKind, Cursor, cursor, is_symbol_start, is_symbol_char, is_whitespace, peeks, advance,
  skip_over, skip_while, skip_trivia, parse_error_at, literal_token, text_between,
}
use eieio.Expr.Literals.{
  lex_symbol, lex_sigil, lex_number, after_whole, after_fraction, after_exponent, after_number,
  has_fraction, has_exponent, sign_len, float_literal, int_literal, and_cursor, is_float_text,
  int_value,
}
use eieio.Expr.Lexer.{symbol_after_number}

abbrev pub left : Cursor → ℕ
left c = length c.rest

-- A result that leaves at most `n` bytes, or a parse error.
abbrev pub Onward {ℓ} : {A : Type ℓ} → ℕ → Result Error (A × Cursor) → Type 0
Onward n (ok (a, c)) = left c ≤ n
Onward n (err e) = e.code ≡ parse_error

skip_over-le : (p : ℕ → Bool) (bs : Bytes) (at : ℕ) → left (skip_over p bs at) ≤ length bs
unfolding skip_over
skip_over-le p [] at = omega arith
skip_over-le p (b ∷ r) at =
    if-splits (λ c. left c ≤ suc (length r)) (p b) (skip_over p r (suc at)) (cursor (b ∷ r) at)
      (λ h. omega (arith, skip_over-le p r (suc at))) (λ h. omega arith)

skip_over-lt :
    (p : ℕ → Bool) (b : ℕ) (r : Bytes) (at : ℕ)
    → p b ≡ true
    → left (skip_over p (b ∷ r) at) ≤ length r
unfolding skip_over
skip_over-lt p b r at h = rw h (skip_over-le p r (suc at))

pub skip_trivia-le :
    (comment : Bool) (bs : Bytes) (at : ℕ) → left (skip_trivia comment bs at) ≤ length bs
unfolding skip_trivia
skip_trivia-le comment [] at = omega arith
skip_trivia-le true (b ∷ r) at =
    if-splits (λ c. left c ≤ suc (length r)) (b == 10) (skip_trivia false r (suc at))
      (skip_trivia true r (suc at)) (λ h. omega (arith, skip_trivia-le false r (suc at)))
      (λ h. omega (arith, skip_trivia-le true r (suc at)))
skip_trivia-le false (b ∷ r) at =
    if-splits (λ c. left c ≤ suc (length r)) (is_whitespace b) (skip_trivia false r (suc at))
      (if b == 59 then skip_trivia true r (suc at) else cursor (b ∷ r) at)
      (λ h. omega (arith, skip_trivia-le false r (suc at)))
      (λ h.
        if-splits (λ c. left c ≤ suc (length r)) (b == 59) (skip_trivia true r (suc at))
          (cursor (b ∷ r) at) (λ h'. omega (arith, skip_trivia-le true r (suc at)))
          (λ h'. omega arith))

pub advance-le : (n : ℕ) (c : Cursor) → left (advance n c) ≤ left c - n
advance-le n c = omega (arith, length-drop n c.rest)

skip_while-le : (p : ℕ → Bool) (c : Cursor) → left (skip_while p c) ≤ left c
skip_while-le p c = skip_over-le p c.rest c.at

after_fraction-le : (c : Cursor) → left (after_fraction c) ≤ left c
after_fraction-le c =
    if-splits (λ d. left d ≤ left c) (has_fraction c) (skip_while is_digit (advance 1 c)) c
      (λ h. omega (arith, skip_while-le is_digit (advance 1 c), advance-le 1 c)) (λ h. omega arith)

after_exponent-le : (c : Cursor) → left (after_exponent c) ≤ left c
after_exponent-le c =
    if-splits (λ d. left d ≤ left c) (has_exponent c) (skip_while is_digit (advance (sign_len c) c))
      c
      (λ h.
        omega (arith, skip_while-le is_digit (advance (sign_len c) c), advance-le (sign_len c) c))
      (λ h. omega arith)

-- A number takes its sign or its first digit.
after_whole-lt :
    (b : ℕ) (r : Bytes) (at : ℕ)
    → (is_digit b || b == 45) ≡ true
    → left (after_whole (cursor (b ∷ r) at)) ≤ length r
after_whole-lt b r at h =
    if-splits (λ c. left (skip_while is_digit c) ≤ length r) (b == 45) (cursor r (at + 1))
      (cursor (b ∷ r) at) (λ h'. skip_over-le is_digit r (at + 1))
      (λ h'. skip_over-lt is_digit b r at (or-left (is_digit b) (b == 45) h h'))

after_number-lt :
    (b : ℕ) (r : Bytes) (at : ℕ)
    → (is_digit b || b == 45) ≡ true
    → left (after_number (cursor (b ∷ r) at)) ≤ length r
after_number-lt b r at h = omega (
  arith,
  after_whole-lt b r at h,
  after_fraction-le (after_whole (cursor (b ∷ r) at)),
  after_exponent-le (after_fraction (after_whole (cursor (b ∷ r) at))),
)

-- Results that only say what the token is.
abbrev Labelled : Result Error TokenKind → Type 0
Labelled (ok k) = Unit
Labelled (err e) = e.code ≡ parse_error

float_literal-Labelled : (at : Span) (o : Option ℕ) → Labelled (float_literal at o)
float_literal-Labelled at none = refl
float_literal-Labelled at (some f) =
    if-splits Labelled (is_finite f) (ok (literal_token (float f)))
      (err (error parse_error at float_not_finite)) (λ h. tt) (λ h. refl)

int_literal-Labelled : (at : Span) (n : ℤ) → Labelled (int_literal at n)
int_literal-Labelled at n =
    if-splits Labelled (fits_i64 n) (ok (literal_token (int n)))
      (err (error parse_error at integer_outside_i64)) (λ h. tt) (λ h. refl)

and_cursor-Onward :
    (n : ℕ) (c : Cursor) (r : Result Error TokenKind)
    → left c ≤ n
    → Labelled r
    → Onward n (and_cursor c r)
and_cursor-Onward n c (ok k) h hr = h
and_cursor-Onward n c (err e) h hr = hr

pub lex_number-Onward :
    (read_f64 : Bytes → Option ℕ) (b : ℕ) (r : Bytes) (at : ℕ)
    → (is_digit b || b == 45) ≡ true
    → Onward (length r) (lex_number read_f64 (cursor (b ∷ r) at))
unfolding lex_number
lex_number-Onward read_f64 b r at h =
    let c = cursor (b ∷ r) at in
    let c' = after_number c in
    if-splits (Onward (length r)) (peeks is_symbol_char c' 0)
      (err (parse_error_at at (skip_while is_symbol_char c').at symbol_after_number))
      (and_cursor c' (
        if is_float_text c
        then float_literal (span at c'.at) (read_f64 (text_between c c'))
        else int_literal (span at c'.at) (int_value (text_between c c'))))
      (λ h'. refl)
      (λ h'.
        and_cursor-Onward (length r) c'
          (if is_float_text c
            then float_literal (span at c'.at) (read_f64 (text_between c c'))
            else int_literal (span at c'.at) (int_value (text_between c c')))
          (after_number-lt b r at h)
          (if-splits Labelled (is_float_text c)
            (float_literal (span at c'.at) (read_f64 (text_between c c')))
            (int_literal (span at c'.at) (int_value (text_between c c')))
            (λ _. float_literal-Labelled (span at c'.at) (read_f64 (text_between c c')))
            (λ _. int_literal-Labelled (span at c'.at) (int_value (text_between c c')))))

pub lex_symbol-lt :
    (b : ℕ) (r : Bytes) (at : ℕ)
    → is_symbol_start b ≡ true
    → left (lex_symbol (cursor (b ∷ r) at)).1 ≤ length r
unfolding lex_symbol
lex_symbol-lt b r at h = skip_over-lt is_symbol_char b r at (rw h refl)

pub lex_sigil-lt : (b : ℕ) (r : Bytes) (at : ℕ) → left (lex_sigil (cursor (b ∷ r) at)).1 ≤ length r
unfolding lex_sigil
lex_sigil-lt b r at = skip_over-le is_symbol_char r (at + 1)
