-- ===== src/Expr/Literals.antt =====
-- Symbols, sigils and numbers of the lexer (crates/expr/src/lex.rs).
use eieio.Base.{
  is_digit, ℕ, ◌+◌, ◌-◌, ◌*◌, Bool, true, false, ◌&&◌, ◌||◌, Option, none, some, [], ◌∷◌, Bytes,
  codes, text_eq, ℤ, pos, sub_ℕ, fits_i64, ◌==◌, if◌then◌else◌, Result, ok, err,
}
use eieio.Signal.Value.{null, bool, int, float}
use eieio.Expr.Syntax.{
  Span, Error, error, span, parse_error, symbol_after_number, malformed_float, float_not_finite,
  integer_outside_i64,
}
use eieio.Expr.Num.{is_finite}
use eieio.Expr.Tokens.{
  Cursor, TokenKind, advance, attr_token, is_symbol_char, literal_token, parse_error_at, peeks,
  signal_token, skip_while, symbol_token, text_between,
}

unfoldable pub symbol_or_literal : Bytes → TokenKind
symbol_or_literal text =
    if text_eq text (codes "true")
    then literal_token (bool true)
    else if text_eq text (codes "false")
    then literal_token (bool false)
    else if text_eq text (codes "null")
    then literal_token null
    else symbol_token text

unfoldable pub lex_symbol : Cursor → TokenKind × Cursor
lex_symbol c =
    (symbol_or_literal (text_between c (skip_while is_symbol_char c)), skip_while is_symbol_char c)

unfoldable pub lex_sigil : Cursor → TokenKind × Cursor
lex_sigil c =
    let c' = skip_while is_symbol_char (advance 1 c) in
    (if c'.at == c.at + 1 then signal_token else attr_token (text_between (advance 1 c) c'), c')

-- Past the sign, if there is one, and the digits.
abbrev pub after_whole : Cursor → Cursor
after_whole c = skip_while is_digit (if peeks (λ b. b == 45) c 0 then advance 1 c else c)

abbrev pub has_fraction : Cursor → Bool
has_fraction c = peeks (λ b. b == 46) c 0 && peeks is_digit c 1

abbrev pub after_fraction : Cursor → Cursor
after_fraction c = if has_fraction c then skip_while is_digit (advance 1 c) else c

abbrev pub sign_len : Cursor → ℕ
sign_len c = if peeks (λ b. b == 43 || b == 45) c 1 then 2 else 1

abbrev pub has_exponent : Cursor → Bool
has_exponent c = peeks (λ b. b == 101 || b == 69) c 0 && peeks is_digit c (sign_len c)

abbrev pub after_exponent : Cursor → Cursor
after_exponent c = if has_exponent c then skip_while is_digit (advance (sign_len c) c) else c

abbrev pub after_number : Cursor → Cursor
after_number c = after_exponent (after_fraction (after_whole c))

abbrev pub is_float_text : Cursor → Bool
is_float_text c = has_fraction (after_whole c) || has_exponent (after_fraction (after_whole c))

abbrev pub digits_value : ℕ → Bytes → ℕ
digits_value n [] = n
digits_value n (b ∷ r) = digits_value (n * 10 + (b - 48)) r

-- `text.parse::<i64>()` on a sign and digits.
abbrev pub int_value : Bytes → ℤ
int_value [] = pos 0
int_value (b ∷ r) = if b == 45 then sub_ℕ 0 (digits_value 0 r) else pos (digits_value 0 (b ∷ r))

abbrev pub float_literal : Span → Option ℕ → Result Error TokenKind
float_literal at none = err (error parse_error at malformed_float)
float_literal at (some f) =
    if is_finite f
    then ok (literal_token (float f))
    else err (error parse_error at float_not_finite)

abbrev pub int_literal : Span → ℤ → Result Error TokenKind
int_literal at n =
    if fits_i64 n
    then ok (literal_token (int n))
    else err (error parse_error at integer_outside_i64)

abbrev pub and_cursor : Cursor → Result Error TokenKind → Result Error (TokenKind × Cursor)
and_cursor c (ok k) = ok (k, c)
and_cursor c (err e) = err e

-- `read_f64` is `parse::<f64>`, which rounds to the nearest float; `none` is its error.
module _ (read_f64 : Bytes → Option ℕ) where
  unfoldable pub lex_number : Cursor → Result Error (TokenKind × Cursor)
  lex_number c =
      if peeks is_symbol_char (after_number c) 0
      then err
          (parse_error_at c.at (skip_while is_symbol_char (after_number c)).at symbol_after_number)
      else and_cursor (after_number c) (
          if is_float_text c
          then float_literal (span c.at (after_number c).at)
              (read_f64 (text_between c (after_number c)))
          else int_literal (span c.at (after_number c).at)
              (int_value (text_between c (after_number c))))
