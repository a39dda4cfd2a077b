-- ===== src/Expr/Lexer.antt =====
-- The lexer (crates/expr/src/lex.rs).
pub mod Onward
pub mod Strings
pub mod Taken
use eieio.Base.{
  encode, is_digit, ℕ, zero, suc, ◌+◌, ◌-◌, ◌*◌, ◌/◌, ◌%◌, ◌^◌, Bool, true, false, not, ◌&&◌, ◌||◌,
  Option, none, some, List, [], ◌∷◌, ◌++◌, Bytes, codes, text_eq, ℤ, pos, sub_ℕ, fits_i64, length,
  get_elem?, take, drop, ltb, leb, ◌==◌, if◌then◌else◌, Result, ok, err, ◌>>=◌,
}
use eieio.Signal.Value.{Value, null, bool, int, float, str}
use eieio.Expr.Syntax.{
  Span, Error, Message, error, span, parse_error, unexpected_character, symbol_after_number,
  malformed_float, float_not_finite, integer_outside_i64, unterminated_string, unknown_escape,
  malformed_unicode, not_a_scalar,
}
use eieio.Expr.Num.{is_finite}
use eieio.Expr.Tokens.{
  Cursor, Token, TokenKind, advance, attr_token, char_len, close_paren, cursor, hex_value, is_at,
  is_hex, is_symbol_char, is_symbol_start, is_whitespace, literal_token, open_paren, parse_error_at,
  peeks, signal_token, skip_over, skip_trivia, skip_while, symbol_token, text_between, within,
}
use eieio.Expr.Literals.{
  after_exponent, after_fraction, after_number, after_whole, and_cursor, digits_value,
  float_literal, has_exponent, has_fraction, int_literal, int_value, is_float_text, lex_number,
  lex_sigil, lex_symbol, sign_len, symbol_or_literal,
}
use eieio.Expr.Escapes.{
  close_unicode, hex_digits, is_scalar, lex_escape, lex_unicode_escape, simple_escape,
}

-- A piece of a string's text, and the loop from after it on.
abbrev pub then_piece :
    (Bytes → Cursor → Result Error (TokenKind × Cursor))
    → Result Error (Bytes × Cursor)
    → Result Error (TokenKind × Cursor)
then_piece go_on (err e) = err e
then_piece go_on (ok (piece, c)) = go_on piece c

-- The body of the loop of `lex_string` at the byte `b`, with the text so far.
abbrev pub string_char :
    (Bytes → Cursor → Result Error (TokenKind × Cursor))
    → ℕ
    → Bytes
    → Cursor
    → ℕ
    → Result Error (TokenKind × Cursor)
string_char go_on opened out c b = elim (b == 34) [
  | true ↦ ok (literal_token (str out), advance 1 c)
  | false ↦ elim (b == 92) [
    | true ↦ then_piece go_on (lex_escape opened c)
    | false ↦ go_on (take (char_len b) c.rest) (advance (char_len b) c)
  ]
]

abbrev pub string_peek :
    (Bytes → Cursor → Result Error (TokenKind × Cursor))
    → ℕ
    → Bytes
    → Cursor
    → Option ℕ
    → Result Error (TokenKind × Cursor)
string_peek go_on opened out c none = err (parse_error_at opened c.at unterminated_string)
string_peek go_on opened out c (some b) = string_char go_on opened out c b

-- The loop of `lex_string`, on fuel: the bytes that are left are enough.
unfoldable pub string_loop : ℕ → ℕ → Bytes → Cursor → Result Error (TokenKind × Cursor)
string_loop zero opened out c = err (parse_error_at opened c.at unterminated_string)
string_loop (suc fuel) opened out c =
    string_peek (λ piece c'. string_loop fuel opened (out ++ piece) c') opened out c
      (get_elem? c.rest 0)

-- What a token begins with decides how it is read; `c` stands on its first byte `b`.
unfoldable pub lex_token : (Bytes → Option ℕ) → ℕ → Cursor → Result Error (TokenKind × Cursor)
lex_token read_f64 b c =
    if b == 40
    then ok (open_paren, advance 1 c)
    else if b == 41
    then ok (close_paren, advance 1 c)
    else if b == 34
    then string_loop (suc (length c.rest)) c.at [] (advance 1 c)
    else if b == 36
    then ok (lex_sigil c)
    else if is_digit b
    then lex_number read_f64 c
    else if b == 45 && peeks is_digit c 1
    then lex_number read_f64 c
    else if is_symbol_start b
    then ok (lex_symbol c)
    else err (parse_error_at c.at (c.at + char_len b) unexpected_character)

abbrev pub token_from : ℕ → Result Error (TokenKind × Cursor) → Result Error (Option Token × Cursor)
token_from start (err e) = err e
token_from start (ok (k, c)) = ok (some (record { kind = k; span = span start c.at }), c)

abbrev pub first_token : (Bytes → Option ℕ) → Cursor → Result Error (Option Token × Cursor)
first_token read_f64 c = elim (get_elem? c.rest 0) [
  | none ↦ ok (none, c)
  | some b ↦ token_from c.at (lex_token read_f64 b c)
]

-- The next token, or `none` at the end of the source.
unfoldable pub next_token : (Bytes → Option ℕ) → Cursor → Result Error (Option Token × Cursor)
next_token read_f64 c = first_token read_f64 (skip_trivia false c.rest c.at)
