-- ===== src/Expr/Escapes.antt =====
-- The escapes of string literals (crates/expr/src/lex.rs).
use eieio.Base.{
  encode, ℕ, zero, suc, ◌+◌, ◌*◌, Bool, not, ◌||◌, Option, none, some, [], ◌∷◌, Bytes, get_elem?,
  ltb, ◌==◌, if◌then◌else◌, Result, ok, err,
}
use eieio.Expr.Syntax.{Error, unterminated_string, unknown_escape, malformed_unicode, not_a_scalar}
use eieio.Expr.Tokens.{Cursor, advance, hex_value, is_hex, parse_error_at, peeks, within}

-- `char::from_u32`: below 0x110000 and no surrogate.
abbrev pub is_scalar : ℕ → Bool
is_scalar code = ltb code 55296 || within 57344 code 1114111

-- The digits of a `\u{…}`: at most six, a seventh is an error. The value and the place after them.
unfoldable pub hex_digits : ℕ → ℕ → ℕ → Cursor → Result Error (ℕ × ℕ × Cursor)
hex_digits zero esc code c = err (parse_error_at esc c.at malformed_unicode)
hex_digits (suc left) esc code c =
    let more =
      hex_digits left esc
        (code * 16 + (elim (get_elem? c.rest 0) [ none ↦ 0 | some b ↦ hex_value b ]))
        (advance 1 c) in
    if peeks is_hex c 0 then more else ok (left, code, c)

-- The end of an escape whose digits are read: `left` is 6 less the number of digits.
abbrev pub close_unicode : ℕ → ℕ → ℕ → Cursor → Result Error (Bytes × Cursor)
close_unicode esc left code c =
    if left == 6
    then err (
        parse_error_at esc (if peeks (λ b. b == 125) c 0 then c.at + 1 else c.at) malformed_unicode)
    else if not (peeks (λ b. b == 125) c 0)
    then err (parse_error_at esc c.at malformed_unicode)
    else if is_scalar code
    then ok (encode code, advance 1 c)
    else err (parse_error_at esc (c.at + 1) not_a_scalar)

unfoldable pub lex_unicode_escape : ℕ → Cursor → Result Error (Bytes × Cursor)
lex_unicode_escape esc c =
    if not (peeks (λ b. b == 123) c 0)
    then err (parse_error_at esc c.at malformed_unicode)
    else elim (hex_digits 7 esc 0 (advance 1 c)) [
      | err e ↦ err e
      | ok (left, code, c') ↦ close_unicode esc left code c'
    ]

-- What the byte after a backslash stands for; `none` for `u`, which has digits after it.
abbrev pub simple_escape : ℕ → Option Bytes
simple_escape e =
    if e == 34
    then some (34 ∷ [])
    else if e == 92
    then some (92 ∷ [])
    else if e == 110
    then some (10 ∷ [])
    else if e == 116
    then some (9 ∷ [])
    else if e == 114
    then some (13 ∷ [])
    else none

-- The escape at the cursor, which stands on the backslash.
unfoldable pub lex_escape : ℕ → Cursor → Result Error (Bytes × Cursor)
lex_escape opened c = elim (get_elem? c.rest 1) [
  | none ↦ err (parse_error_at opened (c.at + 1) unterminated_string)
  | some e ↦ elim (simple_escape e) [
    | some out ↦ ok (out, advance 2 c)
    | none ↦
        if e == 117
        then lex_unicode_escape c.at (advance 2 c)
        else err (parse_error_at c.at (c.at + 2) unknown_escape)
  ]
]
