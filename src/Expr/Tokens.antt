-- ===== src/Expr/Tokens.antt =====
-- What the lexer (crates/expr/src/lex.rs) makes, its state, and its classes of bytes.
use eieio.Base.{
  is_digit, ℕ, suc, ◌+◌, ◌-◌, Bool, true, false, ◌&&◌, ◌||◌, Option, none, some, [], ◌∷◌, Bytes,
  get_elem?, take, drop, ltb, leb, ◌==◌, if◌then◌else◌,
}
use eieio.Signal.Value.{Value}
use eieio.Expr.Syntax.{Span, Error, Message, error, span, parse_error}

pub data TokenKind : Type 0 where
  open_paren : TokenKind
  close_paren : TokenKind
  literal_token : Value → TokenKind
  symbol_token : Bytes → TokenKind
  signal_token : TokenKind
  attr_token : Bytes → TokenKind

pub record Token : Type 0 where
  pub kind : TokenKind
  pub span : Span

-- The lexer's state: the bytes from `pos` on, and `pos`.
pub record Cursor : Type 0 where
  pub rest : Bytes
  pub at : ℕ

abbrev pub cursor : Bytes → ℕ → Cursor
cursor rest at = record { rest = rest; at = at }

abbrev pub within : ℕ → ℕ → ℕ → Bool
within low b high = leb low b && leb b high

-- Letters, and the bytes of `+-*/=<>!?_`.
abbrev pub is_symbol_start : ℕ → Bool
is_symbol_start b =
    within 97 b 122
    || within 65 b 90
    || b == 43
    || b == 45
    || b == 42
    || b == 47
    || within 60 b 63
    || b == 33
    || b == 95

abbrev pub is_symbol_char : ℕ → Bool
is_symbol_char b = is_symbol_start b || is_digit b || b == 46

abbrev pub is_whitespace : ℕ → Bool
is_whitespace b = b == 32 || b == 9 || b == 10 || b == 13

abbrev pub is_hex : ℕ → Bool
is_hex b = is_digit b || within 97 b 102 || within 65 b 70

-- Of a hexadecimal digit's byte.
abbrev pub hex_value : ℕ → ℕ
hex_value b = if is_digit b then b - 48 else if within 97 b 102 then b - 97 + 10 else b - 65 + 10

abbrev pub is_at : (ℕ → Bool) → Option ℕ → Bool
is_at p none = false
is_at p (some b) = p b

-- `peek_at(ahead).is_some_and(p)`
abbrev pub peeks : (ℕ → Bool) → Cursor → ℕ → Bool
peeks p c ahead = is_at p (get_elem? c.rest ahead)

abbrev pub advance : ℕ → Cursor → Cursor
advance n c = cursor (drop n c.rest) (c.at + n)

-- Past the bytes for which the test holds.
unfoldable pub skip_over : (ℕ → Bool) → Bytes → ℕ → Cursor
skip_over p [] at = cursor [] at
skip_over p (b ∷ r) at =
    let further = skip_over p r (suc at) in if p b then further else cursor (b ∷ r) at

abbrev pub skip_while : (ℕ → Bool) → Cursor → Cursor
skip_while p c = skip_over p c.rest c.at

-- Past whitespace and comments; a comment ends before its line's end, which is whitespace.
unfoldable pub skip_trivia : Bool → Bytes → ℕ → Cursor
skip_trivia comment [] at = cursor [] at
skip_trivia true (b ∷ r) at =
    let after_line = skip_trivia false r (suc at) in
    let further = skip_trivia true r (suc at) in if b == 10 then after_line else further
skip_trivia false (b ∷ r) at =
    let further = skip_trivia false r (suc at) in
    let after_comment = skip_trivia true r (suc at) in
    if is_whitespace b then further else if b == 59 then after_comment else cursor (b ∷ r) at

-- The length of the character that a lead byte of UTF-8 begins.
abbrev pub char_len : ℕ → ℕ
char_len b = if ltb b 128 then 1 else if ltb b 224 then 2 else if ltb b 240 then 3 else 4

abbrev pub text_between : Cursor → Cursor → Bytes
text_between c c' = take (c'.at - c.at) c.rest

abbrev pub parse_error_at : ℕ → ℕ → Message → Error
parse_error_at start stop m = error parse_error (span start stop) m
