-- ===== src/Expr/Lexer/Strings.antt =====
-- About the bytes that escapes and strings leave (crates/expr/src/lex.rs).
use eieio.Base.{
  encode, ℕ, zero, suc, ◌+◌, ◌*◌, ◌≤◌, ◌≡◌, refl, Bool, true, false, not, Option, none, some, ◌++◌,
  Bytes, arith, get_elem?, take, ◌==◌, if◌then◌else◌, if-splits, Result, ok, err,
}
use eieio.Expr.Syntax.{Error, Message, unterminated_string, parse_error}
use eieio.Signal.Value.{str}
use eieio.Expr.Tokens.{
  TokenKind, Cursor, is_hex, hex_value, peeks, advance, char_len, parse_error_at, literal_token,
}
use eieio.Expr.Escapes.{
  lex_unicode_escape, lex_escape, hex_digits, close_unicode, simple_escape, is_scalar,
}
use eieio.Expr.Lexer.{
  string_loop, then_piece, string_peek, malformed_unicode, not_a_scalar, unknown_escape,
}
use eieio.Expr.Lexer.Onward.{left, Onward, advance-le}

abbrev DigitsOnward : ℕ → Result Error (ℕ × ℕ × Cursor) → Type 0
DigitsOnward n (ok (k, code, c)) = left c ≤ n
DigitsOnward n (err e) = e.code ≡ parse_error

hex_digits-Onward :
    (k esc code n : ℕ) (c : Cursor) → left c ≤ n → DigitsOnward n (hex_digits k esc code c)
unfolding hex_digits
hex_digits-Onward zero esc code n c h = refl
hex_digits-Onward (suc k) esc code n c h =
    if-splits (DigitsOnward n) (peeks is_hex c 0)
      (hex_digits k esc
        (code * 16 + (elim (get_elem? c.rest 0) [ none ↦ 0 | some b ↦ hex_value b ])) (advance 1 c))
      (ok (k, code, c))
      (λ _.
        hex_digits-Onward k esc
          (code * 16 + (elim (get_elem? c.rest 0) [ none ↦ 0 | some b ↦ hex_value b ])) n
          (advance 1 c) (omega (arith, advance-le 1 c)))
      (λ _. h)

branch-Onward {ℓ} :
    {A : Type ℓ} (n : ℕ) (test : Bool) (x y : Result Error (A × Cursor))
    → Onward n x
    → Onward n y
    → Onward n (if test then x else y)
branch-Onward n true x y hx hy = hx
branch-Onward n false x y hx hy = hy

close_unicode-Onward :
    (esc k code n : ℕ) (c : Cursor) → left c ≤ n → Onward n (close_unicode esc k code c)
close_unicode-Onward esc k code n c h =
    let closed = peeks (λ b. b == 125) c 0 in
    let refuse : ℕ → Message → Result Error (Bytes × Cursor) =
      λ stop m. err (parse_error_at esc stop m) in
    branch-Onward n (k == 6) (refuse (if closed then c.at + 1 else c.at) malformed_unicode)
      (if not closed
        then refuse c.at malformed_unicode
        else if is_scalar code
        then ok (encode code, advance 1 c)
        else refuse (c.at + 1) not_a_scalar)
      refl
      (branch-Onward n (not closed) (refuse c.at malformed_unicode)
        (if is_scalar code then ok (encode code, advance 1 c) else refuse (c.at + 1) not_a_scalar)
        refl
        (branch-Onward n (is_scalar code) (ok (encode code, advance 1 c))
          (refuse (c.at + 1) not_a_scalar) (omega (arith, advance-le 1 c)) refl))

closed-Onward :
    (esc n : ℕ) (r : Result Error (ℕ × ℕ × Cursor))
    → DigitsOnward n r
    → Onward n (elim r [ err e ↦ err e | ok (k, code, c) ↦ close_unicode esc k code c ])
closed-Onward esc n (err e) h = h
closed-Onward esc n (ok (k, code, c)) h = close_unicode-Onward esc k code n c h

lex_unicode_escape-Onward :
    (esc n : ℕ) (c : Cursor) → left c ≤ n → Onward n (lex_unicode_escape esc c)
unfolding lex_unicode_escape
lex_unicode_escape-Onward esc n c h =
    branch-Onward n (not (peeks (λ b. b == 123) c 0))
      (err (parse_error_at esc c.at malformed_unicode))
      (elim (hex_digits 7 esc 0 (advance 1 c)) [
        | err e ↦ err e
        | ok (k, code, c') ↦ close_unicode esc k code c'
      ])
      refl
      (closed-Onward esc n (hex_digits 7 esc 0 (advance 1 c))
        (hex_digits-Onward 7 esc 0 n (advance 1 c) (omega (arith, advance-le 1 c))))

lex_escape-Onward : (opened n : ℕ) (c : Cursor) → left c ≤ n → Onward n (lex_escape opened c)
unfolding lex_escape
lex_escape-Onward opened n c h = second (get_elem? c.rest 1)
  where
    escaped :
        (e : ℕ) (o : Option Bytes)
        → Onward n (elim o [
          | some out ↦ ok (out, advance 2 c)
          | none ↦
              if e == 117
              then lex_unicode_escape c.at (advance 2 c)
              else err (parse_error_at c.at (c.at + 2) unknown_escape)
        ])
    escaped e (some out) = omega (arith, advance-le 2 c)
    escaped e none =
        branch-Onward n (e == 117) (lex_unicode_escape c.at (advance 2 c))
          (err (parse_error_at c.at (c.at + 2) unknown_escape))
          (lex_unicode_escape-Onward c.at n (advance 2 c) (omega (arith, advance-le 2 c))) refl

    second :
        (o : Option ℕ)
        → Onward n (elim o [
          | none ↦ err (parse_error_at opened (c.at + 1) unterminated_string)
          | some e ↦ elim (simple_escape e) [
            | some out ↦ ok (out, advance 2 c)
            | none ↦
                if e == 117
                then lex_unicode_escape c.at (advance 2 c)
                else err (parse_error_at c.at (c.at + 2) unknown_escape)
          ]
        ])
    second none = refl
    second (some e) = escaped e (simple_escape e)

-- The loop goes on from every place that leaves at most `n` bytes.
abbrev GoesOn : ℕ → (Bytes → Cursor → Result Error (TokenKind × Cursor)) → Type 0
GoesOn n go_on = (piece : Bytes) (c : Cursor) → left c ≤ n → Onward n (go_on piece c)

then_piece-Onward :
    (n : ℕ) (go_on : Bytes → Cursor → Result Error (TokenKind × Cursor))
    (r : Result Error (Bytes × Cursor))
    → GoesOn n go_on
    → Onward n r
    → Onward n (then_piece go_on r)
then_piece-Onward n go_on (err e) k h = h
then_piece-Onward n go_on (ok (piece, c)) k h = k piece c h

string_peek-Onward :
    (n : ℕ) (go_on : Bytes → Cursor → Result Error (TokenKind × Cursor)) (opened : ℕ) (out : Bytes)
    (c : Cursor) (o : Option ℕ)
    → GoesOn n go_on
    → left c ≤ n
    → Onward n (string_peek go_on opened out c o)
string_peek-Onward n go_on opened out c none k h = refl
string_peek-Onward n go_on opened out c (some b) k h = by_quote (b == 34) (b == 92)
  where
    by_quote :
        (quote backslash : Bool)
        → Onward n (elim quote [
          | true ↦ ok (literal_token (str out), advance 1 c)
          | false ↦ elim backslash [
            | true ↦ then_piece go_on (lex_escape opened c)
            | false ↦ go_on (take (char_len b) c.rest) (advance (char_len b) c)
          ]
        ])
    by_quote true backslash = omega (arith, advance-le 1 c)
    by_quote false true =
        then_piece-Onward n go_on (lex_escape opened c) k (lex_escape-Onward opened n c h)
    by_quote false false =
        k (take (char_len b) c.rest) (advance (char_len b) c)
          (omega (arith, advance-le (char_len b) c))

pub string_loop-Onward :
    (fuel opened n : ℕ) (out : Bytes) (c : Cursor)
    → left c ≤ n
    → Onward n (string_loop fuel opened out c)
unfolding string_loop
string_loop-Onward zero opened n out c h = refl
string_loop-Onward (suc fuel) opened n out c h =
    string_peek-Onward n (λ piece c'. string_loop fuel opened (out ++ piece) c') opened out c
      (get_elem? c.rest 0) (λ piece c' h'. string_loop-Onward fuel opened n (out ++ piece) c' h') h
