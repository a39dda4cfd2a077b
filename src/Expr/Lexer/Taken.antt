-- ===== src/Expr/Lexer/Taken.antt =====
-- About the bytes that a token takes (crates/expr/src/lex.rs).
use eieio.Base.{
  is_digit, ℕ, suc, ◌+◌, ◌≤◌, ◌≡◌, refl, false, ◌&&◌, Option, none, some, [], ◌∷◌, Bytes, arith,
  length, ◌==◌, if◌then◌else◌, if-splits, or-right, and-true, Result, ok, err,
}
use eieio.Expr.Syntax.{Error, unexpected_character, parse_error}
use eieio.Expr.Tokens.{
  Token, TokenKind, Cursor, cursor, is_symbol_start, peeks, advance, skip_trivia, char_len,
  parse_error_at, open_paren, close_paren,
}
use eieio.Expr.Literals.{lex_symbol, lex_sigil, lex_number}
use eieio.Expr.Lexer.{string_loop, lex_token, next_token, first_token, token_from}
use eieio.Expr.Lexer.Onward.{
  left, Onward, skip_trivia-le, lex_number-Onward, lex_symbol-lt, lex_sigil-lt,
}
use eieio.Expr.Lexer.Strings.{string_loop-Onward}

lex_token-Onward :
    (read_f64 : Bytes → Option ℕ) (b : ℕ) (r : Bytes) (at : ℕ)
    → Onward (length r) (lex_token read_f64 b (cursor (b ∷ r) at))
unfolding lex_token
lex_token-Onward read_f64 b r at =
    let c = cursor (b ∷ r) at in
    let P = Onward {A = TokenKind} (length r) in
    let symbols =
      if is_symbol_start b
      then ok (lex_symbol c)
      else err (parse_error_at at (at + char_len b) unexpected_character) in
    let minus = if b == 45 && peeks is_digit c 1 then lex_number read_f64 c else symbols in
    let numbers = if is_digit b then lex_number read_f64 c else minus in
    let sigils = if b == 36 then ok (lex_sigil c) else numbers in
    let strings =
      if b == 34 then string_loop (suc (suc (length r))) at [] (advance 1 c) else sigils in
    let closes = if b == 41 then ok (close_paren, advance 1 c) else strings in
    if-splits P (b == 40) (ok (open_paren, advance 1 c)) closes (λ h. omega arith)
      (λ h.
        if-splits P (b == 41) (ok (close_paren, advance 1 c)) strings (λ h. omega arith)
          (λ h.
            if-splits P (b == 34) (string_loop (suc (suc (length r))) at [] (advance 1 c)) sigils
              (λ h.
                string_loop-Onward (suc (suc (length r))) at (length r) [] (advance 1 c)
                  (omega arith))
              (λ h.
                if-splits P (b == 36) (ok (lex_sigil c)) numbers (λ h. lex_sigil-lt b r at)
                  (λ h.
                    if-splits P (is_digit b) (lex_number read_f64 c) minus
                      (λ h. lex_number-Onward read_f64 b r at (rw h refl))
                      (λ h.
                        if-splits P (b == 45 && peeks is_digit c 1) (lex_number read_f64 c) symbols
                          (λ h'. lex_number-Onward read_f64 b r at (
                            or-right (is_digit b) (b == 45)
                              (and-true (b == 45) (peeks is_digit c 1) h').0))
                          (λ h'.
                            if-splits P (is_symbol_start b) (ok (lex_symbol c))
                              (err (parse_error_at at (at + char_len b) unexpected_character))
                              (λ h''. lex_symbol-lt b r at h'') (λ h''. refl)))))))

-- A token takes at least a byte; without one, nothing more is left than before.
abbrev pub Taken : ℕ → Result Error (Option Token × Cursor) → Type 0
Taken n (err e) = e.code ≡ parse_error
Taken n (ok (none, c)) = left c ≤ n
Taken n (ok (some t, c)) = suc (left c) ≤ n

token_from-Taken :
    (n start : ℕ) (r : Result Error (TokenKind × Cursor))
    → Onward n r
    → Taken (suc n) (token_from start r)
token_from-Taken n start (err e) h = h
token_from-Taken n start (ok (k, c)) h = omega arith

Taken-le : (m n : ℕ) (r : Result Error (Option Token × Cursor)) → m ≤ n → Taken m r → Taken n r
Taken-le m n (err e) h ht = ht
Taken-le m n (ok (none, c)) h ht = omega arith
Taken-le m n (ok (some t, c)) h ht = omega arith

first_token-Taken :
    (read_f64 : Bytes → Option ℕ) (bs : Bytes) (at : ℕ)
    → Taken (length bs) (first_token read_f64 (cursor bs at))
first_token-Taken read_f64 [] at = omega arith
first_token-Taken read_f64 (b ∷ r) at =
    token_from-Taken (length r) at (lex_token read_f64 b (cursor (b ∷ r) at))
      (lex_token-Onward read_f64 b r at)

pub next_token-Taken :
    (read_f64 : Bytes → Option ℕ) (c : Cursor) → Taken (left c) (next_token read_f64 c)
unfolding next_token
next_token-Taken read_f64 c =
    let c' = skip_trivia false c.rest c.at in
    Taken-le (left c') (left c) (first_token read_f64 c') (skip_trivia-le false c.rest c.at)
      (first_token-Taken read_f64 c'.rest c'.at)
