-- ===== src/Expr/Parser/Taking.antt =====
-- About the steps by which the parser takes tokens (crates/expr/src/parse.rs).
use eieio.Base.{
  ℕ, suc, ◌+◌, ◌≤◌, ◌≡◌, max, Option, none, some, List, [], ◌∷◌, Bytes, arith, All, Result, ok, err,
}
use eieio.Expr.Syntax.{
  Error, Expr, Exprs, parse_error, expr, literal, symbol, signal, attr, list, nil, cons, of_items,
}
use eieio.Expr.Tokens.{Token, Cursor}
use eieio.Expr.Lexer.{next_token}
use eieio.Expr.Lexer.Onward.{left}
use eieio.Expr.Lexer.Taken.{Taken, next_token-Taken}
use eieio.Expr.Parser.{Parser, take_token, take_from, with_lexer, keep_token}

-- How many lists stand one within another.
unfoldable mutual
  pub nesting : Expr → ℕ
  nesting (expr (list items) at) = suc (items_nesting items)
  nesting (expr (literal v) at) = 0
  nesting (expr (symbol n) at) = 0
  nesting (expr signal at) = 0
  nesting (expr (attr n) at) = 0

  pub items_nesting : Exprs → ℕ
  items_nesting nil = 0
  items_nesting (cons e es) = max (nesting e) (items_nesting es)

abbrev pub AtMost : ℕ → Expr → Type 0
AtMost m e = nesting e ≤ m

pub of_items-nesting :
    (m : ℕ) (es : List Expr) → All (AtMost m) es → items_nesting (of_items es) ≤ m
unfolding items_nesting
of_items-nesting m [] h = omega arith
of_items-nesting m (e ∷ es) h = omega (arith, h.0, of_items-nesting m es h.1)

-- A token that was looked at counts as a byte that is left.
abbrev waiting : Option Token → ℕ
waiting none = 0
waiting (some t) = 1

abbrev pub remaining : Parser → ℕ
remaining p = left p.lexer + waiting p.peeked

-- A token was taken, the end was met, or the lexer failed.
abbrev pub Took : ℕ → Result Error (Option Token × Parser) → Type 0
Took n (err e) = e.code ≡ parse_error
Took n (ok (none, p)) = remaining p ≤ n
Took n (ok (some t, p)) = suc (remaining p) ≤ n

-- As `Took`, where the token stays to be taken.
abbrev pub Looked : ℕ → Result Error (Option Token × Parser) → Type 0
Looked n (err e) = e.code ≡ parse_error
Looked n (ok (none, p)) = Unit
Looked n (ok (some t, p)) = (suc (left p.lexer) ≤ n) × (remaining p ≤ n)

with_lexer-Took :
    (n : ℕ) (r : Result Error (Option Token × Cursor)) → Taken n r → Took n (with_lexer r)
with_lexer-Took n (err e) h = h
with_lexer-Took n (ok (none, c)) h = omega arith
with_lexer-Took n (ok (some t, c)) h = omega arith

Took-le : (m n : ℕ) (r : Result Error (Option Token × Parser)) → m ≤ n → Took m r → Took n r
Took-le m n (err e) le h = h
Took-le m n (ok (none, p)) le h = omega arith
Took-le m n (ok (some t, p)) le h = omega arith

take_from-Took :
    (read_f64 : Bytes → Option ℕ) (c : Cursor) (t : Option Token)
    → Took (left c + waiting t) (take_from read_f64 c t)
take_from-Took read_f64 c (some t) = omega arith
take_from-Took read_f64 c none =
    Took-le (left c) (left c + 0) (with_lexer (next_token read_f64 c)) (omega arith)
      (with_lexer-Took (left c) (next_token read_f64 c) (next_token-Taken read_f64 c))

pub take_token-Took :
    (read_f64 : Bytes → Option ℕ) (p : Parser) → Took (remaining p) (take_token read_f64 p)
unfolding take_token
take_token-Took read_f64 p = take_from-Took read_f64 p.lexer p.peeked

pub keep_token-Looked :
    (n : ℕ) (r : Result Error (Option Token × Parser)) → Took n r → Looked n (keep_token r)
keep_token-Looked n (err e) h = h
keep_token-Looked n (ok (none, p)) h = tt
keep_token-Looked n (ok (some t, p)) h = (omega arith, omega arith)
