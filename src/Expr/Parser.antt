-- ===== src/Expr/Parser.antt =====
-- The parser (crates/expr/src/parse.rs).
pub mod Taking
pub mod Ends
pub mod Tests
use eieio.Base.{
  ℕ, zero, suc, ◌+◌, ◌-◌, ◌*◌, ◌^◌, min, Bool, true, false, ◌||◌, Option, none, some, List, [], ◌∷◌,
  ◌++◌, Bytes, codes, text_eq, length, ltb, if◌then◌else◌, Result, ok, err,
}
use eieio.Signal.Value.{Value, null, bool}
use eieio.Expr.Syntax.{
  Span, Error, Message, Expr, ExprKind, Exprs, ParseLimits, error, span, empty_at, join,
  parse_error, expr, literal, symbol, signal, attr, list, nil, cons, of_items, items_of, span_of,
  kind_of, expected_expression, unmatched_close, nesting_too_deep, unterminated_list,
  cannot_shadow_literal, source_too_long, content_after, clamp_parse_limits,
}
use eieio.Expr.Tokens.{
  Token, TokenKind, Cursor, cursor, open_paren, close_paren, literal_token, symbol_token,
  signal_token, attr_token,
}
use eieio.Expr.Lexer.{next_token}

-- The lexer, and a token that was looked at and not taken.
pub record Parser : Type 0 where
  pub lexer : Cursor
  pub peeked : Option Token

-- `next_token`: the token that was looked at, or a new one.
abbrev pub with_lexer : Result Error (Option Token × Cursor) → Result Error (Option Token × Parser)
with_lexer (err e) = err e
with_lexer (ok (t, c)) = ok (t, record { lexer = c; peeked = none })

abbrev pub take_from :
    (Bytes → Option ℕ) → Cursor → Option Token → Result Error (Option Token × Parser)
take_from read_f64 c none = with_lexer (next_token read_f64 c)
take_from read_f64 c (some t) = ok (some t, record { lexer = c; peeked = none })

unfoldable pub take_token : (Bytes → Option ℕ) → Parser → Result Error (Option Token × Parser)
take_token read_f64 p = take_from read_f64 p.lexer p.peeked

-- `peek_token`: as `take_token`, and the token stays.
abbrev pub keep_token : Result Error (Option Token × Parser) → Result Error (Option Token × Parser)
keep_token (err e) = err e
keep_token (ok (t, p)) = ok (t, record p { peeked = t })

-- What a `let` binding may not be named: `true`, `false` or `null`, which are literals by now.
abbrev pub literal_name : Expr → Option Span
literal_name (expr (literal v) at) = elim v [ bool b ↦ some at | null ↦ some at | _ ↦ none ]
literal_name (expr (symbol n) at) = none
literal_name (expr signal at) = none
literal_name (expr (attr n) at) = none
literal_name (expr (list es) at) = none

abbrev pub binding_literal : Expr → Option Span
binding_literal (expr (list (cons name rest)) at) = literal_name name
binding_literal (expr (list nil) at) = none
binding_literal (expr (literal v) at) = none
binding_literal (expr (symbol n) at) = none
binding_literal (expr signal at) = none
binding_literal (expr (attr n) at) = none

abbrev pub first_literal : Exprs → Option Span
first_literal nil = none
first_literal (cons b bs) =
    let rest = first_literal bs in elim (binding_literal b) [ some at ↦ some at | none ↦ rest ]

abbrev pub is_let : Expr → Bool
is_let (expr (symbol name) at) = text_eq name (codes "let")
is_let (expr (literal v) at) = false
is_let (expr signal at) = false
is_let (expr (attr n) at) = false
is_let (expr (list es) at) = false

abbrev pub bound_literal : Expr → Option Span
bound_literal (expr (list bindings) at) = first_literal bindings
bound_literal (expr (literal v) at) = none
bound_literal (expr (symbol n) at) = none
bound_literal (expr signal at) = none
bound_literal (expr (attr n) at) = none

-- The span of the name that a list, being a `let`, shadows; `none` is `Ok(())`.
unfoldable pub check_let_shadowing : List Expr → Option Span
check_let_shadowing [] = none
check_let_shadowing (head ∷ []) = none
check_let_shadowing (head ∷ bindings ∷ rest) = if is_let head then bound_literal bindings else none

-- Outcomes: `none` when the model's fuel runs out.
abbrev pub Parsed : Type 0
Parsed = Option (Result Error (Expr × Parser))

abbrev pub close_list : Parser → Span → List Expr → Option Span → Parsed
close_list p at items none = some (ok (expr (list (of_items items)) at, p))
close_list p at items (some bad) = some (err (error parse_error bad cannot_shadow_literal))

-- What follows an item of a list.
abbrev pub with_item : (Expr → Parser → Parsed) → Parsed → Parsed
with_item k none = none
with_item k (some (err e)) = some (err e)
with_item k (some (ok (e, p))) = k e p

abbrev pub is_close : TokenKind → Bool
is_close k = elim k [ close_paren ↦ true | _ ↦ false ]

module _ (read_f64 : Bytes → Option ℕ) (limits : ParseLimits) where
  -- What a token begins: an atom, or the list that `parse_list` reads at one level more.
  abbrev pub start_expr : (Span → Parser → Parsed) → ℕ → Token → Parser → Parsed
  start_expr parse_items depth t p = elim t.kind [
    | literal_token v ↦ some (ok (expr (literal v) t.span, p))
    | symbol_token n ↦ some (ok (expr (symbol n) t.span, p))
    | signal_token ↦ some (ok (expr signal t.span, p))
    | attr_token n ↦ some (ok (expr (attr n) t.span, p))
    | close_paren ↦ some (err (error parse_error t.span unmatched_close))
    | open_paren ↦
        if ltb limits.max_depth (suc depth)
        then some (err (error parse_error t.span nesting_too_deep))
        else parse_items t.span p
  ]

  abbrev pub from_token :
      (Span → Parser → Parsed) → ℕ → Result Error (Option Token × Parser) → Parsed
  from_token parse_items depth (err e) = some (err e)
  from_token parse_items depth (ok (none, p)) =
      some (err (error parse_error (empty_at p.lexer.at) expected_expression))
  from_token parse_items depth (ok (some t, p)) = start_expr parse_items depth t p

  -- What the loop of a list does with the token it looks at.
  abbrev pub on_peek :
      (Parser → Parsed)
      → (Expr → Parser → Parsed)
      → Span
      → List Expr
      → Result Error (Option Token × Parser)
      → Parsed
  on_peek parse_item go_on at items (err e) = some (err e)
  on_peek parse_item go_on at items (ok (none, p)) =
      some (err (error parse_error (join at (empty_at p.lexer.at)) unterminated_list))
  on_peek parse_item go_on at items (ok (some t, p)) = elim (is_close t.kind) [
    | true ↦
        close_list (record p { peeked = none }) (join at t.span) items (check_let_shadowing items)
    | false ↦ with_item go_on (parse_item p)
  ]

  unfoldable mutual
    -- `parse_expr` below `depth` lists.
    pub parse_expr : ℕ → ℕ → Parser → Parsed
    parse_expr zero depth p = none
    parse_expr (suc fuel) depth p =
        from_token (λ at p'. parse_items fuel (suc depth) at [] p') depth (take_token read_f64 p)

    -- The loop of `parse_list` at `depth`, with the items so far.
    pub parse_items : ℕ → ℕ → Span → List Expr → Parser → Parsed
    parse_items zero depth at items p = none
    parse_items (suc fuel) depth at items p =
        on_peek (λ p'. parse_expr fuel depth p')
          (λ e p'. parse_items fuel depth (join at (span_of e)) (items ++ e ∷ []) p') at items
          (keep_token (take_token read_f64 p))

  abbrev pub expect_end : Expr → Result Error (Option Token × Parser) → Result Error Expr
  expect_end e (err er) = err er
  expect_end e (ok (none, p)) = ok e
  expect_end e (ok (some t, p)) = err (error parse_error t.span content_after)

  abbrev pub finish : Parsed → Option (Result Error Expr)
  finish none = none
  finish (some (err e)) = some (err e)
  finish (some (ok (e, p))) = some (expect_end e (take_token read_f64 p))

abbrev pub parser_for : Bytes → Parser
parser_for source = record { lexer = cursor source 0; peeked = none }

-- Enough fuel for a source: each token is taken from bytes.
abbrev pub parse_fuel : Bytes → ℕ
parse_fuel source = 2 * length source + 3

unfoldable pub parse_with_limits :
    (Bytes → Option ℕ) → ParseLimits → Bytes → Option (Result Error Expr)
parse_with_limits read_f64 limits source =
    let parsed =
      finish read_f64 (clamp_parse_limits limits) (
        parse_expr read_f64 (clamp_parse_limits limits) (parse_fuel source) 0
          (parser_for source)) in
    if ltb (clamp_parse_limits limits).max_expr_bytes (length source)
    then some (
        err (
          error parse_error
            (span (clamp_parse_limits limits).max_expr_bytes (min (length source) (2 ^ 32 - 1)))
            source_too_long))
    else parsed
