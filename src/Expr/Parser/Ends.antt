-- ===== src/Expr/Parser/Ends.antt =====
-- About the end of a parse and the depth of its tree (crates/expr/src/parse.rs).
use eieio.Base.{
  ℕ, zero, suc, ◌+◌, ◌-◌, ◌*◌, ◌^◌, ◌≤◌, ◌≡◌, refl, min, Bool, true, false, Option, none, some,
  List, [], ◌∷◌, ◌++◌, Bytes, arith, All, All-append, length, ltb, if-splits, Result, ok, err,
}
use eieio.Expr.Syntax.{
  Span, Error, Expr, ParseLimits, error, span, join, parse_error, span_of, clamp_parse_limits,
  nesting_too_deep, source_too_long,
}
use eieio.Expr.Tokens.{
  Token, TokenKind, open_paren, close_paren, literal_token, symbol_token, signal_token, attr_token,
}
use eieio.Expr.Parser.{
  Parser, Parsed, take_token, keep_token, start_expr, from_token, on_peek, with_item, close_list,
  check_let_shadowing, is_close, parse_expr, parse_items, parse_with_limits, parser_for, parse_fuel,
  finish, expect_end,
}
use eieio.Expr.Parser.Taking.{
  AtMost, Looked, Took, keep_token-Looked, nesting, of_items-nesting, remaining, take_token-Took,
}

-- An outcome: not out of fuel, and either a parse error or a tree of at most `m` levels with at
-- least a byte less than `n` left.
abbrev Judged : ℕ → ℕ → Parsed → Type 0
Judged m n none = ⊥
Judged m n (some (err e)) = e.code ≡ parse_error
Judged m n (some (ok (e, p))) = (nesting e ≤ m) × (suc (remaining p) ≤ n)

module _ (read_f64 : Bytes → Option ℕ) (limits : ParseLimits) where
  start_expr-Judged :
      (items : Span → Parser → Parsed) (depth m n : ℕ) (kind : TokenKind) (at : Span) (p : Parser)
      → suc (remaining p) ≤ n
      → ((at : Span) (p : Parser)
          → suc depth ≤ limits.max_depth
          → suc (remaining p) ≤ n
          → Judged m n (items at p))
      → Judged m n (start_expr read_f64 limits items depth (record { kind = kind; span = at }) p)
  unfolding nesting
  start_expr-Judged items depth m n (literal_token v) at p h k = (omega arith, h)
  start_expr-Judged items depth m n (symbol_token s) at p h k = (omega arith, h)
  start_expr-Judged items depth m n signal_token at p h k = (omega arith, h)
  start_expr-Judged items depth m n (attr_token s) at p h k = (omega arith, h)
  start_expr-Judged items depth m n close_paren at p h k = refl
  start_expr-Judged items depth m n open_paren at p h k =
      if-splits (Judged m n) (ltb limits.max_depth (suc depth))
        (some (err (error parse_error at nesting_too_deep))) (items at p) (λ over. refl)
        (λ within. k at p (ground arith) h)

  from_token-Judged :
      (items : Span → Parser → Parsed) (depth m n : ℕ) (r : Result Error (Option Token × Parser))
      → Took n r
      → ((at : Span) (p : Parser)
          → suc depth ≤ limits.max_depth
          → suc (remaining p) ≤ n
          → Judged m n (items at p))
      → Judged m n (from_token read_f64 limits items depth r)
  from_token-Judged items depth m n (err e) h k = h
  from_token-Judged items depth m n (ok (none, p)) h k = refl
  from_token-Judged items depth m n (ok (some t, p)) h k =
      start_expr-Judged items depth m n t.kind t.span p h k

  close_list-Judged :
      (m n : ℕ) (p : Parser) (at : Span) (items : List Expr) (o : Option Span)
      → All (AtMost m) items
      → suc (remaining p) ≤ n
      → Judged (suc m) n (close_list p at items o)
  unfolding nesting
  close_list-Judged m n p at items none h hp = (omega (arith, of_items-nesting m items h), hp)
  close_list-Judged m n p at items (some bad) h hp = refl

  with_item-Judged :
      (m m' n n' : ℕ) (go_on : Expr → Parser → Parsed) (r : Parsed)
      → Judged m n r
      → ((e : Expr) (p : Parser) → nesting e ≤ m → suc (remaining p) ≤ n → Judged m' n' (go_on e p))
      → Judged m' n' (with_item go_on r)
  with_item-Judged m m' n n' go_on none h k = absurd h
  with_item-Judged m m' n n' go_on (some (err e)) h k = h
  with_item-Judged m m' n n' go_on (some (ok (e, p))) h k = k e p h.0 h.1

  on_peek-Judged :
      (m n : ℕ) (item : Parser → Parsed) (go_on : Expr → Parser → Parsed) (at : Span)
      (items : List Expr) (r : Result Error (Option Token × Parser))
      → Looked n r
      → All (AtMost m) items
      → ((p : Parser) → remaining p ≤ n → Judged m n (item p))
      → ((e : Expr) (p : Parser)
          → nesting e ≤ m
          → suc (remaining p) ≤ n
          → Judged (suc m) n (go_on e p))
      → Judged (suc m) n (on_peek read_f64 limits item go_on at items r)
  on_peek-Judged m n item go_on at items (err e) h hi k k' = h
  on_peek-Judged m n item go_on at items (ok (none, p)) h hi k k' = refl
  on_peek-Judged m n item go_on at items (ok (some t, p)) h hi k k' = by_kind (is_close t.kind)
    where
      by_kind :
          (test : Bool)
          → Judged (suc m) n (elim test [
            | true ↦
                close_list
                  (record p { peeked = none })
                  (join at t.span)
                  items
                  (check_let_shadowing items)
            | false ↦ with_item go_on (item p)
          ])
      by_kind true =
          close_list-Judged m n (record p { peeked = none }) (join at t.span) items
            (check_let_shadowing items) hi (omega (arith, h.0))
      by_kind false = with_item-Judged m (suc m) n n go_on (item p) (k p h.1) k'

  Judged-le : (m n n' : ℕ) (r : Parsed) → n ≤ n' → Judged m n r → Judged m n' r
  Judged-le m n n' none le h = h
  Judged-le m n n' (some (err e)) le h = h
  Judged-le m n n' (some (ok (e, p))) le h = (h.0, omega (arith, h.1))

  mutual
    unfolding parse_expr

    parse_expr-Judged :
        (fuel depth m : ℕ) (p : Parser)
        → 2 * remaining p + 1 ≤ fuel
        → depth + m ≡ limits.max_depth
        → Judged m (remaining p) (parse_expr read_f64 limits fuel depth p)
    parse_expr-Judged zero depth m p enough hd = absurd (omega arith)
    parse_expr-Judged (suc fuel) depth zero p enough hd =
        from_token-Judged (λ at p'. parse_items read_f64 limits fuel (suc depth) at [] p') depth 0
          (remaining p) (take_token read_f64 p) (take_token-Took read_f64 p)
          (λ at p' deeper hp. absurd (omega arith))
    parse_expr-Judged (suc fuel) depth (suc m) p enough hd =
        from_token-Judged (λ at p'. parse_items read_f64 limits fuel (suc depth) at [] p') depth
          (suc m) (remaining p) (take_token read_f64 p) (take_token-Took read_f64 p)
          (λ at p' deeper hp.
            Judged-le (suc m) (remaining p') (remaining p)
              (parse_items read_f64 limits fuel (suc depth) at [] p') (omega arith)
              (parse_items-Judged fuel (suc depth) m at [] p' (omega arith) (omega arith) tt))

    parse_items-Judged :
        (fuel depth m : ℕ) (at : Span) (items : List Expr) (p : Parser)
        → 2 * remaining p + 2 ≤ fuel
        → depth + m ≡ limits.max_depth
        → All (AtMost m) items
        → Judged (suc m) (remaining p) (parse_items read_f64 limits fuel depth at items p)
    parse_items-Judged zero depth m at items p enough hm hi = absurd (omega arith)
    parse_items-Judged (suc fuel) depth m at items p enough hm hi =
        on_peek-Judged m (remaining p) (λ p'. parse_expr read_f64 limits fuel depth p')
          (λ e p'.
            parse_items read_f64 limits fuel depth (join at (span_of e)) (items ++ e ∷ []) p')
          at items (keep_token (take_token read_f64 p))
          (keep_token-Looked (remaining p) (take_token read_f64 p) (take_token-Took read_f64 p)) hi
          (λ p' hp.
            Judged-le m (remaining p') (remaining p) (parse_expr read_f64 limits fuel depth p') hp
              (parse_expr-Judged fuel depth m p' (omega arith) hm))
          (λ e p' he hp.
            Judged-le (suc m) (remaining p') (remaining p)
              (parse_items read_f64 limits fuel depth (join at (span_of e)) (items ++ e ∷ []) p')
              (omega arith)
              (parse_items-Judged fuel depth m (join at (span_of e)) (items ++ e ∷ []) p'
                (omega arith) hm (All-append (AtMost m) items (e ∷ []) hi (he, tt))))

-- What parsing a source may come to: a parse error, or a tree of at most `m` levels.
abbrev pub Parses : ℕ → Option (Result Error Expr) → Type 0
Parses m none = ⊥
Parses m (some (err e)) = e.code ≡ parse_error
Parses m (some (ok e)) = nesting e ≤ m

expect_end-Parses :
    (read_f64 : Bytes → Option ℕ) (limits : ParseLimits) (m : ℕ) (e : Expr)
    (r : Result Error (Option Token × Parser)) (n : ℕ)
    → nesting e ≤ m
    → Took n r
    → Parses m (some (expect_end read_f64 limits e r))
expect_end-Parses read_f64 limits m e (err er) n h ht = ht
expect_end-Parses read_f64 limits m e (ok (none, p)) n h ht = h
expect_end-Parses read_f64 limits m e (ok (some t, p)) n h ht = refl

finish-Parses :
    (read_f64 : Bytes → Option ℕ) (limits : ParseLimits) (m n : ℕ) (r : Parsed)
    → Judged m n r
    → Parses m (finish read_f64 limits r)
finish-Parses read_f64 limits m n none h = h
finish-Parses read_f64 limits m n (some (err e)) h = h
finish-Parses read_f64 limits m n (some (ok (e, p))) h =
    expect_end-Parses read_f64 limits m e (take_token read_f64 p) (remaining p) h.0
      (take_token-Took read_f64 p)

-- For every source and every budget, parsing comes to an answer within the model's fuel: an error
-- whose code is that of a parse error, or a tree whose lists nest no deeper than the budget in
-- force, which is the given one raised to the floor of 32.
pub parse-Parses :
    (read_f64 : Bytes → Option ℕ) (limits : ParseLimits) (source : Bytes)
    → Parses (clamp_parse_limits limits).max_depth (parse_with_limits read_f64 limits source)
unfolding parse_with_limits
parse-Parses read_f64 limits source =
    let l = clamp_parse_limits limits in
    let r = parse_expr read_f64 l (parse_fuel source) 0 (parser_for source) in
    if-splits (Parses l.max_depth) (ltb l.max_expr_bytes (length source))
      (some (
        err (
          error parse_error (span l.max_expr_bytes (min (length source) (2 ^ 32 - 1)))
            source_too_long)))
      (finish read_f64 l r) (λ over. refl)
      (λ fits. finish-Parses read_f64 l l.max_depth (length source + 0) r (
        parse_expr-Judged read_f64 l (parse_fuel source) 0 l.max_depth (parser_for source)
          (omega arith) (omega arith)))
