-- ===== src/Expr/Analyze/Lists.antt =====
-- About lists and whole nodes, against their walks in crates/expr/src/analyze.rs.
use eieio.Base.{◌≡◌, refl, true, false, Option, none, some, List, [], ◌++◌, Bytes, ◌==◌}
use eieio.Signal.Value.{Value, Entries, bool, field}
use eieio.Expr.Syntax.{
  Span, Error, Expr, Exprs, expr, literal, symbol, signal, attr, list, nil, cons, items_of, span_of,
  arity_error, if_arity, let_arity, fn_arity,
}
use eieio.Expr.Builtin.{SpecialForm, if_form, let_form, fn_form, and_form, or_form}
use eieio.Expr.Program.{Env, data_of, ret, ◌>>=◌}
use eieio.Expr.Eval.{eval_form, eval_call, eval_list, eval_node, head_form, found_attribute}
use eieio.Expr.Analyze.{
  walk, walk_all, walk_let, walk_fn, when_not, note, walk_head, exprs_len, check_arity,
}
use eieio.Expr.Analyze.Bound.{Ready, BoundProgram, append-parts}
use eieio.Expr.Analyze.Forms.{
  resolve-Bound, walk_all-Clean, eval_if-Bound, eval_and-Bound, eval_or-Bound, apply_to-Bound,
}
use eieio.Expr.Analyze.Binders.{eval_let-Bound, eval_fn-Bound}

-- A list whose walk reports nothing: a special form by its own walk, or a call by its items.
list_form-Bound :
    (o : Option SpecialForm) (head : Expr) (rest : Exprs) (at : Span) (scope : List Bytes)
    (env : Env)
    → Ready scope env
    → (elim o [
      | some if_form ↦
          when_not (exprs_len rest == 3) (note arity_error at if_arity) ++ walk_all rest scope
      | some let_form ↦
          when_not (exprs_len rest == 2) (note arity_error at let_arity) ++ walk_let rest scope
      | some fn_form ↦
          when_not (exprs_len rest == 2) (note arity_error at fn_arity) ++ walk_fn rest scope
      | some and_form ↦ walk_all rest scope
      | some or_form ↦ walk_all rest scope
      | none ↦
          check_arity at head (exprs_len rest) scope ++ (walk head scope ++ walk_all rest scope)
    ])
      ≡ []
    → BoundProgram (elim o [
      | some form ↦ eval_form form at (items_of rest) env
      | none ↦ eval_call at head (items_of rest) env
    ])
unfolding eval_form eval_call
list_form-Bound (some if_form) head rest at scope env h hs =
    eval_if-Bound scope at (items_of rest) env h (
      walk_all-Clean rest scope
        (append-parts (when_not (exprs_len rest == 3) (note arity_error at if_arity))
          (walk_all rest scope) hs).1)
list_form-Bound (some let_form) head rest at scope env h hs =
    eval_let-Bound rest scope at env h
      (append-parts (when_not (exprs_len rest == 2) (note arity_error at let_arity))
        (walk_let rest scope) hs).1
list_form-Bound (some fn_form) head rest at scope env h hs =
    eval_fn-Bound rest scope at env h
      (append-parts (when_not (exprs_len rest == 2) (note arity_error at fn_arity))
        (walk_fn rest scope) hs).1
list_form-Bound (some and_form) head rest at scope env h hs =
    eval_and-Bound scope (items_of rest) env (data_of (bool true)) h (walk_all-Clean rest scope hs)
      tt
list_form-Bound (some or_form) head rest at scope env h hs =
    eval_or-Bound scope (items_of rest) env (data_of (bool false)) h (walk_all-Clean rest scope hs)
      tt
list_form-Bound none head rest at scope env h hs =
    let tail : walk head scope ++ walk_all rest scope ≡ [] =
      (append-parts (check_arity at head (exprs_len rest) scope)
        (walk head scope ++ walk_all rest scope) hs).1 in
    let parts : (walk head scope ≡ []) × (walk_all rest scope ≡ []) =
      append-parts (walk head scope) (walk_all rest scope) tail in
    (
      (scope, h, parts.0),
      (λ a v.
          apply_to-Bound scope (span_of head) a at (items_of rest) env h v
            (walk_all-Clean rest scope parts.1)),
    )

pub eval_node-Bound :
    (fields : Option Entries) (e : Expr) (scope : List Bytes) (env : Env)
    → Ready scope env
    → walk e scope ≡ []
    → BoundProgram (eval_node fields e env)
unfolding eval_node walk eval_list
eval_node-Bound fields (expr (literal v) at) scope env h hs = tt
eval_node-Bound fields (expr (symbol n) at) scope env h hs = resolve-Bound scope env n at h hs
eval_node-Bound none (expr signal at) scope env h hs = refl
eval_node-Bound (some fields) (expr signal at) scope env h hs = tt
eval_node-Bound none (expr (attr n) at) scope env h hs = refl
eval_node-Bound (some fields) (expr (attr n) at) scope env h hs = got_attribute (field n fields)
  where
    got_attribute : (o : Option Value) → BoundProgram (found_attribute at o >>= ret)
    got_attribute none = refl
    got_attribute (some v) = tt
eval_node-Bound fields (expr (list nil) at) scope env h hs = (refl, (λ a v. v))
eval_node-Bound fields (expr (list (cons head rest)) at) scope env h hs = (
  list_form-Bound (head_form head) head rest at scope env h (append_second (walk_head head) hs),
  (λ a v. v),
)
  where
    append_second : (xs : List Error) {ys : List Error} → xs ++ ys ≡ [] → ys ≡ []
    append_second xs {ys} h = (append-parts xs ys h).1
