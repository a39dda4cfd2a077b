-- ===== src/Expr/Analyze/Forms.antt =====
-- About symbols, `if`, `and`, `or` and calls, against their walks in crates/expr/src/analyze.rs.
use eieio.Base.{
  ◌≡◌, inl, inr, refl, subst, Bool, true, false, ◌||◌, Option, none, some, List, [], ◌∷◌, ◌++◌,
  Bytes, arith, All, All-append, if◌then◌else◌, Bool-cases,
}
use eieio.Expr.Syntax.{
  Span, Expr, Exprs, expr, literal, symbol, signal, attr, list, nil, cons, items_of,
  let_binding_name, unbound, special_form_as_value, unbound_symbol, shadows_special_form,
}
use eieio.Expr.Builtin.{Entry, lookup, is_builtin, is_special_form, is_some}
use eieio.Expr.Program.{
  Operand, Env, Program, data_of, function, applying, ret, ask, ◌>>=◌, find_binding, is_truthy,
}
use eieio.Expr.Eval.{
  resolve, resolve_builtin, binding_name, eval_if, eval_and, eval_or, eval_args, apply_to,
}
use eieio.Expr.Analyze.{contains, walk, walk_all, walk_symbol, walk_name, note}
use eieio.Expr.Analyze.Bound.{
  Found, BoundOperand, Ready, BoundProgram, append-parts, find_binding-Bound,
}

pub resolve-Bound :
    (scope : List Bytes) (env : Env) (name : Bytes) (at : Span)
    → Ready scope env
    → walk_symbol name at scope ≡ []
    → BoundProgram (resolve name at (find_binding env name) >>= ret)
unfolding resolve resolve_builtin
resolve-Bound scope env name at h hw = known (contains scope name) refl (lookup name) refl
  where
    or_builtin :
        (o : Option Entry) → is_some o ≡ true → BoundProgram (resolve_builtin name at o >>= ret)
    or_builtin none ho = absurd (ground arith)
    or_builtin (some e) ho = tt

    outer :
        (o : Option Operand) (e : Option Entry)
        → ((a : Operand) → o ≡ some a → BoundOperand a)
        → (o ≡ none → is_some e ≡ true)
        → lookup name ≡ e
        → BoundProgram (resolve name at o >>= ret)
    outer (some a) e ha hb he = ha a refl
    outer none e ha hb he = rw he (or_builtin e (hb refl))

    unclean :
        (a b : Bool)
        → (if a || b
            then []
            else (if is_special_form name
                then note unbound at special_form_as_value
                else note unbound at unbound_symbol))
          ≡ []
        → a ≡ false
        → b ≡ true
    unclean true b h ha = absurd (ground arith)
    unclean false true h ha = refl
    unclean false false h ha = absurd (special (is_special_form name) h)
      where
        special :
            (s : Bool)
            → (if s then note unbound at special_form_as_value else note unbound at unbound_symbol)
              ≡ []
            → ⊥
        special true h = cc
        special false h = cc

    known :
        (c : Bool)
        → contains scope name ≡ c
        → (e : Option Entry) → lookup name ≡ e
        → BoundProgram (resolve name at (find_binding env name) >>= ret)
    known true hc e he =
        outer (find_binding env name) e (λ a ha. find_binding-Bound env name a h.1 ha)
          (λ missing. absurd (bound_and_not (h.0 name hc) missing)) he
      where
        bound_and_not : Found env name → find_binding env name ≡ none → ⊥
        bound_and_not (a, ha) missing = cc
    known false hc e he =
        outer (find_binding env name) e (λ a ha. find_binding-Bound env name a h.1 ha)
          (λ missing.
            subst (λ o. is_some o ≡ true) he
              (unclean (contains scope name) (is_builtin name) hw hc))
          he

abbrev pub Clean : List Bytes → Expr → Type 0
Clean scope e = walk e scope ≡ []

pub walk_all-Clean :
    (es : Exprs) (scope : List Bytes) → walk_all es scope ≡ [] → All (Clean scope) (items_of es)
unfolding walk_all
walk_all-Clean nil scope h = tt
walk_all-Clean (cons e es) scope h =
    let both : (walk e scope ≡ []) × (walk_all es scope ≡ []) =
      append-parts (walk e scope) (walk_all es scope) h in
    (both.0, walk_all-Clean es scope both.1)

if-Bound :
    (test : Bool) (p q : Program)
    → BoundProgram p
    → BoundProgram q
    → BoundProgram (if test then p else q)
if-Bound true p q hp hq = hp
if-Bound false p q hp hq = hq

pub eval_if-Bound :
    (scope : List Bytes) (at : Span) (es : List Expr) (env : Env)
    → Ready scope env
    → All (Clean scope) es
    → BoundProgram (eval_if at es env)
unfolding eval_if
eval_if-Bound scope at [] env h hs = refl
eval_if-Bound scope at (c ∷ []) env h hs = refl
eval_if-Bound scope at (c ∷ t ∷ []) env h hs = refl
eval_if-Bound scope at (c ∷ t ∷ e ∷ x ∷ xs) env h hs = refl
eval_if-Bound scope at (c ∷ t ∷ e ∷ []) env h hs =
    ((scope, h, hs.0), (λ a v. ((scope, h, branch (is_truthy a)), (λ b w. w))))
  where
    branch : (test : Bool) → Clean scope (if test then t else e)
    branch true = hs.1.0
    branch false = hs.1.1.0

pub eval_and-Bound :
    (scope : List Bytes) (es : List Expr) (env : Env) (last : Operand)
    → Ready scope env
    → All (Clean scope) es
    → BoundOperand last
    → BoundProgram (eval_and es env last)
unfolding eval_and
eval_and-Bound scope [] env last h hs hl = hl
eval_and-Bound scope (e ∷ es) env last h hs hl = (
  (scope, h, hs.0),
  (λ a v.
      if-Bound (is_truthy a) (eval_and es env a) (ret a) (eval_and-Bound scope es env a h hs.1 v)
        v),
)

pub eval_or-Bound :
    (scope : List Bytes) (es : List Expr) (env : Env) (last : Operand)
    → Ready scope env
    → All (Clean scope) es
    → BoundOperand last
    → BoundProgram (eval_or es env last)
unfolding eval_or
eval_or-Bound scope [] env last h hs hl = hl
eval_or-Bound scope (e ∷ es) env last h hs hl = (
  (scope, h, hs.0),
  (λ a v.
      if-Bound (is_truthy a) (ret a) (eval_or es env a) v (eval_or-Bound scope es env a h hs.1 v)),
)

eval_args-Bound :
    (scope : List Bytes) (es : List Expr) (env : Env) (args : List Operand)
    (k : List Operand → Program)
    → Ready scope env
    → All (Clean scope) es
    → All BoundOperand args
    → ((args : List Operand) → All BoundOperand args → BoundProgram (k args))
    → BoundProgram (eval_args es env args k)
unfolding eval_args
eval_args-Bound scope [] env args k h hs ha hk = hk args ha
eval_args-Bound scope (e ∷ es) env args k h hs ha hk = (
  (scope, h, hs.0),
  (λ a v.
      eval_args-Bound scope es env (args ++ a ∷ []) k h hs.1
        (All-append BoundOperand args (a ∷ []) ha (v, tt)) hk),
)

pub apply_to-Bound :
    (scope : List Bytes) (head_span : Span) (a : Operand) (at : Span) (es : List Expr) (env : Env)
    → Ready scope env
    → BoundOperand a
    → All (Clean scope) es
    → BoundProgram (apply_to head_span a at es env)
unfolding apply_to
apply_to-Bound scope hs (data_of v) at es env h ha hes = refl
apply_to-Bound scope hs (function f) at es env h ha hes =
    eval_args-Bound scope es env []
      (λ args. ask (applying f args (record { span = at; args = some es })) ret) h hes tt
      (λ args hargs. ((ha, hargs), (λ a v. v)))

-- A `let` binding's name that the analysis accepts is a symbol, and the scope has it at its end.
pub accepted_name :
    (name : Expr) (scope : List Bytes) (k : Bytes → Program)
    → (walk_name name scope).0 ≡ []
    → ((n : Bytes) → (walk_name name scope).1 ≡ scope ++ n ∷ [] → BoundProgram (k n))
    → BoundProgram (binding_name name let_binding_name >>= k)
unfolding binding_name
accepted_name (expr (literal v) at) scope k h hk = refl
accepted_name (expr signal at) scope k h hk = refl
accepted_name (expr (attr n) at) scope k h hk = refl
accepted_name (expr (list es) at) scope k h hk = refl
accepted_name (expr (symbol n) at) scope k h hk = elim (Bool-cases (is_special_form n)) [
  | inl special ↦ absurd (refused (rw special at h))
  | inr free ↦ rw free (hk n (rw free refl))
]
  where
    refused : note unbound at shadows_special_form ≡ [] → ⊥
    refused h = cc
