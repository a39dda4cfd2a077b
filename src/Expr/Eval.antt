-- ===== src/Expr/Eval.antt =====
-- The evaluator: the five special forms, application, symbols and sigils (crates/expr/src/eval.rs).
pub mod Budgets
pub mod Ends
pub mod Obeys
pub mod Blind
pub mod Folding
use eieio.Base.{
  ℕ, suc, ◌+◌, ◌*◌, Bool, true, false, not, ◌||◌, Option, none, some, List, [], ◌∷◌, Bytes, text_eq,
  any, length, ◌==◌, ◌++◌, if◌then◌else◌, Result, ok, err,
}
use eieio.Signal.Value.{Value, Entries, bool, map, field}
use eieio.Expr.Syntax.{
  Span, Error, ErrorCode, Message, Expr, ExprKind, Exprs, EvalLimits, error, expr, kind_of, span_of,
  items_of, literal, symbol, signal, attr, list, nil, cons, unbound, type_error, arity_error,
  no_signal, missing, if_arity, let_arity, let_bindings, let_binding_pair, let_binding_name,
  fn_arity, fn_call_arity, fn_params, fn_param_name, fn_param_duplicate, shadows_special_form,
  special_form_as_value, empty_list, unbound_symbol, no_signal_context, no_such_attribute,
  not_a_function, function_result, clamp_eval_limits,
}
use eieio.Expr.Builtin.{
  Builtin, Entry, Arity, Call, SpecialForm, lookup, special_form, is_special_form, check_arity_of,
  if_form, let_form, fn_form, and_form, or_form,
}
use eieio.Expr.Program.{
  Operand, Function, Env, Task, Program, State, data_of, function, closure, builtin, root, bind,
  evaluate, applying, ret, fail, spend, ask, nest, ◌>>=◌, find_binding, is_truthy, run, Outcome,
}

abbrev pub resolve_unbound : Bytes → Span → Error
resolve_unbound name at =
    error unbound at (if is_special_form name then special_form_as_value else unbound_symbol)

-- A symbol: the innermost binding, then the table of builtins.
unfoldable pub resolve_builtin : Bytes → Span → Option Entry → Result Error Operand
resolve_builtin name at (some e) = ok (function (builtin e))
resolve_builtin name at none = err (resolve_unbound name at)

unfoldable pub resolve : Bytes → Span → Option Operand → Result Error Operand
unfolding resolve_builtin
resolve name at (some a) = ok a
resolve name at none = resolve_builtin name at (lookup name)

-- The signal is its attributes; `none` is an evaluation outside a signal context.
abbrev pub signal_map : Option Entries → Span → Result Error Operand
signal_map none at = err (error no_signal at no_signal_context)
signal_map (some fields) at = ok (data_of (map fields))

abbrev pub found_attribute : Span → Option Value → Result Error Operand
found_attribute at none = err (error missing at no_such_attribute)
found_attribute at (some v) = ok (data_of v)

abbrev pub attribute : Option Entries → Bytes → Span → Result Error Operand
attribute none name at = err (error no_signal at no_signal_context)
attribute (some fields) name at = found_attribute at (field name fields)

unfoldable pub binding_name : Expr → Message → Result Error Bytes
binding_name (expr (symbol name) at) non_symbol =
    if is_special_form name then err (error unbound at shadows_special_form) else ok name
binding_name (expr (literal v) at) non_symbol = err (error type_error at non_symbol)
binding_name (expr signal at) non_symbol = err (error type_error at non_symbol)
binding_name (expr (attr name) at) non_symbol = err (error type_error at non_symbol)
binding_name (expr (list items) at) non_symbol = err (error type_error at non_symbol)

unfoldable pub eval_if : Span → List Expr → Env → Program
eval_if at (c ∷ t ∷ e ∷ []) env =
    ask (evaluate c env) (λ a. ask (evaluate (if is_truthy a then t else e) env) ret)
eval_if at [] env = fail (error arity_error at if_arity)
eval_if at (c ∷ []) env = fail (error arity_error at if_arity)
eval_if at (c ∷ t ∷ []) env = fail (error arity_error at if_arity)
eval_if at (c ∷ t ∷ e ∷ x ∷ xs) env = fail (error arity_error at if_arity)

-- The loop over the bindings: each sees the ones before it, and not itself.
unfoldable pub let_bindings_loop : List Expr → Expr → Env → Program
let_bindings_loop [] body scope = ask (evaluate body scope) ret
let_bindings_loop (expr (list (cons name (cons value nil))) at ∷ rest) body scope = do
  n ← binding_name name let_binding_name
  ask (evaluate value scope) (λ a. let_bindings_loop rest body (bind n a scope))
let_bindings_loop (expr (list nil) at ∷ rest) body scope =
    fail (error arity_error at let_binding_pair)
let_bindings_loop (expr (list (cons name nil)) at ∷ rest) body scope =
    fail (error arity_error at let_binding_pair)
let_bindings_loop (expr (list (cons name (cons value (cons x xs)))) at ∷ rest) body scope =
    fail (error arity_error at let_binding_pair)
let_bindings_loop (expr (literal v) at ∷ rest) body scope =
    fail (error type_error at let_binding_pair)
let_bindings_loop (expr (symbol n) at ∷ rest) body scope =
    fail (error type_error at let_binding_pair)
let_bindings_loop (expr signal at ∷ rest) body scope = fail (error type_error at let_binding_pair)
let_bindings_loop (expr (attr n) at ∷ rest) body scope = fail (error type_error at let_binding_pair)

unfoldable pub let_in : Expr → Expr → Env → Program
let_in (expr (list bindings) at) body env = let_bindings_loop (items_of bindings) body env
let_in (expr (literal v) at) body env = fail (error type_error at let_bindings)
let_in (expr (symbol n) at) body env = fail (error type_error at let_bindings)
let_in (expr signal at) body env = fail (error type_error at let_bindings)
let_in (expr (attr n) at) body env = fail (error type_error at let_bindings)

unfoldable pub eval_let : Span → List Expr → Env → Program
eval_let at (bindings ∷ body ∷ []) env = let_in bindings body env
eval_let at [] env = fail (error arity_error at let_arity)
eval_let at (b ∷ []) env = fail (error arity_error at let_arity)
eval_let at (b ∷ c ∷ x ∷ xs) env = fail (error arity_error at let_arity)

-- The parameters' names in order, none of them twice.
unfoldable pub param_names : List Expr → List Bytes → Result Error (List Bytes)
param_names [] names = ok names
param_names (p ∷ ps) names = elim (binding_name p fn_param_name) [
  | err e ↦ err e
  | ok n ↦
      if any (text_eq n) names
      then err (error arity_error (span_of p) fn_param_duplicate)
      else param_names ps (names ++ n ∷ [])
]

unfoldable pub fn_of : Expr → Expr → Env → Program
fn_of (expr (list params) at) body env = do
  names ← param_names (items_of params) []
  ret (function (closure names body env))
fn_of (expr (literal v) at) body env = fail (error type_error at fn_params)
fn_of (expr (symbol n) at) body env = fail (error type_error at fn_params)
fn_of (expr signal at) body env = fail (error type_error at fn_params)
fn_of (expr (attr n) at) body env = fail (error type_error at fn_params)

unfoldable pub eval_fn : Span → List Expr → Env → Program
eval_fn at (params ∷ body ∷ []) env = fn_of params body env
eval_fn at [] env = fail (error arity_error at fn_arity)
eval_fn at (p ∷ []) env = fail (error arity_error at fn_arity)
eval_fn at (p ∷ b ∷ x ∷ xs) env = fail (error arity_error at fn_arity)

-- `and` stops at the first falsy operand and returns it, or the last one.
unfoldable pub eval_and : List Expr → Env → Operand → Program
eval_and [] env last = ret last
eval_and (e ∷ es) env last =
    ask (evaluate e env) (λ a. let rest = eval_and es env a in if is_truthy a then rest else ret a)

-- `or` stops at the first truthy operand.
unfoldable pub eval_or : List Expr → Env → Operand → Program
eval_or [] env last = ret last
eval_or (e ∷ es) env last =
    ask (evaluate e env) (λ a. let rest = eval_or es env a in if is_truthy a then ret a else rest)

-- The arguments in order, and what is done with them.
unfoldable pub eval_args : List Expr → Env → List Operand → (List Operand → Program) → Program
eval_args [] env args k = k args
eval_args (e ∷ es) env args k = ask (evaluate e env) (λ a. eval_args es env (args ++ a ∷ []) k)

unfoldable pub apply_to : Span → Operand → Span → List Expr → Env → Program
apply_to head_span (data_of v) at items env = fail (error type_error head_span not_a_function)
apply_to head_span (function f) at items env =
    eval_args items env []
      (λ args. ask (applying f args (record { span = at; args = some items })) ret)

unfoldable pub eval_call : Span → Expr → List Expr → Env → Program
eval_call at head rest env = ask (evaluate head env) (λ a. apply_to (span_of head) a at rest env)

unfoldable pub eval_form : SpecialForm → Span → List Expr → Env → Program
eval_form if_form at rest env = eval_if at rest env
eval_form let_form at rest env = eval_let at rest env
eval_form fn_form at rest env = eval_fn at rest env
eval_form and_form at rest env = eval_and rest env (data_of (bool true))
eval_form or_form at rest env = eval_or rest env (data_of (bool false))

-- The special form that a list's head names, if any.
abbrev pub head_form : Expr → Option SpecialForm
head_form (expr (symbol name) at) = special_form name
head_form (expr (literal v) at) = none
head_form (expr signal at) = none
head_form (expr (attr name) at) = none
head_form (expr (list items) at) = none

unfoldable pub eval_list : Span → List Expr → Env → Program
eval_list at [] env = fail (error type_error at empty_list)
eval_list at (head ∷ rest) env = elim (head_form head) [
  | some form ↦ eval_form form at rest env
  | none ↦ eval_call at head rest env
]

unfoldable pub eval_node : Option Entries → Expr → Env → Program
eval_node fields (expr (literal v) at) env = ret (data_of v)
eval_node fields (expr (symbol name) at) env = resolve name at (find_binding env name) >>= ret
eval_node fields (expr signal at) env = signal_map fields at >>= ret
eval_node fields (expr (attr name) at) env = attribute fields name at >>= ret
eval_node fields (expr (list items) at) env = nest at (eval_list at (items_of items) env) ret

-- `closure.params.iter().zip(args)`
abbrev pub bind_all : Env → List Bytes → List Operand → Env
bind_all scope [] args = scope
bind_all scope (n ∷ ns) [] = scope
bind_all scope (n ∷ ns) (a ∷ args) = bind_all (bind n a scope) ns args

-- A wrong argument count is an error before anything else.
abbrev pub checked : Span → Option Message → Program → Program
checked at none p = p
checked at (some m) p = fail (error arity_error at m)

-- What the table's implementations are: programs from the operands and the call.
abbrev pub Implementation : Type 0
Implementation = EvalLimits → Builtin → List Operand → Call → Program

module _ (implementation : Implementation) (l : EvalLimits) where
  unfoldable pub apply : Function → List Operand → Call → Program
  apply (builtin e) args call =
      checked call.span (check_arity_of e.arity (length args))
        (spend call.span 1 (implementation l e.implementation args call))
  apply (closure params body env) args call =
      if length params == length args
      then nest call.span (ask (evaluate body (bind_all env params args)) ret) ret
      else fail (error arity_error call.span fn_call_arity)

  -- What each of the evaluator's functions does.
  unfoldable pub program : Option Entries → Task → Program
  program fields (evaluate e env) = spend (span_of e) 1 (eval_node fields e env)
  program fields (applying f args call) = apply f args call

-- Enough fuel for every evaluation (two tasks for each step of the budget).
abbrev pub enough : EvalLimits → ℕ
enough l = 2 * l.max_fuel + 2

unfoldable pub as_result : Span → Outcome Operand → Outcome Value
as_result at none = none
as_result at (some (ok (data_of v), s)) = some (ok v, s)
as_result at (some (ok (function f), s)) = some (err (error type_error at function_result), s)
as_result at (some (err e, s)) = some (err e, s)

-- `Evaluator::eval`, on an evaluator's state.
unfoldable pub eval : Implementation → EvalLimits → Option Entries → Expr → State → Outcome Value
eval implementation l fields e s =
    as_result (span_of e) (run l (program implementation l fields) (enough l) (evaluate e root) s)

abbrev pub fresh : State
fresh = record { fuel_spent = 0; depth = 0 }

abbrev pub value_of : Outcome Value → Option (Result Error Value)
value_of none = none
value_of (some (r, s)) = some r

unfoldable pub eval_with_limits :
    Implementation → EvalLimits → Option Entries → Expr → Option (Result Error Value)
eval_with_limits implementation limits fields e =
    value_of (eval implementation (clamp_eval_limits limits) fields e fresh)
