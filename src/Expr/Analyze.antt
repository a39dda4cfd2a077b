-- ===== src/Expr/Analyze.antt =====
-- The static analysis (crates/expr/src/analyze.rs). The diagnostics of a part are a list of their
-- own, appended to those before it; a scope is the names in the order in which they were bound.
pub mod Bound
pub mod Forms
pub mod Binders
pub mod Lists
pub mod Names
use eieio.Base.{
  ℕ, zero, suc, Bool, true, false, not, ◌||◌, Option, none, some, List, [], ◌∷◌, ◌++◌, Bytes, codes,
  text_eq, any, drop, length, all, ◌==◌, if◌then◌else◌,
}
use eieio.Expr.Syntax.{
  Span, Error, ErrorCode, Expr, ExprKind, Exprs, Message, error, expr, literal, symbol, signal,
  attr, list, nil, cons, items_of, span_of, is_signal_dependent, unbound, type_error, arity_error,
  special_form_as_value, unbound_symbol, empty_list, literal_head, sigil_head, if_arity, let_arity,
  let_bindings, let_binding_pair, let_binding_name, fn_arity, fn_params, fn_param_name,
  fn_param_duplicate, fn_call_arity, shadows_special_form,
}
use eieio.Expr.Builtin.{
  Entry, SpecialForm, is_builtin, is_special_form, lookup, special_form, check_arity_of, if_form,
  let_form, fn_form, and_form, or_form,
}
use eieio.Expr.Eval.{head_form}

abbrev pub contains : List Bytes → Bytes → Bool
contains scope name = any (text_eq name) scope

abbrev pub note : ErrorCode → Span → Message → List Error
note code at m = error code at m ∷ []

abbrev pub walk_symbol : Bytes → Span → List Bytes → List Error
walk_symbol name at scope =
    if contains scope name || is_builtin name
    then []
    else if is_special_form name
    then note unbound at special_form_as_value
    else note unbound at unbound_symbol

-- A head that can be no function.
abbrev pub walk_head : Expr → List Error
walk_head (expr (literal v) at) = note type_error at literal_head
walk_head (expr signal at) = note type_error at sigil_head
walk_head (expr (attr n) at) = note type_error at sigil_head
walk_head (expr (symbol n) at) = []
walk_head (expr (list es) at) = []

abbrev pub exprs_len : Exprs → ℕ
exprs_len nil = 0
exprs_len (cons e es) = suc (exprs_len es)

abbrev pub is_symbol : Expr → Bool
is_symbol (expr (symbol n) at) = true
is_symbol (expr (literal v) at) = false
is_symbol (expr signal at) = false
is_symbol (expr (attr n) at) = false
is_symbol (expr (list es) at) = false

abbrev pub all_symbols : Exprs → Bool
all_symbols nil = true
all_symbols (cons e es) = if is_symbol e then all_symbols es else false

abbrev pub names_fn : Expr → Bool
names_fn (expr (symbol n) at) = text_eq n (codes "fn")
names_fn (expr (literal v) at) = false
names_fn (expr signal at) = false
names_fn (expr (attr n) at) = false
names_fn (expr (list es) at) = false

abbrev pub params_len : Expr → Option ℕ
params_len (expr (list ps) at) = if all_symbols ps then some (exprs_len ps) else none
params_len (expr (symbol n) at) = none
params_len (expr (literal v) at) = none
params_len (expr signal at) = none
params_len (expr (attr n) at) = none

-- The number of parameters of a well-formed `fn`.
unfoldable pub fn_params_of : Exprs → Option ℕ
fn_params_of nil = none
fn_params_of (cons h nil) = none
fn_params_of (cons h (cons ps nil)) = none
fn_params_of (cons h (cons ps (cons body nil))) = if names_fn h then params_len ps else none
fn_params_of (cons h (cons ps (cons body (cons x xs)))) = none

abbrev pub builtin_arity : Option Entry → ℕ → List Error → (Message → List Error) → List Error
builtin_arity none args fine wrong = fine
builtin_arity (some e) args fine wrong = elim (check_arity_of e.arity args) [
  | none ↦ fine
  | some m ↦ wrong m
]

abbrev pub closure_arity : Option ℕ → ℕ → List Error → List Error → List Error
closure_arity none args fine wrong = fine
closure_arity (some n) args fine wrong = if n == args then fine else wrong

unfoldable pub check_arity : Span → Expr → ℕ → List Bytes → List Error
check_arity at (expr (symbol name) s) args scope =
    if contains scope name
    then []
    else builtin_arity (lookup name) args [] (λ m. note arity_error at m)
check_arity at (expr (list form) s) args scope =
    closure_arity (fn_params_of form) args [] (note arity_error at fn_call_arity)
check_arity at (expr (literal v) s) args scope = []
check_arity at (expr signal s) args scope = []
check_arity at (expr (attr n) s) args scope = []

-- The name of a `let` binding, and the scope with it.
abbrev pub walk_name : Expr → List Bytes → List Error × List Bytes
walk_name (expr (symbol n) at) scope =
    if is_special_form n
    then (note unbound at shadows_special_form, scope)
    else ([], scope ++ n ∷ [])
walk_name (expr (literal v) at) scope = (note type_error at let_binding_name, scope)
walk_name (expr signal at) scope = (note type_error at let_binding_name, scope)
walk_name (expr (attr n) at) scope = (note type_error at let_binding_name, scope)
walk_name (expr (list es) at) scope = (note type_error at let_binding_name, scope)

-- A parameter of `fn`; `depth` names stood in scope before the parameters.
abbrev pub walk_param : ℕ → Expr → List Bytes → List Error × List Bytes
walk_param depth (expr (symbol n) at) scope =
    if is_special_form n
    then (note unbound at shadows_special_form, scope)
    else if contains (drop depth scope) n
    then (note arity_error at fn_param_duplicate, scope)
    else ([], scope ++ n ∷ [])
walk_param depth (expr (literal v) at) scope = (note type_error at fn_param_name, scope)
walk_param depth (expr signal at) scope = (note type_error at fn_param_name, scope)
walk_param depth (expr (attr n) at) scope = (note type_error at fn_param_name, scope)
walk_param depth (expr (list es) at) scope = (note type_error at fn_param_name, scope)

abbrev pub walk_params : ℕ → Exprs → List Bytes → List Error × List Bytes
walk_params depth nil scope = ([], scope)
walk_params depth (cons p ps) scope =
    let here = walk_param depth p scope in
    let later = walk_params depth ps here.1 in (here.0 ++ later.0, later.1)

abbrev pub walk_param_list : ℕ → Expr → List Bytes → List Error × List Bytes
walk_param_list depth (expr (list ps) at) scope = walk_params depth ps scope
walk_param_list depth (expr (symbol n) at) scope = (note type_error at fn_params, scope)
walk_param_list depth (expr (literal v) at) scope = (note type_error at fn_params, scope)
walk_param_list depth (expr signal at) scope = (note type_error at fn_params, scope)
walk_param_list depth (expr (attr n) at) scope = (note type_error at fn_params, scope)

abbrev pub when_not : Bool → List Error → List Error
when_not true out = []
when_not false out = out

unfoldable mutual
  pub walk : Expr → List Bytes → List Error
  walk (expr (literal v) at) scope = []
  walk (expr signal at) scope = []
  walk (expr (attr n) at) scope = []
  walk (expr (symbol n) at) scope = walk_symbol n at scope
  walk (expr (list nil) at) scope = note type_error at empty_list
  walk (expr (list (cons head rest)) at) scope = walk_head head ++ (elim (head_form head) [
    | some if_form ↦
        when_not (exprs_len rest == 3) (note arity_error at if_arity) ++ walk_all rest scope
    | some let_form ↦
        when_not (exprs_len rest == 2) (note arity_error at let_arity) ++ walk_let rest scope
    | some fn_form ↦
        when_not (exprs_len rest == 2) (note arity_error at fn_arity) ++ walk_fn rest scope
    | some and_form ↦ walk_all rest scope
    | some or_form ↦ walk_all rest scope
    | none ↦ check_arity at head (exprs_len rest) scope ++ (walk head scope ++ walk_all rest scope)
  ])

  pub walk_all : Exprs → List Bytes → List Error
  walk_all nil scope = []
  walk_all (cons e es) scope = walk e scope ++ walk_all es scope

  pub walk_let : Exprs → List Bytes → List Error
  walk_let nil scope = []
  walk_let (cons bindings nil) scope = (walk_bindings bindings scope).0
  walk_let (cons bindings (cons body more)) scope =
      (walk_bindings bindings scope).0 ++ walk body (walk_bindings bindings scope).1

  pub walk_bindings : Expr → List Bytes → List Error × List Bytes
  walk_bindings (expr (list bs) at) scope = walk_each bs scope
  walk_bindings (expr (symbol n) at) scope = (note type_error at let_bindings, scope)
  walk_bindings (expr (literal v) at) scope = (note type_error at let_bindings, scope)
  walk_bindings (expr signal at) scope = (note type_error at let_bindings, scope)
  walk_bindings (expr (attr n) at) scope = (note type_error at let_bindings, scope)

  pub walk_each : Exprs → List Bytes → List Error × List Bytes
  walk_each nil scope = ([], scope)
  walk_each (cons b bs) scope =
      let here = walk_binding b scope in
      let later = walk_each bs here.1 in (here.0 ++ later.0, later.1)

  -- The bound expression is walked before the name enters the scope.
  pub walk_binding : Expr → List Bytes → List Error × List Bytes
  walk_binding (expr (list nil) at) scope = (note arity_error at let_binding_pair, scope)
  walk_binding (expr (list (cons name nil)) at) scope =
      (note arity_error at let_binding_pair ++ (walk_name name scope).0, (walk_name name scope).1)
  walk_binding (expr (list (cons name (cons value more))) at) scope = (
    when_not (exprs_len more == 0) (note arity_error at let_binding_pair)
        ++ (walk value scope ++ (walk_name name scope).0),
    (walk_name name scope).1,
  )
  walk_binding (expr (symbol n) at) scope = (note type_error at let_binding_pair, scope)
  walk_binding (expr (literal v) at) scope = (note type_error at let_binding_pair, scope)
  walk_binding (expr signal at) scope = (note type_error at let_binding_pair, scope)
  walk_binding (expr (attr n) at) scope = (note type_error at let_binding_pair, scope)

  pub walk_fn : Exprs → List Bytes → List Error
  walk_fn nil scope = []
  walk_fn (cons params nil) scope = (walk_param_list (length scope) params scope).0
  walk_fn (cons params (cons body more)) scope =
      (walk_param_list (length scope) params scope).0
      ++ walk body (walk_param_list (length scope) params scope).1

pub record Analysis : Type 0 where
  pub signal_dependent : Bool
  pub diagnostics : List Error

unfoldable pub analyze : Expr → Analysis
analyze e = record { signal_dependent = is_signal_dependent e; diagnostics = walk e [] }
