-- ===== src/Expr/Eval/Blind.antt =====
-- About expressions without sigils (`is_signal_dependent` of crates/expr/src/ast.rs) and what may
-- still run one, in the special forms of crates/expr/src/eval.rs.
use eieio.Base.{
  ◌≡◌, refl, subst, Bool, true, false, Option, none, some, inl, inr, arith, List, [], ◌∷◌, Bytes,
  text_eq, All, Result, ok, err, if◌then◌else◌, Bool-cases, or-false,
}
use mathlib.Core.Option.{some-injective}
use eieio.Expr.Syntax.{
  EvalLimits, Error, Expr, Exprs, Span, is_signal_dependent, any_signal_dependent, expr, literal,
  symbol, signal, attr, list, nil, cons, items_of, let_binding_name,
}
use eieio.Expr.Builtin.{Builtin, Entry, Call, lookup}
use eieio.Expr.Program.{
  Operand, Function, Env, Task, Program, ret, ask, evaluate, applying, builtin, closure, root, bind,
  data_of, function, find_binding, is_truthy, ◌>>=◌,
}
use eieio.Expr.Eval.{
  Implementation, resolve, resolve_builtin, eval_if, eval_let, eval_fn, let_in, let_bindings_loop,
  fn_of, binding_name, param_names,
}
use eieio.Expr.Eval.Obeys.{Obeys}

abbrev pub Blind : Expr → Type 0
Blind e = is_signal_dependent e ≡ false

-- Every expression that an operand may still run is blind.
abbrev mutual
  pub BlindOperand : Operand → Type 0
  BlindOperand (data_of v) = Unit
  BlindOperand (function f) = BlindFunction f

  pub BlindFunction : Function → Type 0
  BlindFunction (closure params body env) = Blind body × BlindEnv env
  BlindFunction (builtin e) = Unit

  pub BlindEnv : Env → Type 0
  BlindEnv root = Unit
  BlindEnv (bind n a env) = BlindOperand a × BlindEnv env

abbrev pub BlindTask : Task → Type 0
BlindTask (evaluate e env) = Blind e × BlindEnv env
BlindTask (applying f args call) = BlindFunction f × All BlindOperand args

abbrev pub AnyError : Error → Type 0
AnyError e = Unit

abbrev pub BlindProgram : Program → Type 0
BlindProgram p = Obeys BlindOperand BlindTask AnyError p

-- An implementation handles no operand but those it is given and what its calls return.
abbrev pub BlindImplementation : Implementation → Type 0
BlindImplementation implementation =
    (l : EvalLimits) (b : Builtin) (args : List Operand) (call : Call)
    → All BlindOperand args
    → BlindProgram (implementation l b args call)

pub items-Blind : (es : Exprs) → any_signal_dependent es ≡ false → All Blind (items_of es)
unfolding any_signal_dependent
items-Blind nil h = tt
items-Blind (cons e es) h =
    let both : (is_signal_dependent e ≡ false) × (any_signal_dependent es ≡ false) =
      or-false (is_signal_dependent e) (any_signal_dependent es) h in
    (both.0, items-Blind es both.1)

pub list-Blind : (es : Exprs) (at : Span) → Blind (expr (list es) at) → All Blind (items_of es)
unfolding is_signal_dependent
list-Blind es at h = items-Blind es h

pub find_binding-Blind :
    (env : Env) (name : Bytes) (a : Operand)
    → BlindEnv env
    → find_binding env name ≡ some a
    → BlindOperand a
find_binding-Blind root name a h e = absurd (ground arith)
find_binding-Blind (bind n b env) name a h e = elim (Bool-cases (text_eq n name)) [
  | inl same ↦ subst BlindOperand (some-injective b a (rw same at e)) h.0
  | inr other ↦ find_binding-Blind env name a h.1 (rw other at e)
]

pub resolve_builtin-Blind :
    (name : Bytes) (at : Span) (o : Option Entry) → BlindProgram (resolve_builtin name at o >>= ret)
unfolding resolve_builtin
resolve_builtin-Blind name at none = tt
resolve_builtin-Blind name at (some e) = tt

pub resolve-Blind :
    (name : Bytes) (at : Span) (o : Option Operand)
    → ((a : Operand) → o ≡ some a → BlindOperand a)
    → BlindProgram (resolve name at o >>= ret)
unfolding resolve
resolve-Blind name at (some a) h = h a refl
resolve-Blind name at none h = resolve_builtin-Blind name at (lookup name)

pub then-Blind :
    {A : Type 0} (r : Result Error A) (k : A → Program)
    → ((a : A) → BlindProgram (k a))
    → BlindProgram (r >>= k)
then-Blind (ok a) k h = h a
then-Blind (err e) k h = tt

pub eval_if-Blind :
    (at : Span) (es : List Expr) (env : Env)
    → All Blind es
    → BlindEnv env
    → BlindProgram (eval_if at es env)
unfolding eval_if
eval_if-Blind at [] env h he = tt
eval_if-Blind at (c ∷ []) env h he = tt
eval_if-Blind at (c ∷ t ∷ []) env h he = tt
eval_if-Blind at (c ∷ t ∷ e ∷ x ∷ xs) env h he = tt
eval_if-Blind at (c ∷ t ∷ e ∷ []) env h he =
    ((h.0, he), (λ a v. ((branch (is_truthy a), he), (λ b w. w))))
  where
    branch : (test : Bool) → Blind (if test then t else e)
    branch true = h.1.0
    branch false = h.1.1.0

pub let_bindings_loop-Blind :
    (es : List Expr) (body : Expr) (scope : Env)
    → All Blind es
    → Blind body
    → BlindEnv scope
    → BlindProgram (let_bindings_loop es body scope)
unfolding let_bindings_loop
let_bindings_loop-Blind [] body scope h hb he = ((hb, he), (λ a v. v))
let_bindings_loop-Blind (expr (list (cons name (cons value nil))) at ∷ rest) body scope h hb he =
    then-Blind (binding_name name let_binding_name)
      (λ n. ask (evaluate value scope) (λ a. let_bindings_loop rest body (bind n a scope)))
      (λ n. (
        ((list-Blind (cons name (cons value nil)) at h.0).1.0, he),
        (λ a v. let_bindings_loop-Blind rest body (bind n a scope) h.1 hb (v, he)),
      ))
let_bindings_loop-Blind (expr (list nil) at ∷ rest) body scope h hb he = tt
let_bindings_loop-Blind (expr (list (cons n nil)) at ∷ rest) body scope h hb he = tt
let_bindings_loop-Blind (expr (list (cons n (cons v (cons x xs)))) at ∷ rest) body scope h hb he =
    tt
let_bindings_loop-Blind (expr (literal v) at ∷ rest) body scope h hb he = tt
let_bindings_loop-Blind (expr (symbol n) at ∷ rest) body scope h hb he = tt
let_bindings_loop-Blind (expr signal at ∷ rest) body scope h hb he = tt
let_bindings_loop-Blind (expr (attr n) at ∷ rest) body scope h hb he = tt

pub let_in-Blind :
    (e body : Expr) (env : Env)
    → Blind e
    → Blind body
    → BlindEnv env
    → BlindProgram (let_in e body env)
unfolding let_in
let_in-Blind (expr (list bs) at) body env h hb he =
    let_bindings_loop-Blind (items_of bs) body env (list-Blind bs at h) hb he
let_in-Blind (expr (literal v) at) body env h hb he = tt
let_in-Blind (expr (symbol n) at) body env h hb he = tt
let_in-Blind (expr signal at) body env h hb he = tt
let_in-Blind (expr (attr n) at) body env h hb he = tt

pub eval_let-Blind :
    (at : Span) (es : List Expr) (env : Env)
    → All Blind es
    → BlindEnv env
    → BlindProgram (eval_let at es env)
unfolding eval_let
eval_let-Blind at [] env h he = tt
eval_let-Blind at (b ∷ []) env h he = tt
eval_let-Blind at (b ∷ c ∷ []) env h he = let_in-Blind b c env h.0 h.1.0 he
eval_let-Blind at (b ∷ c ∷ x ∷ xs) env h he = tt

pub fn_of-Blind :
    (e body : Expr) (env : Env) → Blind body → BlindEnv env → BlindProgram (fn_of e body env)
unfolding fn_of
fn_of-Blind (expr (list ps) at) body env hb he =
    then-Blind (param_names (items_of ps) []) (λ names. ret (function (closure names body env)))
      (λ names. (hb, he))
fn_of-Blind (expr (literal v) at) body env hb he = tt
fn_of-Blind (expr (symbol n) at) body env hb he = tt
fn_of-Blind (expr signal at) body env hb he = tt
fn_of-Blind (expr (attr n) at) body env hb he = tt

pub eval_fn-Blind :
    (at : Span) (es : List Expr) (env : Env)
    → All Blind es
    → BlindEnv env
    → BlindProgram (eval_fn at es env)
unfolding eval_fn
eval_fn-Blind at [] env h he = tt
eval_fn-Blind at (b ∷ []) env h he = tt
eval_fn-Blind at (b ∷ c ∷ []) env h he = fn_of-Blind b c env h.1.0 he
eval_fn-Blind at (b ∷ c ∷ x ∷ xs) env h he = tt
