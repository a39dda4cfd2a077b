-- ===== src/Expr/Eval/Folding.antt =====
-- About constant folding: `is_signal_dependent` of crates/expr/src/ast.rs, against
-- crates/expr/src/eval.rs.
use eieio.Base.{
  ◌≡◌, refl, ap, Bool, true, false, Option, none, some, arith, List, [], ◌∷◌, ◌++◌, Bytes, All,
  All-append, length, ◌==◌, if◌then◌else◌,
}
use eieio.Signal.Value.{Entries, bool}
use eieio.Expr.Syntax.{
  EvalLimits, Message, Expr, Span, is_signal_dependent, expr, literal, symbol, signal, attr, list,
  items_of, span_of, error, arity_error, fn_call_arity,
}
use eieio.Expr.Builtin.{
  SpecialForm, Call, check_arity_of, if_form, let_form, fn_form, and_form, or_form,
}
use eieio.Expr.Program.{
  Operand, Function, Env, Task, Program, State, ret, fail, spend, ask, nest, evaluate, applying,
  builtin, closure, root, bind, data_of, function, find_binding, is_truthy,
}
use eieio.Expr.Eval.{
  Implementation, program, apply, enough, eval_node, bind_all, eval, eval_and, eval_or, eval_args,
  eval_call, eval_form, eval_list, apply_to, checked, head_form, as_result,
}
use eieio.Expr.Eval.Obeys.{run-Agree}
use eieio.Expr.Eval.Blind.{
  Blind, BlindOperand, BlindFunction, BlindEnv, BlindTask, AnyError, BlindProgram,
  BlindImplementation, list-Blind, find_binding-Blind, resolve-Blind, eval_if-Blind, eval_let-Blind,
  eval_fn-Blind,
}

if-Blind :
    (test : Bool) (p q : Program)
    → BlindProgram p
    → BlindProgram q
    → BlindProgram (if test then p else q)
if-Blind true p q hp hq = hp
if-Blind false p q hp hq = hq

eval_and-Blind :
    (es : List Expr) (env : Env) (last : Operand)
    → All Blind es
    → BlindEnv env
    → BlindOperand last
    → BlindProgram (eval_and es env last)
unfolding eval_and
eval_and-Blind [] env last h he hl = hl
eval_and-Blind (e ∷ es) env last h he hl = (
  (h.0, he),
  (λ a v. if-Blind (is_truthy a) (eval_and es env a) (ret a) (eval_and-Blind es env a h.1 he v) v),
)

eval_or-Blind :
    (es : List Expr) (env : Env) (last : Operand)
    → All Blind es
    → BlindEnv env
    → BlindOperand last
    → BlindProgram (eval_or es env last)
unfolding eval_or
eval_or-Blind [] env last h he hl = hl
eval_or-Blind (e ∷ es) env last h he hl = (
  (h.0, he),
  (λ a v. if-Blind (is_truthy a) (ret a) (eval_or es env a) v (eval_or-Blind es env a h.1 he v)),
)

eval_args-Blind :
    (es : List Expr) (env : Env) (args : List Operand) (k : List Operand → Program)
    → All Blind es
    → BlindEnv env
    → All BlindOperand args
    → ((args : List Operand) → All BlindOperand args → BlindProgram (k args))
    → BlindProgram (eval_args es env args k)
unfolding eval_args
eval_args-Blind [] env args k h he ha hk = hk args ha
eval_args-Blind (e ∷ es) env args k h he ha hk = (
  (h.0, he),
  (λ a v.
      eval_args-Blind es env (args ++ a ∷ []) k h.1 he
        (All-append BlindOperand args (a ∷ []) ha (v, tt)) hk),
)

apply_to-Blind :
    (head_span : Span) (a : Operand) (at : Span) (es : List Expr) (env : Env)
    → BlindOperand a
    → All Blind es
    → BlindEnv env
    → BlindProgram (apply_to head_span a at es env)
unfolding apply_to
apply_to-Blind hs (data_of v) at es env ha h he = tt
apply_to-Blind hs (function f) at es env ha h he =
    eval_args-Blind es env []
      (λ args. ask (applying f args (record { span = at; args = some es })) ret) h he tt
      (λ args hargs. ((ha, hargs), (λ a v. v)))

eval_form-Blind :
    (form : SpecialForm) (at : Span) (es : List Expr) (env : Env)
    → All Blind es
    → BlindEnv env
    → BlindProgram (eval_form form at es env)
unfolding eval_form
eval_form-Blind if_form at es env h he = eval_if-Blind at es env h he
eval_form-Blind let_form at es env h he = eval_let-Blind at es env h he
eval_form-Blind fn_form at es env h he = eval_fn-Blind at es env h he
eval_form-Blind and_form at es env h he = eval_and-Blind es env (data_of (bool true)) h he tt
eval_form-Blind or_form at es env h he = eval_or-Blind es env (data_of (bool false)) h he tt

eval_list-Blind :
    (at : Span) (es : List Expr) (env : Env)
    → All Blind es
    → BlindEnv env
    → BlindProgram (eval_list at es env)
unfolding eval_list eval_call
eval_list-Blind at [] env h he = tt
eval_list-Blind at (head ∷ rest) env h he = form_or_call (head_form head)
  where
    form_or_call :
        (o : Option SpecialForm)
        → BlindProgram
            (elim o [ some form ↦ eval_form form at rest env | none ↦ eval_call at head rest env ])
    form_or_call (some form) = eval_form-Blind form at rest env h.1 he
    form_or_call none = ((h.0, he), (λ a v. apply_to-Blind (span_of head) a at rest env v h.1 he))

eval_node-Blind :
    (fields : Option Entries) (e : Expr) (env : Env)
    → Blind e
    → BlindEnv env
    → BlindProgram (eval_node fields e env)
unfolding eval_node is_signal_dependent
eval_node-Blind fields (expr (literal v) at) env h he = tt
eval_node-Blind fields (expr (symbol name) at) env h he =
    resolve-Blind name at (find_binding env name) (λ a e. find_binding-Blind env name a he e)
eval_node-Blind fields (expr signal at) env h he = absurd (ground arith)
eval_node-Blind fields (expr (attr name) at) env h he = absurd (ground arith)
eval_node-Blind fields (expr (list es) at) env h he =
    (eval_list-Blind at (items_of es) env (list-Blind es at h) he, (λ a v. v))

bind_all-Blind :
    (env : Env) (ns : List Bytes) (args : List Operand)
    → BlindEnv env
    → All BlindOperand args
    → BlindEnv (bind_all env ns args)
bind_all-Blind env [] args he ha = he
bind_all-Blind env (n ∷ ns) [] he ha = he
bind_all-Blind env (n ∷ ns) (a ∷ args) he ha = bind_all-Blind (bind n a env) ns args (ha.0, he) ha.1

eval_node-same :
    (fields fields' : Option Entries) (e : Expr) (env : Env)
    → Blind e
    → eval_node fields e env ≡ eval_node fields' e env
unfolding eval_node is_signal_dependent
eval_node-same fields fields' (expr (literal v) at) env h = refl
eval_node-same fields fields' (expr (symbol name) at) env h = refl
eval_node-same fields fields' (expr signal at) env h = absurd (ground arith)
eval_node-same fields fields' (expr (attr name) at) env h = absurd (ground arith)
eval_node-same fields fields' (expr (list es) at) env h = refl

module _ (implementation : Implementation) (blind : BlindImplementation implementation)
    (l : EvalLimits) where
  apply-Blind :
      (f : Function) (args : List Operand) (call : Call)
      → BlindFunction f
      → All BlindOperand args
      → BlindProgram (apply implementation l f args call)
  unfolding apply
  apply-Blind (builtin e) args call hf ha = arity_first (check_arity_of e.arity (length args))
    where
      arity_first :
          (o : Option Message)
          → BlindProgram (
              checked call.span o (spend call.span 1 (implementation l e.implementation args call)))
      arity_first none = blind l e.implementation args call ha
      arity_first (some m) = tt
  apply-Blind (closure ps body env) args call hf ha = same_count (length ps == length args)
    where
      same_count :
          (test : Bool)
          → BlindProgram (
              if test
              then nest call.span (ask (evaluate body (bind_all env ps args)) ret) ret
              else fail (error arity_error call.span fn_call_arity))
      same_count true = (((hf.0, bind_all-Blind env ps args hf.1 ha), (λ a v. v)), (λ a v. v))
      same_count false = tt

  program-Blind :
      (fields : Option Entries) (t : Task)
      → BlindTask t
      → BlindProgram (program implementation l fields t)
  unfolding program
  program-Blind fields (evaluate e env) h = eval_node-Blind fields e env h.0 h.1
  program-Blind fields (applying f args call) h = apply-Blind f args call h.0 h.1

  program-same :
      (fields fields' : Option Entries) (t : Task)
      → BlindTask t
      → program implementation l fields t ≡ program implementation l fields' t
  unfolding program
  program-same fields fields' (evaluate e env) h =
      ap (spend (span_of e) 1) (eval_node-same fields fields' e env h.0)
  program-same fields fields' (applying f args call) h = refl

  -- An expression that `is_signal_dependent` says is free of sigils evaluates to the same value
  -- or error, with the same fuel spent, under any two signals and outside a signal context, when
  -- the builtins handle only the operands they are given and those that their calls return. So
  -- the result that is kept from one evaluation stands for every later signal.
  pub eval_constant :
      (e : Expr) (fields fields' : Option Entries) (s : State)
      → is_signal_dependent e ≡ false
      → eval implementation l fields e s ≡ eval implementation l fields' e s
  unfolding eval
  eval_constant e fields fields' s h = ap (as_result (span_of e)) (
      run-Agree BlindOperand BlindTask AnyError l (λ at. (tt, tt)) (program implementation l fields)
        (program implementation l fields') (program-Blind fields) (program-same fields fields')
        (enough l) (evaluate e root) s (h, tt))
