-- ===== src/Expr/Analyze/Names.antt =====
-- About the analysis of crates/expr/src/analyze.rs and the names that an evaluation looks up.
use mathlib.Core.Option.{some-injective}
use eieio.Base.{
  ◌≡◌, ◌⊎◌, inl, inr, refl, ap, subst, Bool, true, false, ◌||◌, Option, none, some, List, [], ◌∷◌,
  Bytes, text_eq, arith, All, length, ◌==◌, ==_iff, if-splits, ok, err,
}
use eieio.Signal.Value.{Value, Entries}
use eieio.Expr.Syntax.{
  Error, Expr, EvalLimits, Message, Span, error, span_of, arity_error, fn_call_arity, type_error,
  function_result,
}
use eieio.Expr.Builtin.{Call, check_arity_of}
use eieio.Expr.Program.{
  Operand, Function, Env, Task, State, Outcome, data_of, function, closure, builtin, root, bind,
  evaluate, applying, ret, fail, spend, ask, nest, run,
}
use eieio.Expr.Eval.{Implementation, program, apply, checked, bind_all, eval, enough, as_result}
use eieio.Expr.Eval.Obeys.{Kept, run-Kept}
use eieio.Expr.Builtin.Reads.{is_unbound}
use eieio.Expr.Builtin.KeepsTable.{AllKeep}
use eieio.Expr.Analyze.{analyze, contains}
use eieio.Expr.Analyze.Bound.{
  Found, BoundOperand, BoundFunction, BoundEnv, BoundTask, NotUnbound, BoundProgram, Found-bind,
  Found-here, text_eq_sym,
}
use eieio.Expr.Analyze.Lists.{eval_node-Bound}

bind_all-old :
    (env : Env) (ps : List Bytes) (args : List Operand) (n : Bytes)
    → Found env n
    → Found (bind_all env ps args) n
bind_all-old env [] args n h = h
bind_all-old env (p ∷ ps) [] n h = h
bind_all-old env (p ∷ ps) (a ∷ args) n h =
    bind_all-old (bind p a env) ps args n (Found-bind env p n a h)

bind_all-new :
    (env : Env) (ps : List Bytes) (args : List Operand) (n : Bytes)
    → length ps ≡ length args
    → contains ps n ≡ true
    → Found (bind_all env ps args) n
bind_all-new env [] args n e h = absurd (ground arith)
bind_all-new env (p ∷ ps) [] n e h = absurd (omega arith)
bind_all-new env (p ∷ ps) (a ∷ args) n e h =
    by_first (text_eq n p) refl h (λ h'. bind_all-new (bind p a env) ps args n (omega arith) h')
  where
    by_first :
        (test : Bool)
        → text_eq n p ≡ test
        → (test || contains ps n) ≡ true
        → (contains ps n ≡ true → Found (bind_all (bind p a env) ps args) n)
        → Found (bind_all (bind p a env) ps args) n
    by_first true t h k =
        bind_all-old (bind p a env) ps args n (Found-here env p n a (text_eq_sym n p t))
    by_first false t h k = k h

bind_all-Bound :
    (env : Env) (ps : List Bytes) (args : List Operand)
    → BoundEnv env
    → All BoundOperand args
    → BoundEnv (bind_all env ps args)
bind_all-Bound env [] args h ha = h
bind_all-Bound env (p ∷ ps) [] h ha = h
bind_all-Bound env (p ∷ ps) (a ∷ args) h ha = bind_all-Bound (bind p a env) ps args (ha.0, h) ha.1

abbrev error_of : Outcome Value → Option Error
error_of none = none
error_of (some (ok v, s)) = none
error_of (some (err e, s)) = some e

module _ (implementation : Implementation)
    (keep : AllKeep BoundOperand BoundTask NotUnbound implementation) (l : EvalLimits) where
  apply-Bound :
      (f : Function) (args : List Operand) (call : Call)
      → BoundFunction f
      → All BoundOperand args
      → BoundProgram (apply implementation l f args call)
  unfolding apply
  apply-Bound (builtin e) args call hf ha = arity_first (check_arity_of e.arity (length args))
    where
      arity_first :
          (o : Option Message)
          → BoundProgram (
              checked call.span o (spend call.span 1 (implementation l e.implementation args call)))
      arity_first none = keep l e.implementation args call ha
      arity_first (some m) = refl
  apply-Bound (closure ps body env) args call ((scope, names, hw), he) ha =
      if-splits BoundProgram (length ps == length args)
        (nest call.span (ask (evaluate body (bind_all env ps args)) ret) ret)
        (fail (error arity_error call.span fn_call_arity))
        (λ same. (
          (
            (
              scope,
              (
                (λ n hn. both n ((==_iff (length ps) (length args)).0 same) (names n hn)),
                bind_all-Bound env ps args he ha,
              ),
              hw,
            ),
            (λ a v. v),
          ),
          (λ a v. v),
        ))
        (λ differ. refl)
    where
      both :
          (n : Bytes)
          → length ps ≡ length args
          → Found env n ⊎ (contains ps n ≡ true)
          → Found (bind_all env ps args) n
      both n e (inl old) = bind_all-old env ps args n old
      both n e (inr new) = bind_all-new env ps args n e new

  program-Bound :
      (fields : Option Entries) (t : Task)
      → BoundTask t
      → BoundProgram (program implementation l fields t)
  unfolding program
  program-Bound fields (evaluate e env) (scope, h, hw) = eval_node-Bound fields e scope env h hw
  program-Bound fields (applying f args call) h = apply-Bound f args call h.0 h.1

  bound_result :
      (at : Span) (o : Outcome Operand) (er : Error) (s' : State)
      → Kept BoundOperand BoundTask NotUnbound o
      → as_result at o ≡ some (err er, s')
      → is_unbound er ≡ false
  unfolding as_result
  bound_result at none er s' h e = absurd (ground arith)
  bound_result at (some (ok (data_of v), s)) er s' h e = absurd (ground arith)
  bound_result at (some (ok (function f), s)) er s' h e =
      subst NotUnbound (some-injective (error type_error at function_result) er (ap error_of e))
        refl
  bound_result at (some (err er', s)) er s' h e =
      subst NotUnbound (some-injective er' er (ap error_of e)) h

  -- When the analysis of an expression has no diagnostics, evaluating it under any signal and from
  -- any state of the evaluator never ends in an error for an unbound name, if the builtins'
  -- implementations handle only the operands they are given and raise no such error.
  pub analyze-Bound :
      (fields : Option Entries) (e : Expr) (s : State) (er : Error) (s' : State)
      → (analyze e).diagnostics ≡ []
      → eval implementation l fields e s ≡ some (err er, s')
      → is_unbound er ≡ false
  unfolding analyze eval
  analyze-Bound fields e s er s' h he =
      bound_result (span_of e)
        (run l (program implementation l fields) (enough l) (evaluate e root) s) er s'
        (run-Kept BoundOperand BoundTask NotUnbound l (λ at. (refl, refl))
          (program implementation l fields) (program-Bound fields) (enough l) (evaluate e root) s
          ([], ((λ n hn. absurd (ground arith)), tt), h))
        he
