-- ===== src/Expr/Eval/Ends.antt =====
-- About the end of evaluations, by what each call of crates/expr/src/eval.rs spends.
use eieio.Base.{
  ℕ, zero, suc, ◌+◌, ◌-◌, ◌*◌, ◌≤◌, ◌<◌, ◌≢◌, refl, Option, none, some, inl, inr, arith, ok, err,
  length, ltb, ◌==◌, Bool-cases,
}
use eieio.Signal.Value.{Entries}
use eieio.Expr.Syntax.{
  EvalLimits, Error, Message, Expr, Span, span_of, error, arity_error, fn_call_arity,
}
use eieio.Expr.Builtin.{check_arity_of}
use eieio.Expr.Program.{
  Operand, Task, Program, State, Outcome, ret, fail, spend, ask, nest, interpret, run, continue,
  leave, charge, over_fuel, entered, u32_max, evaluate, applying, builtin, closure, root, data_of,
  function,
}
use eieio.Expr.Eval.{
  Implementation, program, apply, enough, checked, eval_node, bind_all, as_result, eval,
}
use eieio.Expr.Eval.Budgets.{Ended, Started, Sound, run-Ended, interpret-Ended, leave-Ended}

module _ (l : EvalLimits) where
  -- Tasks that are asked for from now on are answered.
  abbrev Answers : (Task → State → Outcome Operand) → State → Type 0
  Answers rec s =
      (t : Task) (s' : State) → s.fuel_spent ≤ s'.fuel_spent → Started l s' → rec t s' ≢ none

  continue_ends :
      (s : State) (k : Operand → State → Outcome Operand) (o : Outcome Operand)
      → o ≢ none
      → Started l s
      → Ended l s o
      → ((a : Operand) (s' : State) → s.fuel_spent ≤ s'.fuel_spent → Started l s' → k a s' ≢ none)
      → continue k o ≢ none
  continue_ends s k none ho start h hk = ho
  continue_ends s k (some (ok a, s')) ho start h hk = hk a s' h.1 (h.2, start.1)
  continue_ends s k (some (err e, s')) ho start h hk = λ e. cc

  leave_ends : (o : Outcome Operand) → o ≢ none → leave o ≢ none
  leave_ends none h = h
  leave_ends (some r) h = λ e. cc

  module _ (rec : Task → State → Outcome Operand) (sound : Sound l rec) where
    interpret_ends :
        (p : Program) (s : State) → Started l s → Answers rec s → interpret l rec p s ≢ none
    unfolding interpret
    interpret_ends (ret a) s h answers = λ e. cc
    interpret_ends (fail e) s h answers = λ e. cc
    interpret_ends (spend at n p) s h answers = elim (Bool-cases (over_fuel l (charge s n))) [
      | inl over ↦ rw over (λ e. cc)
      | inr within ↦ rw within (
          interpret_ends p (charge s n) (ground arith, h.1)
            (λ t s' le start. answers t s' (ground arith) start))
    ]
    interpret_ends (ask t k) s h answers =
        continue_ends s (λ a s'. interpret l rec (k a) s') (rec t s) (answers t s (omega arith) h) h
          (sound t s h)
          (λ a s' le start.
            interpret_ends (k a) s' start
              (λ t' s'' le' start'. answers t' s'' (omega arith) start'))
    interpret_ends (nest at p k) s h answers = elim (Bool-cases (ltb l.max_depth (s.depth + 1))) [
      | inl over ↦ rw over (λ e. cc)
      | inr within ↦ rw within (
          continue_ends s (λ a s'. interpret l rec (k a) s') (leave (interpret l rec p (entered s)))
            (leave_ends (interpret l rec p (entered s)) (interpret_ends p (entered s) h answers)) h
            (leave-Ended l s (interpret l rec p (entered s))
              (interpret-Ended l rec sound p (entered s) h))
            (λ a s' le start.
              interpret_ends (k a) s' start
                (λ t' s'' le' start'. answers t' s'' (omega arith) start')))
    ]

    -- A program that spends first is answered by what answers after the step.
    spend_ends :
        (at : Span) (p : Program) (s : State)
        → Started l s
        → l.max_fuel < u32_max
        → ((s' : State) → suc s.fuel_spent ≤ s'.fuel_spent → Answers rec s')
        → interpret l rec (spend at 1 p) s ≢ none
    unfolding interpret
    spend_ends at p s h small answers = elim (Bool-cases (over_fuel l (charge s 1))) [
      | inl over ↦ rw over (λ e. cc)
      | inr within ↦ rw within (
          interpret_ends p (charge s 1) (ground arith, h.1)
            (λ t s' le start. answers (charge s 1) (ground arith) t s' le start))
    ]

    fail_ends : (e : Error) (s : State) → interpret l rec (fail e) s ≢ none
    unfolding interpret
    fail_ends e s = λ e. cc

    checked_ends :
        (at : Span) (o : Option Message) (p : Program) (s : State)
        → interpret l rec p s ≢ none
        → interpret l rec (checked at o p) s ≢ none
    checked_ends at none p s h = h
    checked_ends at (some m) p s h = fail_ends (error arity_error at m) s

    -- A level around one task ends when the task does.
    nest_ends :
        (at : Span) (t : Task) (s : State)
        → Started l s
        → rec t (entered s) ≢ none
        → interpret l rec (nest at (ask t ret) ret) s ≢ none
    unfolding interpret
    nest_ends at t s h answered = elim (Bool-cases (ltb l.max_depth (s.depth + 1))) [
      | inl over ↦ rw over (λ e. cc)
      | inr within ↦ rw within (
          continue_ends s (λ a s'. some (ok a, s'))
            (leave (continue (λ a s'. some (ok a, s')) (rec t (entered s))))
            (leave_ends (continue (λ a s'. some (ok a, s')) (rec t (entered s))) (
              continue_ends (entered s) (λ a s'. some (ok a, s')) (rec t (entered s)) answered h
                (sound t (entered s) h) (λ a s' le start e. cc)))
            h
            (leave-Ended l s (interpret l rec (ask t ret) (entered s))
              (interpret-Ended l rec sound (ask t ret) (entered s) h))
            (λ a s' le start e. cc))
    ]

-- How many tasks may lie below one, by what is left of the budget.
abbrev need : EvalLimits → Task → State → ℕ
need l (evaluate e env) s = 2 * (l.max_fuel - s.fuel_spent) + 1
need l (applying f args call) s = 2 * (l.max_fuel - s.fuel_spent) + 2

need_lem :
    (l : EvalLimits) (t : Task) (s : State) → need l t s ≤ 2 * (l.max_fuel - s.fuel_spent) + 2
need_lem l (evaluate e env) s = omega arith
need_lem l (applying f args call) s = omega arith

module _ (implementation : Implementation) (l : EvalLimits) (fields : Option Entries) where
  run_ends :
      (n : ℕ) (t : Task) (s : State)
      → Started l s
      → l.max_fuel < u32_max
      → need l t s ≤ n
      → run l (program implementation l fields) n t s ≢ none
  unfolding run program apply
  run_ends zero (evaluate e env) s h small enough_fuel = absurd (omega arith)
  run_ends zero (applying f args call) s h small enough_fuel = absurd (omega arith)
  run_ends (suc n) (evaluate e env) s h small enough_fuel =
      spend_ends l (run l (program implementation l fields) n)
        (run-Ended l (program implementation l fields) n) (span_of e) (eval_node fields e env) s h
        small
        (λ s' le t s'' le' start. run_ends n t s'' start small (omega (arith, need_lem l t s'')))
  run_ends (suc n) (applying (builtin e) args call) s h small enough_fuel =
      checked_ends l (run l (program implementation l fields) n)
        (run-Ended l (program implementation l fields) n) call.span
        (check_arity_of e.arity (length args))
        (spend call.span 1 (implementation l e.implementation args call)) s
        (spend_ends l (run l (program implementation l fields) n)
          (run-Ended l (program implementation l fields) n) call.span
          (implementation l e.implementation args call) s h small
          (λ s' le t s'' le' start. run_ends n t s'' start small (omega (arith, need_lem l t s''))))
  run_ends (suc n) (applying (closure ps body env) args call) s h small enough_fuel =
      elim (Bool-cases (length ps == length args)) [
        | inl same ↦ rw same (
            nest_ends l (run l (program implementation l fields) n)
              (run-Ended l (program implementation l fields) n) call.span
              (evaluate body (bind_all env ps args)) s h
              (run_ends n (evaluate body (bind_all env ps args)) (entered s) h small (omega arith)))
        | inr differ ↦ rw differ (
            fail_ends l (run l (program implementation l fields) n)
              (run-Ended l (program implementation l fields) n)
              (error arity_error call.span fn_call_arity) s)
      ]

  as_result_ends : (at : Span) (o : Outcome Operand) → o ≢ none → as_result at o ≢ none
  unfolding as_result
  as_result_ends at none h = absurd (h refl)
  as_result_ends at (some (ok (data_of v), s)) h = λ e. cc
  as_result_ends at (some (ok (function f), s)) h = λ e. cc
  as_result_ends at (some (err e, s)) h = λ e. cc

  -- For every table of implementations, an evaluation that starts within the budget comes to a
  -- value or an error within `enough` fuel of the model, if the budget is below the largest
  -- `u32` (at that one the saturating count never passes it).
  pub eval_ends :
      (e : Expr) (s : State)
      → s.fuel_spent ≤ l.max_fuel
      → l.max_fuel < u32_max
      → eval implementation l fields e s ≢ none
  unfolding eval
  eval_ends e s h small =
      as_result_ends (span_of e)
        (run l (program implementation l fields) (enough l) (evaluate e root) s)
        (run_ends (enough l) (evaluate e root) s (h, omega arith) small (omega arith))
