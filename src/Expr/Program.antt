-- ===== src/Expr/Program.antt =====
-- What an evaluation does, as a program: the steps that touch the evaluator's state and the
-- evaluations it asks for (crates/expr/src/operand.rs, env.rs and the state of eval.rs).
use eieio.Base.{
  ℕ, zero, suc, ◌+◌, ◌-◌, ◌^◌, min, Bool, true, false, Option, none, some, List, Bytes, text_eq,
  ltb, if◌then◌else◌, Result, ok, err,
}
use eieio.Signal.Value.{Value, null, bool}
use eieio.Expr.Syntax.{
  Span, Error, Expr, EvalLimits, error, fuel, depth, fuel_exceeded, depth_exceeded,
}
use eieio.Expr.Builtin.{Entry, Call}

-- An operand's value is written without the way it is held: inline, borrowed or shared.
mutual
  pub data Operand : Type 0 where
    data_of : Value → Operand
    function : Function → Operand

  pub data Function : Type 0 where
    closure : List Bytes → Expr → Env → Function
    builtin : Entry → Function

  pub data Env : Type 0 where
    root : Env
    bind : Bytes → Operand → Env → Env

abbrev pub find_binding : Env → Bytes → Option Operand
find_binding root name = none
find_binding (bind n value parent) name =
    if text_eq n name then some value else find_binding parent name

abbrev pub truthy_value : Value → Bool
truthy_value (bool b) = b
truthy_value null = false
truthy_value (Value.int n) = true
truthy_value (Value.float f) = true
truthy_value (Value.str s) = true
truthy_value (Value.bytes b) = true
truthy_value (Value.array items) = true
truthy_value (Value.map entries) = true

abbrev pub is_truthy : Operand → Bool
is_truthy (data_of v) = truthy_value v
is_truthy (function f) = true

-- The calls by which the evaluator comes back to itself: `eval_operand` and `apply`.
pub data Task : Type 0 where
  evaluate : Expr → Env → Task
  applying : Function → List Operand → Call → Task

-- `ask` runs a task; `nest` enters a level, runs a program and leaves the level, also on an error.
pub data Program : Type 0 where
  ret : Operand → Program
  fail : Error → Program
  spend : Span → ℕ → Program → Program
  ask : Task → (Operand → Program) → Program
  nest : Span → Program → (Operand → Program) → Program

-- The `?` on a result that no state is touched for.
infixl 5 ◌>>=◌
abbrev pub ◌>>=◌ : {A : Type 0} → Result Error A → (A → Program) → Program
ok a >>= f = f a
err e >>= f = fail e

pub record State : Type 0 where
  pub fuel_spent : ℕ
  pub depth : ℕ

abbrev pub u32_max : ℕ
u32_max = 2 ^ 32 - 1

-- `fuel_spent.saturating_add(steps)`, and whether it is over the budget.
abbrev pub charge : State → ℕ → State
charge s steps = record s { fuel_spent = min (s.fuel_spent + steps) u32_max }

abbrev pub over_fuel : EvalLimits → State → Bool
over_fuel l s = ltb l.max_fuel s.fuel_spent

abbrev pub entered : State → State
entered s = record s { depth = s.depth + 1 }

abbrev pub left : State → State
left s = record s { depth = s.depth - 1 }

abbrev pub Outcome : Type 0 → Type 0
Outcome A = Option (Result Error A × State)

-- What follows a task, given how it ended; `none`: the model's fuel ran out.
abbrev pub continue : (Operand → State → Outcome Operand) → Outcome Operand → Outcome Operand
continue k none = none
continue k (some (ok a, s)) = k a s
continue k (some (err e, s)) = some (err e, s)

-- `self.leave()` after a task, whatever it came to.
abbrev pub leave : Outcome Operand → Outcome Operand
leave none = none
leave (some (r, s)) = some (r, left s)

module _ (l : EvalLimits) (rec : Task → State → Outcome Operand) where
  unfoldable pub interpret : Program → State → Outcome Operand
  interpret (ret a) s = some (ok a, s)
  interpret (fail e) s = some (err e, s)
  interpret (spend at n p) s =
      let rest = interpret p (charge s n) in
      if over_fuel l (charge s n)
      then some (err (error fuel at fuel_exceeded), charge s n)
      else rest
  interpret (ask t k) s = continue (λ a s'. interpret (k a) s') (rec t s)
  interpret (nest at p k) s =
      let inner = interpret p (entered s) in
      if ltb l.max_depth (s.depth + 1)
      then some (err (error depth at depth_exceeded), s)
      else continue (λ a s'. interpret (k a) s') (leave inner)

-- The evaluator: tasks run by their programs, on fuel of the model.
module _ (l : EvalLimits) (program : Task → Program) where
  unfoldable pub run : ℕ → Task → State → Outcome Operand
  run zero t s = none
  run (suc n) t s = interpret l (run n) (program t) s
