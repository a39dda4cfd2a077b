-- ===== src/Expr/Eval/Budgets.antt =====
-- About the budgets of crates/expr/src/eval.rs: `spend`, `enter` and `leave`.
use eieio.Base.{
  ℕ, zero, suc, ◌+◌, ◌≤◌, ◌≡◌, refl, none, some, arith, ok, err, inl, inr, ltb, Bool-cases,
}
use eieio.Expr.Syntax.{EvalLimits}
use eieio.Expr.Program.{
  Operand, Task, Program, State, Outcome, ret, fail, spend, ask, nest, interpret, run, continue,
  leave, charge, over_fuel, entered, u32_max,
}

module _ (l : EvalLimits) where
  -- How the state after compares with the state before: a success is within the fuel budget,
  -- an error may have passed it.
  abbrev pub Ended : {A : Type 0} → State → Outcome A → Type 0
  Ended s none = Unit
  Ended s (some (ok a, s')) =
      (s'.depth ≡ s.depth) × (s.fuel_spent ≤ s'.fuel_spent) × (s'.fuel_spent ≤ l.max_fuel)
  Ended s (some (err e, s')) =
      (s'.depth ≡ s.depth) × (s.fuel_spent ≤ s'.fuel_spent) × (s'.fuel_spent ≤ u32_max)

  abbrev pub Started : State → Type 0
  Started s = (s.fuel_spent ≤ l.max_fuel) × (l.max_fuel ≤ u32_max)

  abbrev pub Sound : (Task → State → Outcome Operand) → Type 0
  Sound rec = (t : Task) (s : State) → Started s → Ended s (rec t s)

  Ended-trans :
      {A : Type 0} (s s' : State) (o : Outcome A)
      → s'.depth ≡ s.depth
      → s.fuel_spent ≤ s'.fuel_spent
      → Ended s' o
      → Ended s o
  Ended-trans s s' none d f h = tt
  Ended-trans s s' (some (ok a, s'')) d f h = (omega arith, omega arith, h.2)
  Ended-trans s s' (some (err e, s'')) d f h = (omega arith, omega arith, h.2)

  continue-Ended :
      (s : State) (k : Operand → State → Outcome Operand) (o : Outcome Operand)
      → ((a : Operand) (s' : State) → Started s' → Ended s' (k a s'))
      → Started s
      → Ended s o
      → Ended s (continue k o)
  continue-Ended s k none hk start h = tt
  continue-Ended s k (some (ok a, s')) hk start h =
      Ended-trans s s' (k a s') h.0 h.1 (hk a s' (h.2, start.1))
  continue-Ended s k (some (err e, s')) hk start h = h

  pub leave-Ended : (s : State) (o : Outcome Operand) → Ended (entered s) o → Ended s (leave o)
  leave-Ended s none h = tt
  leave-Ended s (some (ok a, s')) h = (omega arith, h.1, h.2)
  leave-Ended s (some (err e, s')) h = (omega arith, h.1, h.2)

  module _ (rec : Task → State → Outcome Operand) (sound : Sound rec) where
    pub interpret-Ended : (p : Program) (s : State) → Started s → Ended s (interpret l rec p s)
    unfolding interpret
    interpret-Ended (ret a) s h = (refl, omega arith, h.0)
    interpret-Ended (fail e) s h = (refl, omega arith, omega arith)
    interpret-Ended (spend at n p) s h = elim (Bool-cases (over_fuel l (charge s n))) [
      | inl over ↦ rw over (refl, ground arith, ground arith)
      | inr within ↦ rw within (
          Ended-trans s (charge s n) (interpret l rec p (charge s n)) refl (ground arith)
            (interpret-Ended p (charge s n) (ground arith, h.1)))
    ]
    interpret-Ended (ask t k) s h =
        continue-Ended s (λ a s'. interpret l rec (k a) s') (rec t s)
          (λ a s' start. interpret-Ended (k a) s' start) h (sound t s h)
    interpret-Ended (nest at p k) s h = elim (Bool-cases (ltb l.max_depth (s.depth + 1))) [
      | inl over ↦ rw over (refl, omega arith, omega arith)
      | inr within ↦ rw within (
          continue-Ended s (λ a s'. interpret l rec (k a) s')
            (leave (interpret l rec p (entered s))) (λ a s' start. interpret-Ended (k a) s' start) h
            (leave-Ended s (interpret l rec p (entered s)) (interpret-Ended p (entered s) h)))
    ]

  -- Whatever a task's program does, and however far the model's fuel goes, a run that started
  -- within the budget leaves the depth as it found it (on an error too), never gives fuel back,
  -- and when it succeeds has not spent more than the budget.
  pub run-Ended :
      (program : Task → Program) (n : ℕ) (t : Task) (s : State)
      → Started s
      → Ended s (run l program n t s)
  unfolding run
  run-Ended program zero t s h = tt
  run-Ended program (suc n) t s h =
      interpret-Ended (run l program n) (run-Ended program n) (program t) s h
