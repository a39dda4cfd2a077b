-- ===== src/Expr/Eval/Obeys.antt =====
-- Predicates that a program keeps: on the operands it handles, the tasks it asks for and the
-- errors it ends in.
use eieio.Base.{
  ℕ, zero, suc, ◌+◌, ◌≡◌, refl, ap, ◌∙◌, none, some, inl, inr, ok, err, ltb, if◌then◌else◌,
  Bool-cases,
}
use eieio.Expr.Syntax.{EvalLimits, Error, Span, error, fuel, depth, fuel_exceeded, depth_exceeded}
use eieio.Expr.Program.{
  Operand, Task, Program, State, Outcome, ret, fail, spend, ask, nest, interpret, run, continue,
  leave, charge, over_fuel, entered,
}

module _ (V : Operand → Type 0) (T : Task → Type 0) (E : Error → Type 0) where
  abbrev pub Obeys : Program → Type 0
  Obeys (ret a) = V a
  Obeys (fail e) = E e
  Obeys (spend at n p) = Obeys p
  Obeys (ask t k) = T t × ((a : Operand) → V a → Obeys (k a))
  Obeys (nest at p k) = Obeys p × ((a : Operand) → V a → Obeys (k a))

  abbrev pub Kept : Outcome Operand → Type 0
  Kept none = Unit
  Kept (some (ok a, s)) = V a
  Kept (some (err e, s)) = E e

  -- The budgets' own errors.
  abbrev pub Budgeted : Type 0
  Budgeted = (at : Span) → E (error fuel at fuel_exceeded) × E (error depth at depth_exceeded)

  abbrev Keeps : (Task → State → Outcome Operand) → Type 0
  Keeps rec = (t : Task) (s : State) → T t → Kept (rec t s)

  module _ (l : EvalLimits) (budgeted : Budgeted) where
    continue-Kept :
        (k : Operand → State → Outcome Operand) (o : Outcome Operand)
        → Kept o
        → ((a : Operand) (s : State) → V a → Kept (k a s))
        → Kept (continue k o)
    continue-Kept k none h hk = tt
    continue-Kept k (some (ok a, s)) h hk = hk a s h
    continue-Kept k (some (err e, s)) h hk = h

    leave-Kept : (o : Outcome Operand) → Kept o → Kept (leave o)
    leave-Kept none h = tt
    leave-Kept (some (ok a, s)) h = h
    leave-Kept (some (err e, s)) h = h

    interpret-Kept :
        (rec : Task → State → Outcome Operand)
        → Keeps rec
        → (p : Program) (s : State) → Obeys p
        → Kept (interpret l rec p s)
    unfolding interpret
    interpret-Kept rec keeps (ret a) s h = h
    interpret-Kept rec keeps (fail e) s h = h
    interpret-Kept rec keeps (spend at n p) s h = elim (Bool-cases (over_fuel l (charge s n))) [
      | inl over ↦ rw over (budgeted at).0
      | inr within ↦ rw within (interpret-Kept rec keeps p (charge s n) h)
    ]
    interpret-Kept rec keeps (ask t k) s h =
        continue-Kept (λ a s'. interpret l rec (k a) s') (rec t s) (keeps t s h.0)
          (λ a s' v. interpret-Kept rec keeps (k a) s' (h.1 a v))
    interpret-Kept rec keeps (nest at p k) s h = elim (Bool-cases (ltb l.max_depth (s.depth + 1))) [
      | inl over ↦ rw over (budgeted at).1
      | inr within ↦ rw within (
          continue-Kept (λ a s'. interpret l rec (k a) s') (leave (interpret l rec p (entered s)))
            (leave-Kept (interpret l rec p (entered s))
              (interpret-Kept rec keeps p (entered s) h.0))
            (λ a s' v. interpret-Kept rec keeps (k a) s' (h.1 a v)))
    ]

    pub run-Kept :
        (program : Task → Program)
        → ((t : Task) → T t → Obeys (program t))
        → (n : ℕ) (t : Task) (s : State) → T t
        → Kept (run l program n t s)
    unfolding run
    run-Kept program obeys zero t s h = tt
    run-Kept program obeys (suc n) t s h =
        interpret-Kept (run l program n) (run-Kept program obeys n) (program t) s (obeys t h)

    -- Two ways to answer tasks that agree on the tasks in question.
    Agree : (Task → State → Outcome Operand) → (Task → State → Outcome Operand) → Type 0
    Agree rec rec' = (t : Task) (s : State) → T t → rec t s ≡ rec' t s

    continue-Agree :
        (k k' : Operand → State → Outcome Operand) (o : Outcome Operand)
        → Kept o
        → ((a : Operand) (s : State) → V a → k a s ≡ k' a s)
        → continue k o ≡ continue k' o
    continue-Agree k k' none h hk = refl
    continue-Agree k k' (some (ok a, s)) h hk = hk a s h
    continue-Agree k k' (some (err e, s)) h hk = refl

    interpret-Agree :
        (rec rec' : Task → State → Outcome Operand)
        → Keeps rec
        → Agree rec rec'
        → (p : Program) (s : State) → Obeys p
        → interpret l rec p s ≡ interpret l rec' p s
    unfolding interpret Agree
    interpret-Agree rec rec' keeps agree (ret a) s h = refl
    interpret-Agree rec rec' keeps agree (fail e) s h = refl
    interpret-Agree rec rec' keeps agree (spend at n p) s h =
        ap
          (λ o.
            if over_fuel l (charge s n)
            then some (err (error fuel at fuel_exceeded), charge s n)
            else o)
          (interpret-Agree rec rec' keeps agree p (charge s n) h)
    interpret-Agree rec rec' keeps agree (ask t k) s h =
        continue-Agree (λ a s'. interpret l rec (k a) s') (λ a s'. interpret l rec' (k a) s')
          (rec t s) (keeps t s h.0)
          (λ a s' v. interpret-Agree rec rec' keeps agree (k a) s' (h.1 a v))
        ∙ ap (continue (λ a s'. interpret l rec' (k a) s')) (agree t s h.0)
    interpret-Agree rec rec' keeps agree (nest at p k) s h =
        ap
          (λ o.
            if ltb l.max_depth (s.depth + 1)
            then some (err (error depth at depth_exceeded), s)
            else o)
          (continue-Agree (λ a s'. interpret l rec (k a) s') (λ a s'. interpret l rec' (k a) s')
              (leave (interpret l rec p (entered s)))
              (leave-Kept (interpret l rec p (entered s))
                (interpret-Kept rec keeps p (entered s) h.0))
              (λ a s' v. interpret-Agree rec rec' keeps agree (k a) s' (h.1 a v))
            ∙ ap (λ o. continue (λ a s'. interpret l rec' (k a) s') (leave o))
                (interpret-Agree rec rec' keeps agree p (entered s) h.0))

    -- Programs that are the same on the tasks in question run the same.
    pub run-Agree :
        (program program' : Task → Program)
        → ((t : Task) → T t → Obeys (program t))
        → ((t : Task) → T t → program t ≡ program' t)
        → (n : ℕ) (t : Task) (s : State) → T t
        → run l program n t s ≡ run l program' n t s
    unfolding run Agree
    run-Agree program program' obeys same zero t s h = refl
    run-Agree program program' obeys same (suc n) t s h =
        interpret-Agree (run l program n) (run l program' n) (run-Kept program obeys n)
          (run-Agree program program' obeys same n) (program t) s (obeys t h)
        ∙ ap (λ p. interpret l (run l program' n) p s) (same t h)
