-- ===== src/Leaf/Timer/Pumping.antt =====
-- About `pump` and the timers that callbacks leave (crates/leaf/src/timer.rs).
use eieio.Base.{
  subst, ◌⊎◌, Option-cases, inl, inr, ℕ, zero, suc, ◌+◌, ◌≤◌, ◌≡◌, refl, false, none, some, List,
  [], ◌∷◌, ◌++◌, arith, length, length-append, All, ℤ, IsI64,
}
use eieio.Leaf.Timer.{Scheduled, Outcome, live, dead, Pumped, is_due, due_one, resume, pump}
use eieio.Leaf.Timer.Due.{Fires, due_one-Fires}
use eieio.Leaf.Timer.Counting.{
  Calls, Calls-Within, Fires-Within, IsTimed, Within, due_count, due_count-remove,
}

-- `running` is gone exactly if a callback trapped; if it is not, no armed timer is still due.
abbrev pub Settled : {E S T : Type 0} → ℤ → Pumped E S T × Scheduled → Type 0
Settled {E} {S} {T} now_ms (p, s) =
    ((t : T) × (p.running ≡ none) × (p.death ≡ some t))
    ⊎ ((e : E) × (p.running ≡ some e)
        × (p.death ≡ none)
        × All (λ a. is_due now_ms a ≡ false) s.armed)

module _ {E S T : Type 0} (on_timer : E → ℕ → Scheduled → Outcome E S T × Scheduled) (now_ms : ℤ)
    (in_range : IsI64 now_ms)
    (guest_calls : (e : E) (id : ℕ) (s : Scheduled) → Calls now_ms s (on_timer e id s).1) where
  -- The pump, given this much fuel, returns; it fires at most once for each unit of fuel.
  abbrev Returns : ℕ → Scheduled → E → List (ℕ × S) → Type 0
  Returns fuel s e fired =
      (r : Pumped E S T × Scheduled) × (pump on_timer now_ms fuel s e fired ≡ some r)
      × Settled now_ms r
      × (suc (length r.0.fired) ≤ length fired + fuel)

  pump_idle :
      (fuel : ℕ) (s : Scheduled) (e : E) (fired : List (ℕ × S))
      → due_one s now_ms ≡ none
      → Returns (suc fuel) s e fired
  unfolding pump
  pump_idle fuel s e fired idle =
      rw (idle, pump)
        (
          (record { running = some e; fired = fired; death = none }, s),
          refl,
          inr (e, refl, refl, rw idle at (due_one-Fires s now_ms)),
          omega arith,
        )

  pump-resume :
      (fuel id : ℕ) (fired : List (ℕ × S)) (o : Outcome E S T × Scheduled)
      → ((t : Scheduled) (e : E) (status : S)
          → o ≡ (live e status, t)
          → Returns fuel t e (fired ++ (id, status) ∷ []))
      → (r : Pumped E S T × Scheduled) × (resume (pump on_timer now_ms fuel) id fired o ≡ some r)
        × Settled now_ms r
        × (length r.0.fired ≤ length fired + fuel)
  unfolding resume
  pump-resume fuel id fired (dead trap, t) continues = (
    (record { running = none; fired = fired; death = some trap }, t),
    refl,
    inl (trap, refl, refl),
    omega arith,
  )
  pump-resume fuel id fired (live e status, t) continues =
      let (r, runs, settled, few) = continues t e status refl in
      (r, runs, settled, omega (arith, few, length-append fired ((id, status) ∷ [])))

  pump_round :
      (fuel : ℕ) (s s' : Scheduled) (e : E) (id : ℕ) (fired : List (ℕ × S))
      → due_one s now_ms ≡ some (id, s')
      → ((t : Scheduled) (e' : E) (status : S)
          → on_timer e id s' ≡ (live e' status, t)
          → Returns fuel t e' (fired ++ (id, status) ∷ []))
      → Returns (suc fuel) s e fired
  unfolding pump
  pump_round fuel s s' e id fired next continues =
      let (r, runs, settled, few) = pump-resume fuel id fired (on_timer e id s') continues in
      rw (next, pump) (r, runs, settled, omega (arith, few))

  pump_fuel :
      (fuel : ℕ) (s : Scheduled) (e : E) (fired : List (ℕ × S))
      → Within now_ms fuel s
      → Returns (suc fuel) s e fired
  pump_fuel zero s e fired w = elim (Option-cases (due_one s now_ms)) [
    | inl idle ↦ pump_idle zero s e fired idle
    | inr ((id, s'), next) ↦ absurd (not_due w (rw next at (due_one-Fires s now_ms)))
  ]
    where
      not_due : {id : ℕ} {s' : Scheduled} → Within now_ms 0 s → ¬ Fires s now_ms (some (id, s'))
      not_due w (i, a, at, due, _, _, _) =
          absurd (omega (arith, due_count-remove now_ms s.armed i a at due, w.few))
  pump_fuel (suc fuel) s e fired w = elim (Option-cases (due_one s now_ms)) [
    | inl idle ↦ pump_idle (suc fuel) s e fired idle
    | inr ((id, s'), next) ↦ pump_round (suc fuel) s s' e id fired next λ t e' status o.
        pump_fuel fuel t e' (fired ++ (id, status) ∷ []) (
          Calls-Within now_ms in_range fuel s' t
            (subst (λ p. Calls now_ms s' p.1) o (guest_calls e id s'))
            (Fires-Within now_ms in_range fuel id s s' (rw next at (due_one-Fires s now_ms)) w))
  ]

  -- If the pump's time is an `i64`, every armed timer has a positive period that can be added to it
  -- within an `i64`, and each callback changes the scheduler only by `timer_cancel` calls and by
  -- `timer_set` calls, each at a clock that is not before the pump's time and with a delay that can be
  -- added to that clock within an `i64`, then `pump` returns after at most as many callbacks as timers
  -- were due. It returns either a trap and no instance, or the instance with no armed timer still due.
  pub pump_ends :
      (s : Scheduled) (e : E)
      → All (IsTimed now_ms) s.armed
      → (r : Pumped E S T × Scheduled) × (pump on_timer now_ms
            (suc (due_count now_ms s.armed))
            s
            e
            []
          ≡ some r)
        × Settled now_ms r
        × (length r.0.fired ≤ due_count now_ms s.armed)
  pump_ends s e timed =
      let (r, runs, settled, few) =
        pump_fuel (due_count now_ms s.armed) s e [] (record { timed = timed; few = omega arith }) in
      (r, runs, settled, omega (arith, few))
