-- ===== src/Leaf/Timer/Tests.antt =====
-- Runs of the scheduler, and its theorems at concrete inputs.
use eieio.Base.{
  as_i32, ℕ, suc, ◌≤◌, ◌≡◌, refl, true, false, none, some, [], ◌∷◌, arith, length, Result, ok, err,
  pos, ◌+ℤ◌, wrap_i64,
}
use eieio.Abi.{Handle, decode_id, ErrorCode, code_value}
use eieio.Host.Engine.{Arg, Ret}
use eieio.Host.Timers as Imported
use eieio.Host.Timers.{TimerError}
use eieio.Leaf.Timer.Imports.{leaf_timers, armed_with, id_used, cancel-set}
use eieio.Leaf.Timer.{
  Scheduled, Outcome, live, Pumped, invalid_arg, not_found, timer, set, position, cancel, earliest,
  update, remove, due_one, resume, pump,
}
use eieio.Leaf.Timer.Due.{Fires, due_one-Fires}
use eieio.Leaf.Timer.Counting.{Calls, returns, sets, cancels, due_count}
use eieio.Leaf.Timer.Pumping.{Settled, pump_ends}

-- Timer 0 fires at 30, timer 1 every 10 from 20, timer 2 at 20.
abbrev three : Scheduled
three = record {
  next_id = 3;
  armed =
      timer 0 (pos 30) (pos 30) false
      ∷ timer 1 (pos 20) (pos 10) true
      ∷ timer 2 (pos 20) (pos 20) false
      ∷ [];
}

set_zero : set three (pos 5) (pos 0) false ≡ err invalid_arg
unfolding set
set_zero = refl

cancel_unknown : cancel three 7 ≡ err not_found
unfolding cancel position
cancel_unknown = refl

-- The guest cancels the timer that has just fired, and answers its id as the status.
abbrev guest : ℕ → ℕ → Scheduled → Outcome ℕ ℕ ℕ × Scheduled
guest e id s = (live (suc e) id, s)

-- Of the two that are due at 20, the lower id fires first.
pump-three :
    pump guest (pos 20) 9 three 0 []
    ≡ some (
      record { running = some 2; fired = (1, 1) ∷ (2, 2) ∷ []; death = none },
      record {
        next_id = 3;
        armed = timer 0 (pos 30) (pos 30) false ∷ timer 1 (pos 30) (pos 10) true ∷ [];
      },
    )
unfolding pump due_one earliest update remove resume wrap_i64 ◌+ℤ◌
pump-three = refl

due_one-Fires_example : Fires three (pos 20) (due_one three (pos 20))
due_one-Fires_example = due_one-Fires three (pos 20)

-- A guest that, in each callback, sets a timer of 10 at the clock 21 and cancels timer 2.
abbrev cancelled : Scheduled → Result TimerError Scheduled → Scheduled
cancelled s (ok t) = t
cancelled s (err e) = s

abbrev after_set : Scheduled → Result TimerError (ℕ × Scheduled) → Scheduled
after_set s (ok (id, t)) = cancelled t (cancel t 2)
after_set s (err e) = s

abbrev busy : ℕ → ℕ → Scheduled → Outcome ℕ ℕ ℕ × Scheduled
busy e id s = (live (suc e) id, after_set s (set s (pos 21) (pos 10) false))

cancelled-Calls :
    (t : Scheduled) (r : Result TimerError Scheduled)
    → cancel t 2 ≡ r
    → Calls (pos 20) t (cancelled t r)
cancelled-Calls t (ok u) e = cancels t 2 u u e (returns u)
cancelled-Calls t (err e) h = returns t

after_set-Calls :
    (s : Scheduled) (r : Result TimerError (ℕ × Scheduled))
    → set s (pos 21) (pos 10) false ≡ r
    → Calls (pos 20) s (after_set s r)
unfolding ◌+ℤ◌
after_set-Calls s (ok (id, t)) e =
    sets s (pos 21) (pos 10) false id t _ (omega arith) (omega arith) e
      (cancelled-Calls t (cancel t 2) refl)
after_set-Calls s (err e) h = returns s

-- Timer 1 fires; timer 2, which was due as well, is cancelled, and timer 3 is not due yet.
pump-busy :
    pump busy (pos 20) 3 three 0 []
    ≡ some (
      record { running = some 1; fired = (1, 1) ∷ []; death = none },
      record {
        next_id = 4;
        armed =
            timer 0 (pos 30) (pos 30) false
            ∷ timer 1 (pos 30) (pos 10) true
            ∷ timer 3 (pos 31) (pos 10) false
            ∷ [];
      },
    )
unfolding pump due_one earliest update remove resume set cancel position wrap_i64 ◌+ℤ◌
pump-busy = refl

pump_ends_example :
    (r : Pumped ℕ ℕ ℕ × Scheduled) × (pump busy
        (pos 20)
        (suc (due_count (pos 20) three.armed))
        three
        0
        []
      ≡ some r)
    × Settled (pos 20) r
    × (length r.0.fired ≤ due_count (pos 20) three.armed)
unfolding ◌+ℤ◌
pump_ends_example =
    pump_ends busy (pos 20) (omega arith)
      (λ e id s. after_set-Calls s (set s (pos 21) (pos 10) false) refl) three 0 (omega arith)

cancel-set_example :
    (Imported.set (leaf_timers (pos 5)) (Arg.i64 (pos 10) ∷ Arg.i32 (pos 1) ∷ []) three
      ≡ (Ret.i32 (as_i32 three.next_id), armed_with three (pos 5) (pos 10) (pos 1)))
    × (decode_id (as_i32 three.next_id) ≡ Handle.assigned three.next_id)
    × (Imported.cancel
          (leaf_timers (pos 7))
          (Arg.i32 (as_i32 three.next_id) ∷ [])
          (armed_with three (pos 5) (pos 10) (pos 1))
        ≡ (Ret.i32 (pos 0), id_used three))
    × (Imported.cancel (leaf_timers (pos 7)) (Arg.i32 (as_i32 three.next_id) ∷ []) (id_used three)
        ≡ (Ret.i32 (code_value ErrorCode.not_found), id_used three))
cancel-set_example =
    cancel-set three (pos 5) (pos 7) (pos 10) (pos 1) (omega arith) (omega arith)
      (refl, (refl, (refl, tt)))
