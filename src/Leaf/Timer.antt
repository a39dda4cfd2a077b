-- ===== src/Leaf/Timer.antt =====
-- crates/leaf/src/timer.rs: the leaf's poll-driven timer scheduler and `pump`.
-- Times and delays are `i64`, ids are `u32`; both wrap where the source's arithmetic does.
mod Tests
pub mod Due
pub mod Imports
pub mod Counting
pub mod Pumping
use mathlib.Core.Option
use eieio.Base.{
  ℕ, zero, suc, ◌+◌, ◌%◌, ◌^◌, Bool, true, false, ◌&&◌, ◌||◌, Option, none, some, List, [], ◌∷◌,
  ◌++◌, ℤ, pos, ◌+ℤ◌, ltb_ℤ, leb_ℤ, wrap_i64, leb, ◌==◌, if◌then◌else◌, Result, ok, err, ◌>>=◌,
  ok_or,
}
pub use eieio.Host.Timers.{TimerError, invalid_arg, not_found}

pub record Armed : Type 0 where
  pub id : ℕ
  pub due_at_ms : ℤ
  pub period_ms : ℤ
  pub repeat : Bool

pub record Scheduled : Type 0 where
  pub next_id : ℕ
  pub armed : List Armed

pub new : Scheduled
new = record { next_id = 0; armed = [] }

abbrev pub timer : ℕ → ℤ → ℤ → Bool → Armed
timer id due period repeat = record {
  id = id;
  due_at_ms = due;
  period_ms = period;
  repeat = repeat;
}

-- Arms a timer due `delay_ms` after `now_ms`, and reports its id.
pub set : Scheduled → ℤ → ℤ → Bool → Result TimerError (ℕ × Scheduled)
set s now_ms delay_ms repeat =
    if leb_ℤ delay_ms (pos 0)
    then err invalid_arg
    else ok (
      s.next_id,
      record {
        next_id = (s.next_id + 1) % 2 ^ 32;
        armed = s.armed ++ timer s.next_id (wrap_i64 (now_ms +ℤ delay_ms)) delay_ms repeat ∷ [];
      },
    )

-- `armed.iter().position(|armed| armed.id == timer_id)`
pub position : List Armed → ℕ → Option ℕ
position [] timer_id = none
position (a ∷ armed) timer_id =
    if a.id == timer_id then some 0 else Option.map suc (position armed timer_id)

-- `armed.remove(index)`
pub remove {ℓ} : {A : Type ℓ} → List A → ℕ → List A
remove [] i = []
remove (x ∷ xs) zero = xs
remove (x ∷ xs) (suc i) = x ∷ remove xs i

pub cancel : Scheduled → ℕ → Result TimerError Scheduled
cancel s timer_id = do
  index ← ok_or (position s.armed timer_id) not_found
  ok (record s { armed = remove s.armed index })

abbrev pub is_due : ℤ → Armed → Bool
is_due now_ms a = leb_ℤ a.due_at_ms now_ms

-- `(due_at_ms, id)`, compared as a pair: at most
abbrev pub key_le : Armed → Armed → Bool
key_le a b = ltb_ℤ a.due_at_ms b.due_at_ms || (leb_ℤ a.due_at_ms b.due_at_ms && leb a.id b.id)

-- `a` against the best of the timers behind it
abbrev pub choose : ℤ → Armed → Option (ℕ × Armed) → Option (ℕ × Armed)
choose now_ms a none = if is_due now_ms a then some (0, a) else none
choose now_ms a (some (i, b)) =
    if is_due now_ms a && key_le a b then some (0, a) else some (suc i, b)

-- `filter(due).min_by_key((due_at_ms, id))` with its index: the first of the least.
pub earliest : ℤ → List Armed → Option (ℕ × Armed)
earliest now_ms [] = none
earliest now_ms (a ∷ armed) = choose now_ms a (earliest now_ms armed)

-- A repeating timer goes on one period from now.
abbrev pub rearm : ℤ → Armed → Armed
rearm now_ms a = record a { due_at_ms = wrap_i64 (now_ms +ℤ a.period_ms) }

-- `armed[index] = value`
pub update {ℓ} : {A : Type ℓ} → List A → ℕ → A → List A
update [] i v = []
update (x ∷ xs) zero v = v ∷ xs
update (x ∷ xs) (suc i) v = x ∷ update xs i v

-- Fires the timer that the search found: its id, and the scheduler after it.
abbrev pub fire : Scheduled → ℤ → Option (ℕ × Armed) → Option (ℕ × Scheduled)
fire s now_ms none = none
fire s now_ms (some (i, a)) = some (
  a.id,
  record s { armed = if a.repeat then update s.armed i (rearm now_ms a) else remove s.armed i },
)

-- The timer that fires next, and the scheduler after it.
pub due_one : Scheduled → ℤ → Option (ℕ × Scheduled)
due_one s now_ms = fire s now_ms (earliest now_ms s.armed)

pub cancel_all : Scheduled → Scheduled
cancel_all s = record s { armed = [] }

-- What a guest callback came to: the instance with the status it returned, or its trap.
pub data Outcome (E S T : Type 0) : Type 0 where
  live : E → S → Outcome E S T
  dead : T → Outcome E S T

pub record Pumped (E S T : Type 0) : Type 0 where
  pub running : Option E
  pub fired : List (ℕ × S)
  pub death : Option T

module _ {E S T : Type 0} where
  -- What `pump` does with a callback's outcome: it goes on with the instance, or stops at the trap.
  pub resume :
      (Scheduled → E → List (ℕ × S) → Option (Pumped E S T × Scheduled))
      → ℕ
      → List (ℕ × S)
      → Outcome E S T × Scheduled
      → Option (Pumped E S T × Scheduled)
  resume go_on id fired (live next status, s) = go_on s next (fired ++ (id, status) ∷ [])
  resume go_on id fired (dead trap, s) =
      some (record { running = none; fired = fired; death = some trap }, s)

  -- The guest is an argument: its callback may set and cancel timers, so it is given the
  -- scheduler and returns it. `none`: the fuel ran out.
  pub pump :
      (E → ℕ → Scheduled → Outcome E S T × Scheduled)
      → ℤ
      → ℕ
      → Scheduled
      → E
      → List (ℕ × S)
      → Option (Pumped E S T × Scheduled)
  unfolding resume
  pump on_timer now_ms zero s running fired = none
  pump on_timer now_ms (suc fuel) s running fired = elim (due_one s now_ms) [
    | none ↦ some (record { running = some running; fired = fired; death = none }, s)
    | some (id, s') ↦ resume (pump on_timer now_ms fuel) id fired (on_timer running id s')
  ]
