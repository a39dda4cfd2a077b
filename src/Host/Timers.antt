-- ===== src/Host/Timers.antt =====
-- crates/host-core/src/timer.rs: the two imports of `eio:timer` over a host's scheduler.
use eieio.Base.{
  ℕ, ℤ, pos, Bool, not, ◌==◌, Option, none, some, List, [], ◌∷◌, leb_ℤ, pos_part, neg_part, ◌+◌,
  if◌then◌else◌, Result, ok, err, as_u32, as_i32,
}
use eieio.Abi.{ErrorCode, code_value}
use eieio.Host.Engine.{Arg, Ret}

pub data TimerError : Type 0 where
  invalid_arg not_found : TimerError

-- The `Timers` trait.
pub record Timers (T : Type 0) : Type 0 where
  pub set : T → ℤ → Bool → T × Result TimerError ℕ
  pub cancel : T → ℕ → T × Result TimerError (Unit {0})

-- `TimerError::as_code`
abbrev pub as_code : TimerError → ErrorCode
as_code invalid_arg = ErrorCode.invalid_arg
as_code not_found = ErrorCode.not_found

abbrev pub invalid : Ret
invalid = Ret.i32 (code_value ErrorCode.invalid_arg)

-- `[Arg::I64(delay_ms), Arg::I32(repeat)]` and `[Arg::I32(timer_id)]`
abbrev pub delay_args : List Arg → Option (ℤ × ℤ)
delay_args (Arg.i64 delay_ms ∷ Arg.i32 repeat ∷ []) = some (delay_ms, repeat)
delay_args _ = none

abbrev pub id_arg : List Arg → Option ℤ
id_arg (Arg.i32 timer_id ∷ []) = some timer_id
id_arg _ = none

abbrev pub id_of : Result TimerError ℕ → Ret
id_of (ok timer_id) = Ret.i32 (as_i32 timer_id)
id_of (err e) = Ret.i32 (code_value (as_code e))

abbrev pub status_of : Result TimerError (Unit {0}) → Ret
status_of (ok _) = Ret.i32 (pos 0)
status_of (err e) = Ret.i32 (code_value (as_code e))

-- `repeat != 0`
abbrev pub is_set : ℤ → Bool
is_set flag = not (pos_part flag + neg_part flag == 0)

module _ {T : Type 0} (timers : Timers T) where
  unfoldable pub answered {ℓ} :
      {A : Type ℓ} → (Result TimerError A → Ret) → T × Result TimerError A → Ret × T
  answered shown (t, answer) = (shown answer, t)

  -- `set`: a delay that is not positive is refused before the scheduler is asked.
  unfoldable pub set : List Arg → T → Ret × T
  unfolding answered
  set args t = elim (delay_args args) [
    | none ↦ (invalid, t)
    | some (delay_ms, repeat) ↦
        if leb_ℤ delay_ms (pos 0)
        then (invalid, t)
        else answered id_of (timers.set t delay_ms (is_set repeat))
  ]

  -- `cancel`
  unfoldable pub cancel : List Arg → T → Ret × T
  unfolding answered
  cancel args t = elim (id_arg args) [
    | none ↦ (invalid, t)
    | some timer_id ↦ answered status_of (timers.cancel t (as_u32 timer_id))
  ]
