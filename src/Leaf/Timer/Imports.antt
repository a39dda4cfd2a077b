-- ===== src/Leaf/Timer/Imports.antt =====
-- crates/leaf/src/timer.rs as the `Timers` behind a guest's `timer_set` and `timer_cancel`.
use eieio.Base.{
  ℕ, ◌≡◌, refl, ap, ◌==◌, ==_refl, ◌^◌, ◌+◌, ◌%◌, false, ℤ, pos, ◌+ℤ◌, ◌<ℤ◌, wrap_i64, none, some,
  List, [], ◌∷◌, ◌++◌, arith, All, Result, ok, err, IsU32, as_i32, as_i32_small, ◌<◌, as_u32-as_i32,
  length,
}
use eieio.Abi.{code_value, ErrorCode, Handle, decode_id}
use eieio.Host.Engine.{Arg, Ret}
use eieio.Host.Timers as Calls
use eieio.Host.Timers.{Timers, TimerError}
use eieio.Leaf.Timer.{Armed, Scheduled, timer, set, cancel, position, remove}

-- The state a call leaves: what the source's `&mut self` holds after an answer, or after a refusal.
abbrev pub kept_set :
    Scheduled → Result TimerError (ℕ × Scheduled) → Scheduled × Result TimerError ℕ
kept_set s (ok (id, s')) = (s', ok id)
kept_set s (err e) = (s, err e)

abbrev pub kept_cancel :
    Scheduled → Result TimerError Scheduled → Scheduled × Result TimerError (Unit {0})
kept_cancel s (ok s') = (s', ok tt)
kept_cancel s (err e) = (s, err e)

-- `impl Timers for Scheduler`, at the reading that its clock gives
abbrev pub leaf_timers : ℤ → Timers Scheduled
leaf_timers now_ms = record {
  set = λ s delay_ms repeat. kept_set s (set s now_ms delay_ms repeat);
  cancel = λ s timer_id. kept_cancel s (cancel s timer_id);
}

-- No armed timer has the id.
abbrev pub Unarmed : ℕ → List Armed → Type 0
Unarmed id armed = All (λ (a : Armed). (a.id == id) ≡ false) armed

position-append :
    (armed : List Armed) (a : Armed)
    → Unarmed a.id armed
    → position (armed ++ a ∷ []) a.id ≡ some (length armed)
unfolding position
position-append [] a fresh = rw (==_refl a.id)
position-append (b ∷ armed) a (other, fresh) = rw (other, position-append armed a fresh)

remove-append : (armed : List Armed) (a : Armed) → remove (armed ++ a ∷ []) (length armed) ≡ armed
unfolding remove
remove-append [] a = refl
remove-append (b ∷ armed) a = ap (λ l. b ∷ l) (remove-append armed a)

position-none : (armed : List Armed) (id : ℕ) → Unarmed id armed → position armed id ≡ none
unfolding position
position-none [] id fresh = refl
position-none (b ∷ armed) id (other, fresh) = rw (other, position-none armed id fresh)

-- The scheduler with the timer that `set` arms, and with it gone again.
abbrev pub armed_with : Scheduled → ℤ → ℤ → ℤ → Scheduled
armed_with s now_ms delay_ms repeat = record {
  next_id = (s.next_id + 1) % 2 ^ 32;
  armed =
      s.armed
      ++ timer s.next_id (wrap_i64 (now_ms +ℤ delay_ms)) delay_ms (Calls.is_set repeat) ∷ [];
}

abbrev pub id_used : Scheduled → Scheduled
id_used s = record s { next_id = (s.next_id + 1) % 2 ^ 32 }

module _ (s : Scheduled) (now_ms later_ms delay_ms repeat : ℤ) (word : IsU32 s.next_id)
    (positive : pos 0 <ℤ delay_ms) (fresh : Unarmed s.next_id s.armed) where
  arms :
      Calls.set (leaf_timers now_ms) (Arg.i64 delay_ms ∷ Arg.i32 repeat ∷ []) s
      ≡ (Ret.i32 (as_i32 s.next_id), armed_with s now_ms delay_ms repeat)
  unfolding Calls.set set
  arms = ground arith

  disarms :
      Calls.cancel
        (leaf_timers later_ms)
        (Arg.i32 (as_i32 s.next_id) ∷ [])
        (armed_with s now_ms delay_ms repeat)
      ≡ (Ret.i32 (pos 0), id_used s)
  unfolding Calls.cancel cancel
  disarms =
      rw
        (
          as_u32-as_i32 s.next_id word,
          position-append s.armed
              (timer s.next_id (wrap_i64 (now_ms +ℤ delay_ms)) delay_ms (Calls.is_set repeat))
              fresh,
        )
        (ap (λ (armed : List Armed). (Ret.i32 (pos 0), record (id_used s) { armed = armed }))
          (remove-append s.armed _))

  refuses :
      Calls.cancel (leaf_timers later_ms) (Arg.i32 (as_i32 s.next_id) ∷ []) (id_used s)
      ≡ (Ret.i32 (code_value ErrorCode.not_found), id_used s)
  unfolding Calls.cancel cancel
  refuses = rw (as_u32-as_i32 s.next_id word, position-none s.armed s.next_id fresh) refl

decodes : (id : ℕ) → id < 2 ^ 31 → decode_id (as_i32 id) ≡ Handle.assigned id
unfolding decode_id
decodes id small = rw (as_i32_small id small) refl

-- A guest asks the leaf for a timer with a positive delay, while no armed timer has the id that is
-- next and that id is below 2^31: the answer reads, by the convention of ids, as that id assigned, and
-- the timer is armed behind the others. Cancelling the id, at whatever time, answers 0 and leaves
-- the armed timers as they were before; cancelling it once more answers `ERR_NOT_FOUND` and changes
-- nothing.
pub cancel-set :
    (s : Scheduled) (now_ms later_ms delay_ms repeat : ℤ)
    → s.next_id < 2 ^ 31
    → pos 0 <ℤ delay_ms
    → Unarmed s.next_id s.armed
    → (Calls.set (leaf_timers now_ms) (Arg.i64 delay_ms ∷ Arg.i32 repeat ∷ []) s
        ≡ (Ret.i32 (as_i32 s.next_id), armed_with s now_ms delay_ms repeat))
      × (decode_id (as_i32 s.next_id) ≡ Handle.assigned s.next_id)
      × (Calls.cancel
            (leaf_timers later_ms)
            (Arg.i32 (as_i32 s.next_id) ∷ [])
            (armed_with s now_ms delay_ms repeat)
          ≡ (Ret.i32 (pos 0), id_used s))
      × (Calls.cancel (leaf_timers later_ms) (Arg.i32 (as_i32 s.next_id) ∷ []) (id_used s)
          ≡ (Ret.i32 (code_value ErrorCode.not_found), id_used s))
cancel-set s now_ms later_ms delay_ms repeat small positive fresh =
    let word : IsU32 s.next_id = omega arith in
    (
      arms s now_ms later_ms delay_ms repeat word positive fresh,
      decodes s.next_id small,
      disarms s now_ms later_ms delay_ms repeat word positive fresh,
      refuses s now_ms later_ms delay_ms repeat word positive fresh,
    )
