-- ===== src/Leaf/Timer/Counting.antt =====
-- About the timers that are due, and the calls of callbacks that set and cancel timers
-- (crates/leaf/src/timer.rs).
use eieio.Base.{
  subst, sym, ap, Bool-cases, leb_ℤ, Option-cases, ok-injective, inl, inr, ℕ, zero, suc, ◌+◌, ◌≤◌,
  ◌≡◌, Bool, true, false, some, List, [], ◌∷◌, ◌++◌, arith, get_elem?, All, All-append, All-get,
  if◌then◌else◌, ℤ, pos, ◌+ℤ◌, ◌≤ℤ◌, ◌<ℤ◌, IsI64, wrap_i64, wrap_i64_fits, +ℤ_parts, ok,
}
use eieio.Leaf.Timer.{timer, Armed, Scheduled, is_due, set, cancel, position, remove, update, rearm}
use eieio.Leaf.Timer.Due.{Fires}

-- How many timers are due.
abbrev pub due_count : ℤ → List Armed → ℕ
due_count now_ms [] = 0
due_count now_ms (a ∷ armed) = (if is_due now_ms a then 1 else 0) + due_count now_ms armed

-- The period is one that `set` accepts, and one period from now is an `i64`.
abbrev pub IsTimed : ℤ → Armed → Type 0
IsTimed now_ms a = (pos 0 <ℤ a.period_ms) × IsI64 (now_ms +ℤ a.period_ms)

due_count_none :
    (now_ms : ℤ) (armed : List Armed)
    → due_count now_ms armed ≡ 0
    → All (λ a. is_due now_ms a ≡ false) armed
due_count_none now_ms [] h = tt
due_count_none now_ms (a ∷ armed) h = (ground arith, due_count_none now_ms armed (ground arith))

rearm_late : (now_ms : ℤ) (a : Armed) → IsTimed now_ms a → is_due now_ms (rearm now_ms a) ≡ false
rearm_late now_ms a h =
    ground (arith, wrap_i64_fits (now_ms +ℤ a.period_ms) h.1, +ℤ_parts now_ms a.period_ms)

module _ (now_ms : ℤ) where
  pub due_count-remove :
      (armed : List Armed) (i : ℕ) (a : Armed)
      → get_elem? armed i ≡ some a
      → is_due now_ms a ≡ true
      → suc (due_count now_ms (remove armed i)) ≡ due_count now_ms armed
  unfolding remove
  due_count-remove [] i a at due = absurd (ground arith)
  due_count-remove (b ∷ armed) zero a at due = ground arith
  due_count-remove (b ∷ armed) (suc i) a at due = ground (arith, due_count-remove armed i a at due)

  due_count-update :
      (armed : List Armed) (i : ℕ) (a v : Armed)
      → get_elem? armed i ≡ some a
      → is_due now_ms a ≡ true
      → is_due now_ms v ≡ false
      → suc (due_count now_ms (update armed i v)) ≡ due_count now_ms armed
  unfolding update
  due_count-update [] i a v at due late = absurd (ground arith)
  due_count-update (b ∷ armed) zero a v at due late = ground arith
  due_count-update (b ∷ armed) (suc i) a v at due late =
      ground (arith, due_count-update armed i a v at due late)

All-remove {ℓ} :
    {A : Type 0} (P : A → Type ℓ) (xs : List A) (i : ℕ) → All P xs → All P (remove xs i)
unfolding remove
All-remove P [] i h = tt
All-remove P (x ∷ xs) zero h = h.1
All-remove P (x ∷ xs) (suc i) h = (h.0, All-remove P xs i h.1)

All-update {ℓ} :
    {A : Type 0} (P : A → Type ℓ) (xs : List A) (i : ℕ) (v : A)
    → All P xs
    → P v
    → All P (update xs i v)
unfolding update
All-update P [] i v h hv = tt
All-update P (x ∷ xs) zero v h hv = (hv, h.1)
All-update P (x ∷ xs) (suc i) v h hv = (h.0, All-update P xs i v h.1 hv)

-- What one callback may do to the scheduler: nothing, or a call of `timer_set` at a clock that
-- has not gone back behind the pump's time, or one of `timer_cancel`, and so on.
pub data Calls (now_ms : ℤ) : Scheduled → Scheduled → Type 0 where
  returns : (s : Scheduled) → Calls now_ms s s
  sets :
      (s : Scheduled) (clock_ms delay_ms : ℤ) (repeat : Bool) (id : ℕ) (t u : Scheduled)
      → now_ms ≤ℤ clock_ms
      → IsI64 (clock_ms +ℤ delay_ms)
      → set s clock_ms delay_ms repeat ≡ ok (id, t)
      → Calls now_ms t u
      → Calls now_ms s u
  cancels :
      (s : Scheduled) (id : ℕ) (t u : Scheduled)
      → cancel s id ≡ ok t
      → Calls now_ms t u
      → Calls now_ms s u

-- Every armed timer is timed, and at most `n` of them are due.
pub record Within (now_ms : ℤ) (n : ℕ) (s : Scheduled) : Type 0 where
  pub timed : All (IsTimed now_ms) s.armed
  pub few : due_count now_ms s.armed ≤ n

module _ (now_ms : ℤ) (in_range : IsI64 now_ms) where
  due_count-append :
      (xs ys : List Armed) → due_count now_ms (xs ++ ys) ≡ due_count now_ms xs + due_count now_ms ys
  due_count-append [] ys = omega arith
  due_count-append (x ∷ xs) ys = omega (arith, due_count-append xs ys)

  due_count-remove_le :
      (armed : List Armed) (i : ℕ) → due_count now_ms (remove armed i) ≤ due_count now_ms armed
  unfolding remove
  due_count-remove_le [] i = omega arith
  due_count-remove_le (a ∷ armed) zero = ground arith
  due_count-remove_le (a ∷ armed) (suc i) = omega (arith, due_count-remove_le armed i)

  cancel-Within :
      (n : ℕ) (s t : Scheduled) (id : ℕ)
      → cancel s id ≡ ok t
      → Within now_ms n s
      → Within now_ms n t
  unfolding cancel
  cancel-Within n s t id e w = elim (Option-cases (position s.armed id)) [
    | inl gone ↦ absurd (ground arith)
    | inr (i, found) ↦ subst (Within now_ms n) (ok-injective (rw found at e)) (record {
      timed = All-remove _ s.armed i w.timed;
      few = omega (arith, due_count-remove_le s.armed i);
    })
  ]

  late_new :
      (clock_ms delay_ms : ℤ) (id : ℕ) (repeat : Bool)
      → now_ms ≤ℤ clock_ms
      → IsI64 (clock_ms +ℤ delay_ms)
      → pos 0 <ℤ delay_ms
      → is_due now_ms (timer id (wrap_i64 (clock_ms +ℤ delay_ms)) delay_ms repeat) ≡ false
  late_new clock_ms delay_ms id repeat h fits positive =
      ground (arith, wrap_i64_fits (clock_ms +ℤ delay_ms) fits, +ℤ_parts clock_ms delay_ms)

  timed_new :
      (clock_ms delay_ms : ℤ)
      → now_ms ≤ℤ clock_ms
      → IsI64 (clock_ms +ℤ delay_ms)
      → pos 0 <ℤ delay_ms
      → IsI64 (now_ms +ℤ delay_ms)
  unfolding ◌+ℤ◌
  timed_new clock_ms delay_ms h fits positive = ground arith

  set-Within :
      (n : ℕ) (s t : Scheduled) (clock_ms delay_ms : ℤ) (repeat : Bool) (id : ℕ)
      → now_ms ≤ℤ clock_ms
      → IsI64 (clock_ms +ℤ delay_ms)
      → set s clock_ms delay_ms repeat ≡ ok (id, t)
      → Within now_ms n s
      → Within now_ms n t
  unfolding set
  set-Within n s t clock_ms delay_ms repeat id h fits e w =
      elim (Bool-cases (leb_ℤ delay_ms (pos 0))) [
        | inl refused ↦ absurd (ground arith)
        | inr positive ↦
            let later : pos 0 <ℤ delay_ms = ground arith in
            subst (Within now_ms n) (ap (λ p. p.1) (ok-injective (rw positive at e))) (record {
              timed =
                  All-append (IsTimed now_ms) s.armed _ w.timed
                    ((later, timed_new clock_ms delay_ms h fits later), tt);
              few = ground (
                arith,
                late_new clock_ms delay_ms s.next_id repeat h fits later,
                due_count-append s.armed
                    (timer s.next_id (wrap_i64 (clock_ms +ℤ delay_ms)) delay_ms repeat ∷ []),
              );
            })
      ]

  pub Calls-Within :
      (n : ℕ) (s t : Scheduled) → Calls now_ms s t → Within now_ms n s → Within now_ms n t
  Calls-Within n s t (returns _) w = w
  Calls-Within n s t (sets _ clock delay repeat id s' _ h fits e calls) w =
      Calls-Within n s' t calls (set-Within n s s' clock delay repeat id h fits e w)
  Calls-Within n s t (cancels _ id s' _ e calls) w =
      Calls-Within n s' t calls (cancel-Within n s s' id e w)

  -- One round leaves one due timer fewer.
  pub Fires-Within :
      (n id : ℕ) (s s' : Scheduled)
      → Fires s now_ms (some (id, s'))
      → Within now_ms (suc n) s
      → Within now_ms n s'
  Fires-Within n id s s' (i, a, at, due, least, _, e) w =
      subst (Within now_ms n) (sym e) (go a.repeat)
    where
      timed_a : IsTimed now_ms a
      timed_a = All-get _ s.armed i a w.timed at

      go :
          (again : Bool)
          → Within now_ms n (record {
            next_id = s.next_id;
            armed = if again then update s.armed i (rearm now_ms a) else remove s.armed i;
          })
      go true = record {
        timed = All-update (IsTimed now_ms) s.armed i _ w.timed timed_a;
        few = omega (
          arith,
          w.few,
          due_count-update now_ms s.armed i a (rearm now_ms a) at due (rearm_late now_ms a timed_a),
        );
      }
      go false = record {
        timed = All-remove (IsTimed now_ms) s.armed i w.timed;
        few = omega (arith, w.few, due_count-remove now_ms s.armed i a at due);
      }
