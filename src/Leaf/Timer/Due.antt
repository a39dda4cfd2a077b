-- ===== src/Leaf/Timer/Due.antt =====
-- About `due_one` (crates/leaf/src/timer.rs).
use eieio.Base.{
  ℕ, ◌≡◌, refl, inl, inr, true, false, Option, none, some, List, [], ◌∷◌, arith, get_elem?, All,
  All-map, Bool-cases, if◌then◌else◌, ℤ,
}
use eieio.Leaf.Timer.{
  Armed, Scheduled, is_due, key_le, earliest, choose, remove, update, rearm, fire, due_one,
}

-- Key order, and what a search for the earliest due timer has to give back.
abbrev pub NotBefore : Armed → Armed → Type 0
NotBefore a b = key_le a b ≡ true

abbrev pub LeastDue : ℤ → List Armed → Armed → Type 0
LeastDue now_ms armed a = All (λ b. is_due now_ms b ≡ true → NotBefore a b) armed

abbrev pub Finds : ℤ → List Armed → Option (ℕ × Armed) → Type 0
Finds now_ms armed none = All (λ b. is_due now_ms b ≡ false) armed
Finds now_ms armed (some (i, a)) =
    (get_elem? armed i ≡ some a) × (is_due now_ms a ≡ true) × LeastDue now_ms armed a

NotBefore-refl : (a : Armed) → NotBefore a a
NotBefore-refl a = ground arith

NotBefore-total : (a b : Armed) → key_le a b ≡ false → NotBefore b a
NotBefore-total a b h = ground arith

NotBefore-trans : (a b c : Armed) → NotBefore a b → NotBefore b c → NotBefore a c
NotBefore-trans a b c h k = ground arith

LeastDue-trans :
    (now_ms : ℤ) (a b : Armed) (armed : List Armed)
    → NotBefore a b
    → LeastDue now_ms armed b
    → LeastDue now_ms armed a
LeastDue-trans now_ms a b armed h =
    All-map (λ c. is_due now_ms c ≡ true → NotBefore b c) _ armed
      λ c k due. NotBefore-trans a b c h (k due)

LeastDue-none :
    (now_ms : ℤ) (a : Armed) (armed : List Armed)
    → All (λ b. is_due now_ms b ≡ false) armed
    → LeastDue now_ms armed a
LeastDue-none now_ms a armed =
    All-map (λ b. is_due now_ms b ≡ false) _ armed λ b no_due due. absurd (ground arith)

choose-Finds :
    (now_ms : ℤ) (a : Armed) (armed : List Armed) (r : Option (ℕ × Armed))
    → Finds now_ms armed r
    → Finds now_ms (a ∷ armed) (choose now_ms a r)
choose-Finds now_ms a armed none h = elim (Bool-cases (is_due now_ms a)) [
  | inl due ↦ rw due (refl, due, ((λ _. NotBefore-refl a), LeastDue-none now_ms a armed h))
  | inr late ↦ rw late (late, h)
]
choose-Finds now_ms a armed (some (i, b)) (at, due_b, least) = elim (Bool-cases (is_due now_ms a)) [
  | inr late ↦ rw late (at, due_b, ((λ due. absurd (ground arith)), least))
  | inl due ↦ elim (Bool-cases (key_le a b)) [
    | inl le ↦
        rw (due, le)
          (refl, due, ((λ _. NotBefore-refl a), LeastDue-trans now_ms a b armed le least))
    | inr gt ↦ rw (due, gt) (at, due_b, ((λ _. NotBefore-total a b gt), least))
  ]
]

pub earliest-Finds : (now_ms : ℤ) (armed : List Armed) → Finds now_ms armed (earliest now_ms armed)
unfolding earliest
earliest-Finds now_ms [] = tt
earliest-Finds now_ms (a ∷ armed) =
    choose-Finds now_ms a armed (earliest now_ms armed) (earliest-Finds now_ms armed)

-- What is armed in place of the timer that fired.
abbrev pub after_firing : ℤ → List Armed → ℕ → Armed → List Armed
after_firing now_ms armed i a = if a.repeat then update armed i (rearm now_ms a) else remove armed i

abbrev pub Fires : Scheduled → ℤ → Option (ℕ × Scheduled) → Type 0
Fires s now_ms none = All (λ b. is_due now_ms b ≡ false) s.armed
Fires s now_ms (some (id, s')) =
    (i : ℕ) × (a : Armed) × (get_elem? s.armed i ≡ some a)
    × (is_due now_ms a ≡ true)
    × LeastDue now_ms s.armed a
    × (id ≡ a.id)
    × (s' ≡ record { next_id = s.next_id; armed = after_firing now_ms s.armed i a })

-- `due_one` answers `None` only if no armed timer is due. Otherwise the timer it fires is armed and
-- due, no due timer comes before it by due time and then id, and afterwards that timer alone has
-- changed: it is re-armed one period from now if it repeats, and gone if it does not.
pub due_one-Fires : (s : Scheduled) (now_ms : ℤ) → Fires s now_ms (due_one s now_ms)
unfolding due_one
due_one-Fires s now_ms = go (earliest now_ms s.armed) (earliest-Finds now_ms s.armed)
  where
    go : (r : Option (ℕ × Armed)) → Finds now_ms s.armed r → Fires s now_ms (fire s now_ms r)
    go none h = h
    go (some (i, a)) (at, due, least) = (i, a, at, due, least, refl, refl)
