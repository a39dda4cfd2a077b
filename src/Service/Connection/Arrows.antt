-- ===== src/Service/Connection/Arrows.antt =====
-- About how crates/service/src/connection.rs finds the arrow.
use eieio.Base.{
  ℕ, ◌&&◌, Option, none, some, [], ◌∷◌, ◌++◌, ◌==◌, ◌≡◌, ◌≢◌, refl, ap, ◌∙◌, inl, inr, arith,
  Bool-cases, and-true,
}
use eieio.Service.Text.{Chars}
use eieio.Service.Connection.{strip_arrow, arrow_or, find_arrow}

-- There is no arrow anywhere in the text.
abbrev pub Arrowless : Chars → Type 0
Arrowless s = (front : Chars) (back : Chars) → s ≢ front ++ b'-' ∷ b'>' ∷ back

pub data FoundArrow : Chars → Option (Chars × Chars) → Type 0 where
  no_arrow : {s : Chars} → Arrowless s → FoundArrow s none
  at :
      {s : Chars} (front back : Chars)
      → Arrowless front
      → s ≡ front ++ b'-' ∷ b'>' ∷ back
      → FoundArrow s (some (front, back))

data Stripped : Chars → Option Chars → Type 0 where
  arrow : {s : Chars} (back : Chars) → s ≡ b'-' ∷ b'>' ∷ back → Stripped s (some back)
  other : {s : Chars} → ((back : Chars) → s ≢ b'-' ∷ b'>' ∷ back) → Stripped s none

strip_arrow-Stripped : (s : Chars) → Stripped s (strip_arrow s)
unfolding strip_arrow
strip_arrow-Stripped [] = other (λ back e. cc)
strip_arrow-Stripped (a ∷ []) = other (λ back e. cc)
strip_arrow-Stripped (a ∷ b ∷ s) = elim (Bool-cases ((a == b'-') && (b == b'>'))) [
  | inl h ↦
      let (p, q) = and-true (a == b'-') (b == b'>') h in
      let dash : a ≡ b'-' = ground arith in
      let tip : b ≡ b'>' = ground arith in rw h (arrow s (rw (dash, tip) refl))
  | inr h ↦ rw h (other (λ back e. ground arith))
]

Arrowless-nil : Arrowless []
Arrowless-nil [] back e = cc
Arrowless-nil (c ∷ front) back e = cc

Arrowless-cons :
    (c : ℕ) (s : Chars)
    → ((back : Chars) → c ∷ s ≢ b'-' ∷ b'>' ∷ back)
    → Arrowless s
    → Arrowless (c ∷ s)
Arrowless-cons c s here later [] back e = here back e
Arrowless-cons c s here later (d ∷ front) back e = later front back (cc)

arrow_or-FoundArrow :
    (c : ℕ) (s : Chars) (stripped : Option Chars) (later : Option (Chars × Chars))
    → Stripped (c ∷ s) stripped
    → FoundArrow s later
    → FoundArrow (c ∷ s) (arrow_or stripped c later)
unfolding arrow_or
arrow_or-FoundArrow c s _ later (arrow back e) found = at [] back Arrowless-nil e
arrow_or-FoundArrow c s _ _ (other none_here) (no_arrow none_later) =
    no_arrow (Arrowless-cons c s none_here none_later)
arrow_or-FoundArrow c s _ _ (other none_here) (at front back first e) =
    let here : (x : Chars) → c ∷ front ≢ b'-' ∷ b'>' ∷ x = λ x h.
      none_here (x ++ b'-' ∷ b'>' ∷ back) (ap (◌∷◌ c) e ∙ ap (λ t. t ++ b'-' ∷ b'>' ∷ back) h) in
    at (c ∷ front) back (Arrowless-cons c front here first) (ap (◌∷◌ c) e)

pub find_arrow-FoundArrow : (s : Chars) → FoundArrow s (find_arrow s)
unfolding find_arrow
find_arrow-FoundArrow [] = no_arrow Arrowless-nil
find_arrow-FoundArrow (c ∷ s) =
    arrow_or-FoundArrow c s (strip_arrow (c ∷ s)) (find_arrow s) (strip_arrow-Stripped (c ∷ s))
      (find_arrow-FoundArrow s)
