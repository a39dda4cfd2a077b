-- ===== src/Host/Router/Search.antt =====
-- About the binary search over the sources (crates/host-core/src/router.rs).
use mathlib.Core.Option.{some-injective}
use eieio.Base.{
  ℕ, zero, suc, ◌+◌, ◌/◌, ◌<◌, ◌≤◌, true, false, Option, none, some, List, ◌≡◌, sym, ap, subst, ◌∙◌,
  arith, leb, length, get_elem?, get_elem?_lt, ◌⊎◌, inl, inr, Bool-cases,
}
use eieio.Host.Router.{Endpoint, Source, endpoint_ltb, endpoint_eq, binary_search}

abbrev pub IsAscending : List Source → Type 0
IsAscending ss =
    (i j : ℕ) (s t : Source)
    → i < j
    → get_elem? ss i ≡ some s
    → get_elem? ss j ≡ some t
    → endpoint_ltb s.source t.source ≡ true

-- What a search for `e` may answer: a source of `e`, or nothing, if none between the bounds is `e`'s.
abbrev pub Searches : List Source → Endpoint → ℕ → ℕ → Option Source → Type 0
Searches ss e lo hi (some s) = (i : ℕ) × (get_elem? ss i ≡ some s) × (endpoint_eq s.source e ≡ true)
Searches ss e lo hi none =
    (i : ℕ) (s : Source)
    → lo ≤ i
    → i < hi
    → get_elem? ss i ≡ some s
    → endpoint_eq s.source e ≡ false

ne_of_lt_above :
    (m s e : Endpoint) → endpoint_ltb m e ≡ true → endpoint_ltb s m ≡ true → endpoint_eq s e ≡ false
ne_of_lt_above m s e h k = ground arith

ne_of_gt_below :
    (m s e : Endpoint)
    → endpoint_eq m e ≡ false
    → endpoint_ltb m e ≡ false
    → endpoint_ltb m s ≡ true
    → endpoint_eq s e ≡ false
ne_of_gt_below m s e n h k = ground arith

tri : (i j : ℕ) → (i < j) ⊎ ((i ≡ j) ⊎ (j < i))
tri i j = grind arith

same_source :
    (ss : List Source) (e : Endpoint) (i mid : ℕ) (s m : Source)
    → i ≡ mid
    → get_elem? ss i ≡ some s
    → get_elem? ss mid ≡ some m
    → endpoint_eq m.source e ≡ false
    → endpoint_eq s.source e ≡ false
same_source ss e i mid s m same here at ne =
    subst (λ (x : Source). endpoint_eq x.source e ≡ false)
      (some-injective m s (sym at ∙ ap (get_elem? ss) (sym same) ∙ here)) ne

module _ (ss : List Source) (e : Endpoint) (ascending : IsAscending ss) where
  -- The half that is left decides, if the middle source is below, or above, what is asked for.
  widen_above :
      (lo hi mid : ℕ) (m : Source) (r : Option Source)
      → get_elem? ss mid ≡ some m
      → endpoint_eq m.source e ≡ false
      → endpoint_ltb m.source e ≡ true
      → Searches ss e (suc mid) hi r
      → Searches ss e lo hi r
  widen_above lo hi mid m (some s) at ne lt h = h
  widen_above lo hi mid m none at ne lt h = λ i s low high here. elim (tri i mid) [
    | inl below ↦ ne_of_lt_above m.source s.source e lt (ascending i mid s m below here at)
    | inr (inl same) ↦ same_source ss e i mid s m same here at ne
    | inr (inr above) ↦ h i s (omega arith) high here
  ]

  widen_below :
      (lo hi mid : ℕ) (m : Source) (r : Option Source)
      → get_elem? ss mid ≡ some m
      → endpoint_eq m.source e ≡ false
      → endpoint_ltb m.source e ≡ false
      → Searches ss e lo mid r
      → Searches ss e lo hi r
  widen_below lo hi mid m (some s) at ne lt h = h
  widen_below lo hi mid m none at ne lt h = λ i s low high here. elim (tri i mid) [
    | inl below ↦ h i s low below here
    | inr (inl same) ↦ same_source ss e i mid s m same here at ne
    | inr (inr above) ↦ ne_of_gt_below m.source s.source e ne lt (ascending mid i m s above at here)
  ]

  pub binary_search-Searches :
      (fuel lo hi : ℕ)
      → hi ≤ length ss
      → hi < lo + fuel
      → Searches ss e lo hi (binary_search ss e fuel lo hi)
  unfolding binary_search
  binary_search-Searches zero lo hi within enough = λ i s low high. absurd (omega arith)
  binary_search-Searches (suc fuel) lo hi within enough = elim (Bool-cases (leb hi lo)) [
    | inl empty ↦ rw empty (λ i s low high. absurd (ground arith))
    | inr some_left ↦
        let (m, at) = get_elem?_lt ss ((lo + hi) / 2) (ground arith) in
        rw (some_left, at)
          (elim (Bool-cases (endpoint_eq m.source e)) [
            | inl found ↦ rw found ((lo + hi) / 2, at, found)
            | inr other ↦ rw other (elim (Bool-cases (endpoint_ltb m.source e)) [
              | inl lt ↦ rw lt (
                  widen_above lo hi ((lo + hi) / 2) m _ at other lt
                    (binary_search-Searches fuel (suc ((lo + hi) / 2)) hi within (ground arith)))
              | inr ge ↦ rw ge (
                  widen_below lo hi ((lo + hi) / 2) m _ at other ge
                    (binary_search-Searches fuel lo ((lo + hi) / 2) (ground arith) (ground arith)))
            ])
          ])
  ]
