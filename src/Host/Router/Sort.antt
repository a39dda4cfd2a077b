-- ===== src/Host/Router/Sort.antt =====
-- About the sort by source in `resolve` (crates/host-core/src/router.rs).
use eieio.Base.{
  true, false, List, [], ◌∷◌, ◌≡◌, refl, arith, All, All-map, if◌then◌else◌, Bool-cases, inl, inr,
}
use eieio.Host.Router.{Endpoint, Target, endpoint_ltb, endpoint_eq, insert_pair, sort_pairs}

-- The targets of `e` among resolved pairs, in order: what a table has to answer.
abbrev pub declared : Endpoint → List (Endpoint × Target) → List Target
declared e [] = []
declared e ((from, t) ∷ pairs) =
    let rest = declared e pairs in if endpoint_eq from e then t ∷ rest else rest

abbrev pub NotBelow : Endpoint → Endpoint × Target → Type 0
NotBelow e p = endpoint_ltb p.0 e ≡ false

abbrev pub IsSorted : List (Endpoint × Target) → Type 0
IsSorted [] = Unit
IsSorted (p ∷ ps) = All (NotBelow p.0) ps × IsSorted ps

pub ltb_asym : (e f : Endpoint) → endpoint_ltb e f ≡ true → endpoint_ltb f e ≡ false
ltb_asym e f h = ground arith

pub ltb_trans :
    (e f g : Endpoint)
    → endpoint_ltb e f ≡ true
    → endpoint_ltb g f ≡ false
    → endpoint_ltb e g ≡ true
ltb_trans e f g h k = ground arith

pub not_ltb_trans :
    (e f g : Endpoint)
    → endpoint_ltb f e ≡ false
    → endpoint_ltb g f ≡ false
    → endpoint_ltb g e ≡ false
not_ltb_trans e f g h k = ground arith

declared-insert_pair :
    (e : Endpoint) (p : Endpoint × Target) (ps : List (Endpoint × Target))
    → declared e (insert_pair p ps) ≡ declared e (p ∷ ps)
unfolding insert_pair
declared-insert_pair e p [] = refl
declared-insert_pair e p (q ∷ qs) = ground (arith, declared-insert_pair e p qs)

pub declared-sort_pairs :
    (e : Endpoint) (ps : List (Endpoint × Target)) → declared e (sort_pairs ps) ≡ declared e ps
unfolding sort_pairs
declared-sort_pairs e [] = refl
declared-sort_pairs e (p ∷ ps) =
    ground (arith, declared-insert_pair e p (sort_pairs ps), declared-sort_pairs e ps)

All-insert_pair :
    (P : Endpoint × Target → Type 0) (p : Endpoint × Target) (ps : List (Endpoint × Target))
    → P p
    → All P ps
    → All P (insert_pair p ps)
unfolding insert_pair
All-insert_pair P p [] h hs = (h, tt)
All-insert_pair P p (q ∷ qs) h hs = elim (Bool-cases (endpoint_ltb q.0 p.0)) [
  | inl below ↦ rw below (hs.0, All-insert_pair P p qs h hs.1)
  | inr above ↦ rw above (h, hs)
]

insert_pair-IsSorted :
    (p : Endpoint × Target) (ps : List (Endpoint × Target))
    → IsSorted ps
    → IsSorted (insert_pair p ps)
unfolding insert_pair
insert_pair-IsSorted p [] h = (tt, tt)
insert_pair-IsSorted p (q ∷ qs) h = elim (Bool-cases (endpoint_ltb q.0 p.0)) [
  | inl below ↦ rw below (
    All-insert_pair (NotBelow q.0) p qs (ltb_asym q.0 p.0 below) h.0,
    insert_pair-IsSorted p qs h.1,
  )
  | inr above ↦ rw above (
    (above, All-map (NotBelow q.0) (NotBelow p.0) qs (λ r. not_ltb_trans p.0 q.0 r.0 above) h.0),
    h,
  )
]

pub sort_pairs-IsSorted : (ps : List (Endpoint × Target)) → IsSorted (sort_pairs ps)
unfolding sort_pairs
sort_pairs-IsSorted [] = tt
sort_pairs-IsSorted (p ∷ ps) = insert_pair-IsSorted p (sort_pairs ps) (sort_pairs-IsSorted ps)
