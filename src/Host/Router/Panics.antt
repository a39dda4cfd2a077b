-- ===== src/Host/Router/Panics.antt =====
-- About the panics of `resolve` and of the lookups (crates/host-core/src/router.rs).
use eieio.Base.{
  ℕ, zero, suc, ◌+◌, ◌/◌, ◌<◌, Option, none, some, List, [], ◌∷◌, ◌++◌, ◌≡◌, ◌≢◌, refl, subst,
  arith, All, All-append, All-map, length, get_elem?, get_elem?_lt, take, drop, any, Result, ok,
  err, ok-injective, leb, ◌==◌, if◌then◌else◌, Option-cases, Bool-cases, if-splits, inl, inr,
  >>=-splits,
}
use mathlib.Core.Option.{some-injective}
use eieio.Host.Router.{
  Endpoint, Target, Source, Routes, Descriptor, Connection, endpoint_eq, endpoint_ltb,
  binary_search, targets, outgoing, outgoing_from, resolve_output, resolve_input, resolve_pairs,
  insert_pair, sort_pairs, table, build_table, run, repeated, find_duplicate, RouteError,
  duplicate_error, checked, check_duplicates, resolve,
}
use eieio.Host.Router.Ranges.{IsWithin, AreWithin, table-AreWithin, run_within}

-- The target comes from one of the first `n` connections.
abbrev IsOf : ℕ → Target → Type 0
IsOf n t = t.connection < n

All-take : (P : Target → Type 0) (n : ℕ) (ts : List Target) → All P ts → All P (take n ts)
All-take P zero ts h = tt
All-take P (suc n) [] h = tt
All-take P (suc n) (t ∷ ts) h = (h.0, All-take P n ts h.1)

All-drop : (P : Target → Type 0) (n : ℕ) (ts : List Target) → All P ts → All P (drop n ts)
All-drop P zero ts h = h
All-drop P (suc n) [] h = tt
All-drop P (suc n) (t ∷ ts) h = All-drop P n ts h.1

All-insert_pair :
    (P : Target → Type 0) (p : Endpoint × Target) (ps : List (Endpoint × Target))
    → All (λ q. P q.1) (p ∷ ps)
    → All (λ q. P q.1) (insert_pair p ps)
unfolding insert_pair
All-insert_pair P p [] h = h
All-insert_pair P p (q ∷ qs) (hp, (hq, hs)) = elim (Bool-cases (endpoint_ltb q.0 p.0)) [
  | inl lt ↦ rw lt (hq, All-insert_pair P p qs (hp, hs))
  | inr ge ↦ rw ge (hp, (hq, hs))
]

All-sort_pairs :
    (P : Target → Type 0) (ps : List (Endpoint × Target))
    → All (λ q. P q.1) ps
    → All (λ q. P q.1) (sort_pairs ps)
unfolding sort_pairs
All-sort_pairs P [] h = tt
All-sort_pairs P (p ∷ ps) h = All-insert_pair P p (sort_pairs ps) (h.0, All-sort_pairs P ps h.1)

All-build_table :
    (P : Target → Type 0) (ps : List (Endpoint × Target)) (r : Routes)
    → All P r.targets
    → All (λ q. P q.1) ps
    → All P (build_table r ps).targets
unfolding build_table
All-build_table P [] r h hs = h
All-build_table P (p ∷ ps) r h hs =
    All-build_table P ps _ (All-append P r.targets (p.1 ∷ []) h (hs.0, tt)) hs.1

repeated-All :
    (P : Target → Type 0) (earlier ts : List Target) (t : Target)
    → All P ts
    → repeated earlier ts ≡ some t
    → P t
unfolding repeated
repeated-All P earlier [] t h e = absurd (ground arith)
repeated-All P earlier (x ∷ xs) t h e =
    elim (Bool-cases (any (λ d. endpoint_eq d.to x.to) earlier)) [
      | inl again ↦ subst P (some-injective x t (rw again at e)) h.0
      | inr new ↦ repeated-All P (earlier ++ x ∷ []) xs t h.1 (rw new at e)
    ]

-- What a search for a duplicate finds, without a panic: a target of the table, or none.
abbrev Finds : (Target → Type 0) → Option (Option Target) → Type 0
Finds P none = ⊥
Finds P (some none) = Unit {0}
Finds P (some (some t)) = P t

find_duplicate-Finds :
    (P : Target → Type 0) (r : Routes) (ss : List Source)
    → All P r.targets
    → All (IsWithin (length r.targets)) ss
    → Finds P (find_duplicate r ss)
unfolding find_duplicate
find_duplicate-Finds P r [] h ranges = tt
find_duplicate-Finds P r (s ∷ ss) h ranges =
    let ts = take s.len (drop s.start r.targets) in
    let later = find_duplicate-Finds P r ss h ranges.1 in
    elim (Option-cases (repeated [] ts)) [
      | inl unique ↦
          rw (run_within r s ranges.0, find_duplicate) (rw (unique, find_duplicate) later)
      | inr (t, again) ↦
          rw (run_within r s ranges.0, find_duplicate)
            (rw (again, find_duplicate)
              (repeated-All P [] ts t (All-take P s.len _ (All-drop P s.start r.targets h)) again))
    ]

resolve_pairs-IsOf :
    (ds : List Descriptor) (cs : List Connection) (index : ℕ) (ps : List (Endpoint × Target))
    → resolve_pairs ds index cs ≡ ok ps
    → All (λ q. IsOf (index + length cs) q.1) ps
unfolding resolve_pairs
resolve_pairs-IsOf ds [] index ps h = subst (All _) (ok-injective h) tt
resolve_pairs-IsOf ds (c ∷ cs) index ps h =
    let (from, hf, h') = >>=-splits (resolve_output ds c.source) _ h in
    let (to, ht, h'') = >>=-splits (resolve_input ds c.to) _ h' in
    let (rest, hr, done) = >>=-splits (resolve_pairs ds (suc index) cs) _ h'' in
    subst (All _) (ok-injective done) (
      omega arith,
      All-map (λ (q : Endpoint × Target). IsOf (suc index + length cs) q.1)
          (λ (q : Endpoint × Target). IsOf (index + suc (length cs)) q.1) rest (λ q k. omega arith)
          (resolve_pairs-IsOf ds cs (suc index) rest hr),
    )

outgoing-some :
    (r : Routes) (instance_index : ℕ) (ss : List Source)
    → All (IsWithin (length r.targets)) ss
    → (ts : List Target) × (outgoing_from r instance_index ss ≡ some ts)
unfolding outgoing_from
outgoing-some r instance_index [] ranges = ([], refl)
outgoing-some r instance_index (s ∷ ss) ranges =
    let (ts, later) = outgoing-some r instance_index ss ranges.1 in
    elim (Bool-cases (s.source.instance_index == instance_index)) [
      | inl own ↦
          (take s.len (drop s.start r.targets) ++ ts, rw (own, run_within r s ranges.0, later) refl)
      | inr other ↦ (ts, rw (other, later) refl)
    ]

-- What a search answers, if it answers a source, is one of the sources.
abbrev OfFound : (Source → Type 0) → Option Source → Type 0
OfFound P none = Unit {0}
OfFound P (some s) = P s

get_elem?-OfFound :
    (P : Source → Type 0) (ss : List Source) (i : ℕ) → All P ss → OfFound P (get_elem? ss i)
get_elem?-OfFound P [] i h = tt
get_elem?-OfFound P (s ∷ ss) zero h = h.0
get_elem?-OfFound P (s ∷ ss) (suc i) h = get_elem?-OfFound P ss i h.1

probed-OfFound :
    (P : Source → Type 0) (e : Endpoint) (middle above below : Option Source)
    → OfFound P middle
    → OfFound P above
    → OfFound P below
    → OfFound P (elim middle [
      | none ↦ none
      | some s ↦
          if endpoint_eq s.source e
          then some s
          else if endpoint_ltb s.source e
          then above
          else below
    ])
probed-OfFound P e none above below m a b = tt
probed-OfFound P e (some s) above below m a b =
    if-splits (OfFound P) (endpoint_eq s.source e) (some s) _ (λ _. m)
      (λ _. if-splits (OfFound P) (endpoint_ltb s.source e) above below (λ _. a) (λ _. b))

binary_search-OfFound :
    (P : Source → Type 0) (ss : List Source) (e : Endpoint) (fuel lo hi : ℕ)
    → All P ss
    → OfFound P (binary_search ss e fuel lo hi)
unfolding binary_search
binary_search-OfFound P ss e zero lo hi h = tt
binary_search-OfFound P ss e (suc fuel) lo hi h =
    let mid = (lo + hi) / 2 in
    if-splits (OfFound P) (leb hi lo) none _ (λ _. tt)
      (λ _.
        probed-OfFound P e (get_elem? ss mid) _ _ (get_elem?-OfFound P ss mid h)
          (binary_search-OfFound P ss e fuel (suc mid) hi h)
          (binary_search-OfFound P ss e fuel lo mid h))

targets_found :
    (r : Routes) (found : Option Source)
    → OfFound (IsWithin (length r.targets)) found
    → (elim found [ some s ↦ run r s | none ↦ some [] ]) ≢ none
targets_found r none h = λ e. cc
targets_found r (some s) h = rw (run_within r s h) (λ e. cc)

targets-ne-none : (r : Routes) (e : Endpoint) → AreWithin r → targets r e ≢ none
unfolding targets
targets-ne-none r e ranges = targets_found r _ (
    binary_search-OfFound (IsWithin (length r.targets)) r.sources e (suc (length r.sources)) 0
      (length r.sources) ranges)

-- What can be read of what `resolve` answers, without a panic: an error, or a table that has the
-- targets of every endpoint and of every instance.
abbrev pub IsReadable : Option (Result RouteError Routes) → Type 0
IsReadable none = ⊥
IsReadable (some (err e)) = Unit {0}
IsReadable (some (ok r)) =
    ((e : Endpoint) → targets r e ≢ none)
    × ((instance_index : ℕ) → outgoing r instance_index ≢ none)

table-IsReadable : (r : Routes) → AreWithin r → IsReadable (some (ok r))
unfolding outgoing
table-IsReadable r ranges = (
  λ e. targets-ne-none r e ranges,
  λ i. let (ts, found) = outgoing-some r i r.sources ranges in rw found (λ e. cc),
)

checked-IsReadable :
    (cs : List Connection) (r : Routes) (found : Option (Option Target))
    → AreWithin r
    → Finds (IsOf (length cs)) found
    → IsReadable (checked cs r found)
unfolding duplicate_error
checked-IsReadable cs r none ranges h = elim h [ ]
checked-IsReadable cs r (some none) ranges h = table-IsReadable r ranges
checked-IsReadable cs r (some (some t)) ranges h =
    let (c, at) = get_elem?_lt cs t.connection h in rw at tt

check_duplicates-IsReadable :
    (cs : List Connection) (ps : List (Endpoint × Target))
    → All (λ q. IsOf (length cs) q.1) ps
    → IsReadable (check_duplicates cs (table ps))
unfolding check_duplicates
check_duplicates-IsReadable cs ps h =
    let targets_of =
      All-build_table (IsOf (length cs)) (sort_pairs ps) (record { sources = []; targets = [] }) tt
        (All-sort_pairs (IsOf (length cs)) ps h) in
    checked-IsReadable cs (table ps) _ (table-AreWithin ps) (
      find_duplicate-Finds (IsOf (length cs)) (table ps) (table ps).sources targets_of
        (table-AreWithin ps))

resolved-IsReadable :
    (cs : List Connection) (pairs : Result RouteError (List (Endpoint × Target)))
    → ((ps : List (Endpoint × Target)) → pairs ≡ ok ps → All (λ q. IsOf (length cs) q.1) ps)
    → IsReadable (elim pairs [ err e ↦ some (err e) | ok ps ↦ check_duplicates cs (table ps) ])
resolved-IsReadable cs (err e) h = tt
resolved-IsReadable cs (ok ps) h = check_duplicates-IsReadable cs ps (h ps refl)

-- Nothing that slices or indexes panics, whatever the descriptors and the connections, and however
-- many, where the counts of targets wrap: not the building of the table, with the search for duplicates
-- in each source's run and the connection that an error names; and if a table comes of it, not
-- the lookup of any endpoint's targets in it, nor that of all that any instance emits into.
pub resolve-IsReadable : (ds : List Descriptor) (cs : List Connection) → IsReadable (resolve ds cs)
unfolding resolve
resolve-IsReadable ds cs = resolved-IsReadable cs (resolve_pairs ds 0 cs) λ ps q.
    All-map (λ (x : Endpoint × Target). IsOf (0 + length cs) x.1) _ ps (λ x k. omega arith)
      (resolve_pairs-IsOf ds cs 0 ps q)
