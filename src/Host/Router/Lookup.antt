-- ===== src/Host/Router/Lookup.antt =====
-- About the lookups in a resolved table (crates/host-core/src/router.rs).
use mathlib.Core.Option.{some-injective}
use eieio.Base.{
  ℕ, zero, suc, ◌+◌, ◌%◌, ◌^◌, ◌<◌, ◌≤◌, true, false, Option, none, some, List, [], ◌∷◌, ◌++◌, map,
  ◌≡◌, refl, sym, ap, subst, ◌∙◌, arith, All, All-get, Option-cases, if◌then◌else◌, length,
  get_elem?, any, Result, ok, err, ok-injective, Bool-cases, inl, inr, >>=-splits,
}
use eieio.Host.Router.{
  Endpoint, Target, Source, Routes, Descriptor, Connection, RouteError, endpoint_eq, resolve_output,
  resolve_input, resolve_pairs, insert_pair, sort_pairs, table, run, repeated, find_duplicate,
  duplicate_error, checked, check_duplicates, resolve, targets,
}
use eieio.Host.Router.Ranges.{AreWithin, IsWithin, table-AreWithin, run_within}
use eieio.Host.Router.Sort.{declared, declared-sort_pairs, sort_pairs-IsSorted}
use eieio.Host.Router.Table.{Covers, build_table-Covers}
use eieio.Host.Router.Runs.{Covers-run, Covers-none, Covers-ascend}
use eieio.Host.Router.Search.{Searches, binary_search-Searches}

abbrev Pairs : Type 0
Pairs = List (Endpoint × Target)

length-insert_pair :
    (p : Endpoint × Target) (ps : Pairs) → length (insert_pair p ps) ≡ suc (length ps)
unfolding insert_pair
length-insert_pair p [] = refl
length-insert_pair p (q ∷ qs) = ground (arith, length-insert_pair p qs)

length-sort_pairs : (ps : Pairs) → length (sort_pairs ps) ≡ length ps
unfolding sort_pairs
length-sort_pairs [] = refl
length-sort_pairs (p ∷ ps) =
    omega (arith, length-insert_pair p (sort_pairs ps), length-sort_pairs ps)

-- The whole table of some pairs: its sources are the blocks of the sorted pairs.
table-Covers :
    (ps : Pairs)
    → length ps < 2 ^ 32
    → Covers 0 (table ps).sources (sort_pairs ps)
      × ((table ps).targets ≡ map (λ p. p.1) (sort_pairs ps))
table-Covers ps short =
    build_table-Covers (sort_pairs ps) [] (sort_pairs ps) _ refl (sort_pairs-IsSorted ps)
      (omega (arith, length-sort_pairs ps)) refl refl

eq_sides : (e f : Endpoint) → endpoint_eq e f ≡ true → e ≡ f
eq_sides e f h = ground arith

no_source :
    (ss : List Source) (e : Endpoint)
    → ((i : ℕ) (s : Source) → get_elem? ss i ≡ some s → endpoint_eq s.source e ≡ false)
    → All (λ (s : Source). endpoint_eq s.source e ≡ false) ss
no_source [] e h = tt
no_source (s ∷ ss) e h = (h 0 s refl, no_source ss e (λ i. h (suc i)))

get_elem?_bound : (ss : List Source) (i : ℕ) (s : Source) → get_elem? ss i ≡ some s → i < length ss
get_elem?_bound [] i s h = absurd (ground arith)
get_elem?_bound (t ∷ ss) zero s h = omega arith
get_elem?_bound (t ∷ ss) (suc i) s h = omega (arith, get_elem?_bound ss i s h)

-- The search over a table's sources, and what is then answered.
answer :
    (r : Routes) (ps : Pairs) (e : Endpoint)
    → Covers 0 r.sources ps
    → r.targets ≡ map (λ p. p.1) ps
    → AreWithin r
    → (found : Option Source) → Searches r.sources e 0 (length r.sources) found
    → (elim found [ some s ↦ run r s | none ↦ some [] ]) ≡ some (declared e ps)
answer r ps e c ts ranges none h = ap some (
    sym (
      Covers-none e 0 r.sources ps c (
        no_source r.sources e
          (λ i s at. h i s (omega arith) (get_elem?_bound r.sources i s at) at))))
answer r ps e c ts ranges (some s) (i, at, same) =
    run_within r s (All-get (IsWithin (length r.targets)) r.sources i s ranges at)
    ∙ ap some (
        Covers-run 0 r.sources ps r.targets i s c ts at
        ∙ ap (λ f. declared f ps) (eq_sides s.source e same))

targets-table :
    (ps : Pairs) (e : Endpoint) → length ps < 2 ^ 32 → targets (table ps) e ≡ some (declared e ps)
unfolding targets
targets-table ps e short =
    let (c, ts) = table-Covers ps short in
    let ss = (table ps).sources in
    answer (table ps) (sort_pairs ps) e c ts (table-AreWithin ps) _ (
      binary_search-Searches ss e (λ i j s t. Covers-ascend 0 ss (sort_pairs ps) i j s t c)
        (suc (length ss)) 0 (length ss) (omega arith) (omega arith))
    ∙ ap some (declared-sort_pairs e ps)

-- One connection's contribution to what an endpoint reaches: its target, if it is from there and
-- both of its ends resolve.
abbrev pub wire :
    Endpoint
    → Connection
    → ℕ
    → Result RouteError Endpoint
    → Result RouteError Endpoint
    → List Target
    → List Target
wire e c index (ok from) (ok to) rest =
    if endpoint_eq from e
    then record { to = to; overflow = c.overflow; connection = index } ∷ rest
    else rest
wire e c index _ _ rest = rest

-- What an endpoint reaches, read off the service's own list.
abbrev pub wired : List Descriptor → Endpoint → ℕ → List Connection → List Target
wired ds e index [] = []
wired ds e index (c ∷ cs) =
    wire e c index (resolve_output ds c.source) (resolve_input ds c.to) (wired ds e (suc index) cs)

wire_ok :
    (e from to : Endpoint) (c : Connection) (index : ℕ) (rest : Pairs) (ts : List Target)
    (a b : Result RouteError Endpoint)
    → index % 2 ^ 32 ≡ index
    → a ≡ ok from
    → b ≡ ok to
    → declared e rest ≡ ts
    → declared e
        ((from, record { to = to; overflow = c.overflow; connection = index % 2 ^ 32 }) ∷ rest)
      ≡ wire e c index a b ts
wire_ok e from to c index rest ts a b same ha hb ih = rw (ha, hb, same, ih)

resolve_pairs-wired :
    (ds : List Descriptor) (e : Endpoint) (cs : List Connection) (index : ℕ) (ps : Pairs)
    → index + length cs ≤ 2 ^ 32
    → resolve_pairs ds index cs ≡ ok ps
    → (declared e ps ≡ wired ds e index cs) × (length ps ≡ length cs)
unfolding resolve_pairs
resolve_pairs-wired ds e [] index ps short h =
    (ap (declared e) (sym (ok-injective h)), ap length (sym (ok-injective h)))
resolve_pairs-wired ds e (c ∷ cs) index ps short h =
    let (from, hf, h') = >>=-splits (resolve_output ds c.source) _ h in
    let (to, ht, h'') = >>=-splits (resolve_input ds c.to) _ h' in
    let (rest, hr, done) = >>=-splits (resolve_pairs ds (suc index) cs) _ h'' in
    let (ih, len) = resolve_pairs-wired ds e cs (suc index) rest (omega arith) hr in
    let same : index % 2 ^ 32 ≡ index = omega arith in
    (
      ap (declared e) (sym (ok-injective done))
          ∙ wire_ok e from to c index rest _ _ _ same hf ht ih,
      omega (arith, len, ap length (sym (ok-injective done))),
    )

checked-ok :
    (cs : List Connection) (t r : Routes) (found : Option (Option Target))
    → checked cs t found ≡ some (ok r)
    → (r ≡ t) × (found ≡ some none)
unfolding duplicate_error
checked-ok cs t r none h = absurd (ground arith)
checked-ok cs t r (some none) h = ground arith
checked-ok cs t r (some (some d)) h = ground arith

check_duplicates-ok :
    (cs : List Connection) (t r : Routes)
    → check_duplicates cs t ≡ some (ok r)
    → (r ≡ t) × (find_duplicate t t.sources ≡ some none)
unfolding check_duplicates
check_duplicates-ok cs t r h = checked-ok cs t r (find_duplicate t t.sources) h

resolve-ok :
    (ds : List Descriptor) (cs : List Connection) (r : Routes)
    → resolve ds cs ≡ some (ok r)
    → (ps : Pairs) × (resolve_pairs ds 0 cs ≡ ok ps)
      × (r ≡ table ps)
      × (find_duplicate r r.sources ≡ some none)
unfolding resolve
resolve-ok ds cs r h = go (resolve_pairs ds 0 cs) refl
  where
    go :
        (p : Result RouteError Pairs)
        → resolve_pairs ds 0 cs ≡ p
        → (ps : Pairs) × (resolve_pairs ds 0 cs ≡ ok ps)
          × (r ≡ table ps)
          × (find_duplicate r r.sources ≡ some none)
    go (err e) q = absurd (ground arith)
    go (ok ps) q =
        let (same, unique) = check_duplicates-ok cs (table ps) r (rw (q, resolve) at h) in
        (
          ps,
          q,
          same,
          subst (λ (x : Routes). find_duplicate x x.sources ≡ some none) (sym same) unique,
        )

-- If the table is built, fewer than 2^32 connections being declared, then every endpoint's targets are
-- those of the connections from it whose ends resolve, with their policies and their positions in
-- the service, in the order of the service.
pub targets-resolve :
    (ds : List Descriptor) (cs : List Connection) (r : Routes) (e : Endpoint)
    → length cs < 2 ^ 32
    → resolve ds cs ≡ some (ok r)
    → targets r e ≡ some (wired ds e 0 cs)
targets-resolve ds cs r e short h =
    let (ps, resolved, built, _) = resolve-ok ds cs r h in
    let (same, len) = resolve_pairs-wired ds e cs 0 ps (omega arith) resolved in
    ap (λ x. targets x e) built ∙ targets-table ps e (omega (arith, len)) ∙ ap some same

-- No earlier target has the destination of a later one.
abbrev pub Distinct : List Target → List Target → Type 0
Distinct earlier [] = Unit
Distinct earlier (t ∷ ts) =
    (any (λ e. endpoint_eq e.to t.to) earlier ≡ false) × Distinct (earlier ++ t ∷ []) ts

repeated-Distinct : (earlier ts : List Target) → repeated earlier ts ≡ none → Distinct earlier ts
unfolding repeated
repeated-Distinct earlier [] h = tt
repeated-Distinct earlier (t ∷ ts) h =
    elim (Bool-cases (any (λ e. endpoint_eq e.to t.to) earlier)) [
      | inl again ↦ absurd (ground arith)
      | inr new ↦ (new, repeated-Distinct (earlier ++ t ∷ []) ts (rw new at h))
    ]

-- The lookup finds targets, no two of them with the same destination.
abbrev pub DistinctIn : Option (List Target) → Type 0
DistinctIn none = ⊥
DistinctIn (some ts) = Distinct [] ts

source-DistinctIn :
    (r : Routes) (t : Source) (ss : List Source) (ts : List Target) (i : ℕ) (s : Source)
    → run r t ≡ some ts
    → Distinct [] ts
    → ((k : ℕ) → get_elem? ss k ≡ some s → DistinctIn (run r s))
    → get_elem? (t ∷ ss) i ≡ some s
    → DistinctIn (run r s)
source-DistinctIn r t ss ts zero s found distinct later at =
    subst (λ x. DistinctIn (run r x)) (some-injective t s at) (rw found distinct)
source-DistinctIn r t ss ts (suc k) s found distinct later at = later k at

find_duplicate-Distinct :
    (r : Routes) (ss : List Source) (i : ℕ) (s : Source)
    → find_duplicate r ss ≡ some none
    → get_elem? ss i ≡ some s
    → DistinctIn (run r s)
unfolding find_duplicate
find_duplicate-Distinct r [] i s h at = absurd (ground arith)
find_duplicate-Distinct r (t ∷ ss) i s h at = elim (Option-cases (run r t)) [
  | inl outside ↦ absurd (ground arith)
  | inr (ts, found) ↦ elim (Option-cases (repeated [] ts)) [
    | inr (d, again) ↦ absurd (ground arith)
    | inl unique ↦
        source-DistinctIn r t ss ts i s found (repeated-Distinct [] ts unique)
          (λ k. find_duplicate-Distinct r ss k s (ground arith)) at
  ]
]

targets-Distinct :
    (r : Routes) (e : Endpoint)
    → find_duplicate r r.sources ≡ some none
    → (found : Option Source) → Searches r.sources e 0 (length r.sources) found
    → DistinctIn (elim found [ some s ↦ run r s | none ↦ some [] ])
targets-Distinct r e unique none h = tt
targets-Distinct r e unique (some s) (i, at, _) = find_duplicate-Distinct r r.sources i s unique at

-- If the table is built, fewer than 2^32 connections being declared, then every endpoint's targets
-- are found, and no two of them have the same destination.
pub resolve-Distinct :
    (ds : List Descriptor) (cs : List Connection) (r : Routes) (e : Endpoint)
    → length cs < 2 ^ 32
    → resolve ds cs ≡ some (ok r)
    → DistinctIn (targets r e)
unfolding targets
resolve-Distinct ds cs r e short h =
    let (ps, resolved, built, unique) = resolve-ok ds cs r h in
    let (_, len) = resolve_pairs-wired ds e cs 0 ps (omega arith) resolved in
    let c =
      subst (λ (x : Routes). Covers 0 x.sources (sort_pairs ps)) (sym built)
        (table-Covers ps (omega (arith, len))).0 in
    targets-Distinct r e unique _ (
      binary_search-Searches r.sources e
        (λ i j s t. Covers-ascend 0 r.sources (sort_pairs ps) i j s t c) (suc (length r.sources)) 0
        (length r.sources) (omega arith) (omega arith))
