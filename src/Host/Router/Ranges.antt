-- ===== src/Host/Router/Ranges.antt =====
-- About the slices of a table (crates/host-core/src/router.rs): they stay within its targets.
use eieio.Base.{
  ℕ, suc, ◌+◌, ◌%◌, ◌^◌, ◌≤◌, false, some, List, [], ◌∷◌, ◌++◌, ◌≡◌, refl, subst, sym, arith, All,
  Bool-cases, inl, inr, length, length-append, take, drop, ltb,
}
use eieio.Host.Router.{
  Endpoint, Target, Source, Routes, endpoint_eq, extend_sources, build_table, table, sort_pairs,
  run,
}

abbrev pub IsWithin : ℕ → Source → Type 0
IsWithin n s = s.start + s.len ≤ n

-- A source that lies within `n` targets lies within one more, also when its length wraps.
extend-IsWithin :
    (n now : ℕ) (ss : List Source) (from : Endpoint)
    → now ≤ n
    → All (IsWithin n) ss
    → All (IsWithin (suc n)) (extend_sources ss from now)
unfolding extend_sources
extend-IsWithin n now [] from le h = (omega arith, tt)
extend-IsWithin n now (s ∷ []) from le h = elim (Bool-cases (endpoint_eq s.source from)) [
  | inl same ↦ rw same (omega (arith, h.0), tt)
  | inr other ↦ rw other (omega (arith, h.0), (omega arith, tt))
]
extend-IsWithin n now (s ∷ t ∷ ss) from le h =
    (omega (arith, h.0), extend-IsWithin n now (t ∷ ss) from le h.1)

abbrev pub AreWithin : Routes → Type 0
AreWithin r = All (IsWithin (length r.targets)) r.sources

build_table-AreWithin :
    (ps : List (Endpoint × Target)) (r : Routes) → AreWithin r → AreWithin (build_table r ps)
unfolding build_table
build_table-AreWithin [] r h = h
build_table-AreWithin ((from, target) ∷ ps) r h =
    let n = length r.targets in
    let longer : length (r.targets ++ target ∷ []) ≡ suc n =
      omega (arith, length-append r.targets (target ∷ [])) in
    build_table-AreWithin ps _ (
      subst (λ k. All (IsWithin k) (extend_sources r.sources from (n % 2 ^ 32))) (sym longer)
        (extend-IsWithin n (n % 2 ^ 32) r.sources from (omega arith) h))

pub table-AreWithin : (ps : List (Endpoint × Target)) → AreWithin (table ps)
table-AreWithin ps =
    build_table-AreWithin (sort_pairs ps) (record { sources = []; targets = [] }) tt

pub run_within :
    (r : Routes) (s : Source)
    → IsWithin (length r.targets) s
    → run r s ≡ some (take s.len (drop s.start r.targets))
unfolding run
run_within r s h =
    let inside : ltb (length r.targets) (s.start + s.len) ≡ false = ground arith in rw inside refl
