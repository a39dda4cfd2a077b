-- ===== src/Host/Router/Table.antt =====
-- About the second loop of `resolve` (crates/host-core/src/router.rs).
use eieio.Base.{
  ℕ, suc, ◌+◌, ◌%◌, ◌^◌, ◌<◌, true, false, List, [], ◌∷◌, ◌++◌, map, ◌≡◌, refl, sym, ap, subst, ◌∙◌,
  arith, All, All-tail, All-append, Bool-cases, inl, inr, length, length-append, length-map,
  map-append, append_assoc, append-nil,
}
use eieio.Host.Router.{
  Endpoint, Target, Source, Routes, endpoint_ltb, endpoint_eq, extend_sources, build_table,
}
use eieio.Host.Router.Sort.{NotBelow, IsSorted}

abbrev pub IsAt : Endpoint → Endpoint × Target → Type 0
IsAt e p = endpoint_eq e p.0 ≡ true

abbrev pub IsAfter : Endpoint → Endpoint × Target → Type 0
IsAfter e p = endpoint_ltb e p.0 ≡ true

-- The pairs begin with the run of `s`, which is not empty and at `start`; later sources are greater.
pub record Block (start : ℕ) (s : Source) (pairs : List (Endpoint × Target)) : Type 0 where
  pub first : Endpoint × Target
  pub more : List (Endpoint × Target)
  pub rest : List (Endpoint × Target)
  pub starts : s.start ≡ start
  pub fills : s.len ≡ suc (length more)
  pub at : All (IsAt s.source) (first ∷ more)
  pub after : All (IsAfter s.source) rest
  pub splits : pairs ≡ (first ∷ more) ++ rest

-- The sources are the blocks of the pairs, in order.
abbrev pub Covers : ℕ → List Source → List (Endpoint × Target) → Type 0
Covers start [] pairs = pairs ≡ []
Covers start (s ∷ ss) pairs = (b : Block start s pairs) × Covers (start + s.len) ss b.rest

at_of_not_below :
    (e f g : Endpoint)
    → endpoint_eq e f ≡ true
    → endpoint_ltb g f ≡ false
    → endpoint_eq e g ≡ false
    → endpoint_ltb e g ≡ true
at_of_not_below e f g h k n = ground arith

after_of_not_below :
    (e f g : Endpoint)
    → endpoint_ltb e f ≡ true
    → endpoint_ltb g f ≡ false
    → endpoint_ltb e g ≡ true
after_of_not_below e f g h k = ground arith

-- Every earlier pair is at most the new one.
abbrev Before : Endpoint × Target → List (Endpoint × Target) → Type 0
Before p = All (λ q. endpoint_ltb p.0 q.0 ≡ false)

fresh :
    (p : Endpoint × Target) (now : ℕ)
    → Block now (record { source = p.0; start = now; len = 1 }) (p ∷ [])
fresh p now = record {
  first = p;
  more = [];
  rest = [];
  starts = refl;
  fills = refl;
  at = (ground arith, tt);
  after = tt;
  splits = refl;
}

alone :
    (p : Endpoint × Target) (now start : ℕ)
    → now ≡ start
    → Covers start (record { source = p.0; start = now; len = 1 } ∷ []) (p ∷ [])
unfolding fresh
alone p now start e =
    subst (λ k. Covers k (record { source = p.0; start = now; len = 1 } ∷ []) (p ∷ [])) e
      (fresh p now, refl)

-- A block whose rest is extended by a greater pair.
widen :
    (p : Endpoint × Target) (start : ℕ) (s : Source) (ps : List (Endpoint × Target))
    → (b : Block start s ps) → endpoint_ltb s.source p.0 ≡ true
    → Block start s (ps ++ p ∷ [])
widen p start s ps b lt = record {
  first = b.first;
  more = b.more;
  rest = b.rest ++ p ∷ [];
  starts = b.starts;
  fills = b.fills;
  at = b.at;
  after = All-append (IsAfter s.source) b.rest (p ∷ []) b.after (lt, tt);
  splits = ap (λ l. l ++ p ∷ []) b.splits ∙ append_assoc (b.first ∷ b.more) b.rest (p ∷ []);
}

first-Before :
    (p : Endpoint × Target) (start : ℕ) (s : Source) (ps : List (Endpoint × Target))
    → (b : Block start s ps) → Before p ps
    → endpoint_ltb p.0 b.first.0 ≡ false
first-Before p start s ps b before = (subst (Before p) b.splits before).0

rest-Before :
    (p : Endpoint × Target) (start : ℕ) (s : Source) (ps : List (Endpoint × Target))
    → (b : Block start s ps) → Before p ps
    → Before p b.rest
rest-Before p start s ps b before =
    All-tail _ (b.first ∷ b.more) b.rest (subst (Before p) b.splits before)

length_of_block :
    (start : ℕ) (s : Source) (ps : List (Endpoint × Target)) (b : Block start s ps)
    → length ps ≡ s.len + length b.rest
length_of_block start s ps b =
    omega (arith, ap length b.splits, length-append (b.first ∷ b.more) b.rest, b.fills)

-- The last block takes a pair of its own source.
grow :
    (p : Endpoint × Target) (start : ℕ) (s : Source) (ps : List (Endpoint × Target))
    → (b : Block start s ps) → b.rest ≡ []
    → endpoint_eq s.source p.0 ≡ true
    → suc (length ps) < 2 ^ 32
    → Block start (record s { len = (s.len + 1) % 2 ^ 32 }) (ps ++ p ∷ [])
grow p start s ps b no_rest same short = record {
  first = b.first;
  more = b.more ++ p ∷ [];
  rest = [];
  starts = b.starts;
  fills = omega (arith, b.fills, length-append b.more (p ∷ []), length_of_block start s ps b);
  at = (b.at.0, All-append (IsAt s.source) b.more (p ∷ []) b.at.1 (same, tt));
  after = tt;
  splits = simp (b.splits, no_rest, append-nil);
}

Covers-extend :
    (p : Endpoint × Target) (start : ℕ) (ss : List Source) (ps : List (Endpoint × Target))
    → Covers start ss ps
    → Before p ps
    → (now : ℕ) → now ≡ start + length ps
    → suc (length ps) < 2 ^ 32
    → Covers start (extend_sources ss p.0 now) (ps ++ p ∷ [])
unfolding extend_sources widen grow
Covers-extend p start [] ps no_pairs before now e short =
    let at_start : now ≡ start = omega (arith, ap length no_pairs) in
    subst (λ l. Covers start (record { source = p.0; start = now; len = 1 } ∷ []) (l ++ p ∷ []))
      (sym no_pairs) (alone p now start at_start)
Covers-extend p start (s ∷ []) ps (b, no_more) before now e short =
    elim (Bool-cases (endpoint_eq s.source p.0)) [
      | inl same ↦ rw same (grow p start s ps b no_more same short, refl)
      | inr other ↦
          let lt =
            at_of_not_below s.source b.first.0 p.0 b.at.0 (first-Before p start s ps b before)
              other in
          let at_end : now ≡ start + s.len =
            omega (arith, length_of_block start s ps b, ap length no_more) in
          rw other (
            widen p start s ps b lt,
            subst
                (λ l.
                  Covers (start + s.len) (record { source = p.0; start = now; len = 1 } ∷ [])
                    (l ++ p ∷ []))
                (sym no_more) (alone p now (start + s.len) at_end),
          )
    ]
Covers-extend p start (s ∷ t ∷ ss) ps (b, c) before now e short =
    let later = rest-Before p start s ps b before in
    let next : Endpoint × Target = c.0.first in
    let lt : endpoint_ltb s.source next.0 ≡ true =
      (subst (All (IsAfter s.source)) c.0.splits b.after).0 in
    (
      widen p start s ps b (
          after_of_not_below s.source next.0 p.0 lt
            (first-Before p (start + s.len) t b.rest c.0 later)),
      Covers-extend p (start + s.len) (t ∷ ss) b.rest c later now
          (omega (arith, length_of_block start s ps b))
          (omega (arith, length_of_block start s ps b)),
    )

sorted-Before :
    (p : Endpoint × Target) (done ps : List (Endpoint × Target))
    → IsSorted (done ++ p ∷ ps)
    → Before p done
sorted-Before p [] ps h = tt
sorted-Before p (d ∷ ds) ps h =
    ((All-tail (NotBelow d.0) ds (p ∷ ps) h.0).0, sorted-Before p ds ps h.1)

-- The table built from the sorted pairs that are left, added to what the others gave.
pub build_table-Covers :
    (ps done all : List (Endpoint × Target)) (r : Routes)
    → all ≡ done ++ ps
    → IsSorted all
    → length all < 2 ^ 32
    → Covers 0 r.sources done
    → r.targets ≡ map (λ p. p.1) done
    → Covers 0 (build_table r ps).sources all × ((build_table r ps).targets ≡ map (λ p. p.1) all)
unfolding build_table
build_table-Covers [] done all r split sorted short c e =
    let same : all ≡ done = split ∙ append-nil done in
    (subst (Covers 0 r.sources) (sym same) c, e ∙ ap (map (λ p. p.1)) (sym same))
build_table-Covers (p ∷ ps) done all r split sorted short c e =
    let at : length r.targets % 2 ^ 32 ≡ 0 + length done = omega (
      arith,
      short,
      ap length e,
      length-map (λ (q : Endpoint × Target). q.1) done,
      ap length split,
      length-append done (p ∷ ps),
    ) in
    build_table-Covers ps (done ++ p ∷ []) all _ (split ∙ sym (append_assoc done (p ∷ []) ps))
      sorted short
      (Covers-extend p 0 r.sources done c (sorted-Before p done ps (subst IsSorted split sorted)) _
        at (omega (arith, short, ap length split, length-append done (p ∷ ps))))
      (simp (e, map-append))
