-- ===== src/Manifest/Names/Version.antt =====
-- About the versions that `is_version` (crates/manifest/src/name.rs) accepts.
use eieio.Base.{
  is_digit, ℕ, Bool, true, false, not, ◌&&◌, Option, List, [], ◌∷◌, ◌++◌, if◌then◌else◌, ◌≡◌, ◌≢◌,
  refl, sym, ap, subst, ◌∙◌, inl, inr, ◌↔◌, arith, Bytes, All, ==_refl, append_assoc, append-nil,
}
use eieio.Manifest.Pattern.{
  Regex, Matches, then_, optional, just, dotted, concat, numeric_pattern, pre_release_pattern,
  build_pattern, core_pattern, version_pattern,
}
use eieio.Manifest.Names.{
  split, split_once, dot_separated, peeled, passes, is_core, is_version, is_numeric_identifier,
  is_build_identifier, is_pre_release_identifier,
}
use eieio.Manifest.Names.Splitting.{
  Free, Free-append, Found, absent, at, split_once-here, split_once-Free, split_once-Found, Parts,
  one, more, split-Parts, Parts-split, dot_separated-dotted,
}
use eieio.Manifest.Names.Identifiers.{
  numeric_iff, build_iff, pre_release_iff, build-Free, pre_release-Free, numeric-Free,
}

-- A separator, and a test of what stands behind it.
module _ (c : ℕ) (r : Regex) (test : Bytes → Bool)
    (accepts : (s : Bytes) → (test s ≡ true) ↔ Matches r s) where
  abbrev Tail : Bytes → Type 0
  Tail tail = Matches (optional (then_ (just c) r)) tail

  peel-Matches :
      (s : Bytes) (o : Option (Bytes × Bytes))
      → Found c s o
      → passes test o ≡ true
      → (tail : Bytes) × (s ≡ peeled s o ++ tail) × Tail tail
  peel-Matches s _ (absent f) h = ([], sym (append-nil s), inl refl)
  peel-Matches s _ (at front back f e) h =
      (c ∷ back, e, inr (c ∷ [], back, refl, (c, refl, ==_refl c), (accepts back).0 h))

  Matches-peel :
      (front tail : Bytes)
      → Free c front
      → Tail tail
      → (peeled (front ++ tail) (split_once c (front ++ tail)) ≡ front)
        × (passes test (split_once c (front ++ tail)) ≡ true)
  Matches-peel front tail f (inl empty) =
      let whole : front ++ tail ≡ front = rw empty (append-nil front) in
      rw (whole, split_once-Free c front f) (refl, refl)
  Matches-peel front tail f (inr (first, back, e, (b, e', is_c), m)) =
      let same : b ≡ c = ground arith in
      let whole : tail ≡ c ∷ back = rw (e, e', same) refl in
      rw (whole, split_once-here c front back f) (refl, (accepts back).1 m)

-- A byte that no part has and that is no dot is not in a dotted list of parts either.
module _ (c : ℕ) (r : Regex) (other : b'.' ≢ c) (part : (s : Bytes) → Matches r s → Free c s) where
  pieces-Free :
      (pieces : List Bytes) → All (Matches (then_ (just b'.') r)) pieces → Free c (concat pieces)
  pieces-Free [] each = tt
  pieces-Free (piece ∷ pieces) ((dot, s, e, (b, e', is_dot), m), each) =
      let same : b ≡ b'.' = ground arith in
      let whole : piece ≡ b'.' ∷ s = rw (e, e', same) refl in
      Free-append c piece (concat pieces) (subst (Free c) (sym whole) (other, part s m))
        (pieces-Free pieces each)

  dotted-Free : (s : Bytes) → Matches (dotted r) s → Free c s
  dotted-Free s (front, back, e, m, (pieces, joined, each)) =
      let whole : s ≡ front ++ concat pieces = rw (e, joined) refl in
      subst (Free c) (sym whole)
        (Free-append c front (concat pieces) (part front m) (pieces-Free pieces each))

numeric_part : (c : ℕ) → is_digit c ≡ false → (s : Bytes) → Matches numeric_pattern s → Free c s
numeric_part c e s m = numeric-Free c s e ((numeric_iff s).1 m)

all_three : (a b c : Bool) → (a && b && c) ≡ true → (a ≡ true) × (b ≡ true) × (c ≡ true)
all_three true true c h = (refl, refl, h)
all_three true false c h = absurd (ground arith)
all_three false b c h = absurd (ground arith)

core-Parts :
    (s : Bytes) (pieces : List Bytes)
    → Parts b'.' s pieces
    → is_core pieces ≡ true
    → Matches core_pattern s
unfolding is_core
core-Parts s _ (one f) h = absurd (ground arith)
core-Parts s _ (more major rest f e (one f')) h = absurd (ground arith)
core-Parts s _ (more major rest f e (more minor patch f' e' (one f''))) h =
    let (n, n', n'') =
      all_three (is_numeric_identifier major) (is_numeric_identifier minor)
        (is_numeric_identifier patch) h in
    (
      major,
      b'.' ∷ rest,
      e,
      (numeric_iff major).0 n,
      (
        b'.' ∷ [],
        rest,
        refl,
        (b'.', refl, refl),
        (
          minor,
          b'.' ∷ patch,
          e',
          (numeric_iff minor).0 n',
          (b'.' ∷ [], patch, refl, (b'.', refl, refl), (numeric_iff patch).0 n''),
        ),
      ),
    )
core-Parts s _ (more major rest f e (more minor patch f' e' (more x y f'' e'' (one f3)))) h =
    absurd (ground arith)
core-Parts s _ (more major rest f e (more minor patch f' e' (more x y f'' e'' (more z w f3 e3 ps))))
      h =
    absurd (ground arith)

-- A text that the core's pattern matches, in its three numbers.
core_parts :
    (s : Bytes)
    → Matches core_pattern s
    → (major : Bytes) × (minor : Bytes) × (patch : Bytes) × (s
        ≡ major ++ b'.' ∷ (minor ++ b'.' ∷ patch))
      × Matches numeric_pattern major
      × Matches numeric_pattern minor
      × Matches numeric_pattern patch
core_parts s
      (
        major,
        rest,
        e,
        m,
        (
          dot,
          rest',
          e',
          (b, e3, is_dot),
          (minor, rest'', e4, m', (dot', patch, e5, (b', e6, is_dot'), m'')),
        ),
      ) =
    let same : b ≡ b'.' = ground arith in
    let same' : b' ≡ b'.' = ground arith in
    (major, minor, patch, rw (e, e', e3, e4, e5, e6, same, same') refl, m, m', m'')

Parts-core : (s : Bytes) → Matches core_pattern s → is_core (split b'.' s) ≡ true
unfolding is_core
Parts-core s matched =
    let (major, minor, patch, whole, m, m', m'') = core_parts s matched in
    let n = (numeric_iff major).1 m in
    let n' = (numeric_iff minor).1 m' in
    let n'' = (numeric_iff patch).1 m'' in
    let free = numeric-Free b'.' in
    let parts : split b'.' s ≡ major ∷ minor ∷ patch ∷ [] =
      Parts-split b'.' s (major ∷ minor ∷ patch ∷ []) (
        more major _ (free major refl n) whole
          (more minor _ (free minor refl n') refl (one (free patch refl n'')))) in
    rw (parts, n, n', n'') refl

core-Free : (c : ℕ) (s : Bytes) → is_digit c ≡ false → b'.' ≢ c → Matches core_pattern s → Free c s
core-Free c s e other matched =
    let (major, minor, patch, whole, m, m', m'') = core_parts s matched in
    let part = numeric_part c e in
    subst (Free c) (sym whole) (
      Free-append c major _ (part major m)
        (other, Free-append c minor _ (part minor m') (other, part patch m'')))

pre_release_tail :
    (s : Bytes)
    → (dot_separated is_pre_release_identifier s ≡ true) ↔ Matches (dotted pre_release_pattern) s
unfolding is_pre_release_identifier is_build_identifier
pre_release_tail =
    dot_separated-dotted pre_release_pattern is_pre_release_identifier pre_release_iff
      (λ s h. pre_release-Free b'.' s refl h) refl

build_tail :
    (s : Bytes) → (dot_separated is_build_identifier s ≡ true) ↔ Matches (dotted build_pattern) s
unfolding is_build_identifier
build_tail =
    dot_separated-dotted build_pattern is_build_identifier build_iff
      (λ s h. build-Free b'.' s refl h) refl

-- The three tests of `is_version`, whatever they are.
version_tests :
    (build pre core : Bool)
    → (if not build then false else if not pre then false else core) ≡ true
    → (build ≡ true) × (pre ≡ true) × (core ≡ true)
version_tests true true core h = (refl, refl, h)
version_tests true false core h = absurd (ground arith)
version_tests false pre core h = absurd (ground arith)

version-Matches : (v : Bytes) → is_version v ≡ true → Matches version_pattern v
unfolding is_version
version-Matches v h =
    let build = split_once b'+' v in
    let rest = peeled v build in
    let pre = split_once b'-' rest in
    let core = peeled rest pre in
    let (hb, hp, hc) =
      version_tests (passes (dot_separated is_build_identifier) build)
        (passes (dot_separated is_pre_release_identifier) pre) (is_core (split b'.' core)) h in
    let (tail, e, mt) =
      peel-Matches b'+' (dotted build_pattern) (dot_separated is_build_identifier) build_tail v
        build (split_once-Found b'+' v) hb in
    let (tail', e', mt') =
      peel-Matches b'-' (dotted pre_release_pattern) (dot_separated is_pre_release_identifier)
        pre_release_tail rest pre (split_once-Found b'-' rest) hp in
    (
      core,
      tail' ++ tail,
      e ∙ ap (λ x. x ++ tail) e' ∙ append_assoc core tail' tail,
      core-Parts core (split b'.' core) (split-Parts b'.' core) hc,
      (tail', tail, refl, mt', mt),
    )

-- Neither a core nor a pre-release has a plus.
pre_release_tail-Free :
    (tail : Bytes)
    → Matches (optional (then_ (just b'-') (dotted pre_release_pattern))) tail
    → Free b'+' tail
pre_release_tail-Free tail (inl e) = subst (Free b'+') (sym e) tt
pre_release_tail-Free tail (inr (first, back, e, (b, e', is_dash), m)) =
    let same : b ≡ b'-' = ground arith in
    let whole : tail ≡ b'-' ∷ back = rw (e, e', same) refl in
    let part : (s : Bytes) → Matches pre_release_pattern s → Free b'+' s =
      λ s m'. pre_release-Free b'+' s refl ((pre_release_iff s).1 m') in
    subst (Free b'+') (sym whole)
      (omega arith, dotted-Free b'+' pre_release_pattern (omega arith) part back m)

is_version_of_parts :
    (core tail' tail : Bytes)
    → Matches core_pattern core
    → Matches (optional (then_ (just b'-') (dotted pre_release_pattern))) tail'
    → Matches (optional (then_ (just b'+') (dotted build_pattern))) tail
    → is_version ((core ++ tail') ++ tail) ≡ true
unfolding is_version
is_version_of_parts core tail' tail mc mt' mt =
    let rest = core ++ tail' in
    let free =
      Free-append b'+' core tail' (core-Free b'+' core refl (omega arith) mc)
        (pre_release_tail-Free tail' mt') in
    let (p1, p2) =
      Matches-peel b'+' (dotted build_pattern) (dot_separated is_build_identifier) build_tail rest
        tail free mt in
    let (q1, q2) =
      Matches-peel b'-' (dotted pre_release_pattern) (dot_separated is_pre_release_identifier)
        pre_release_tail core tail' (core-Free b'-' core refl (omega arith) mc) mt' in
    rw (p2, p1, q2, q1, Parts-core core mc) refl

Matches-version : (v : Bytes) → Matches version_pattern v → is_version v ≡ true
Matches-version v (core, rest, e, mc, (tail', tail, e', mt', mt)) =
    let whole : v ≡ (core ++ tail') ++ tail = rw (e, e') (sym (append_assoc core tail' tail)) in
    subst (λ t. is_version t ≡ true) (sym whole) (is_version_of_parts core tail' tail mc mt' mt)

-- The validator of versions accepts exactly what the published pattern of Semantic Versioning matches.
pub is_version-Matches : (v : Bytes) → (is_version v ≡ true) ↔ Matches version_pattern v
is_version-Matches v = (version-Matches v, Matches-version v)
