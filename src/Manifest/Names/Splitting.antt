-- ===== src/Manifest/Names/Splitting.antt =====
-- About `split` and `split_once`, by which crates/manifest/src/name.rs takes a version apart.
use eieio.Base.{
  ℕ, Bool, true, false, not, Option, none, some, List, [], ◌∷◌, ◌++◌, ◌==◌, ◌≡◌, ◌≢◌, refl, sym, ap,
  subst, ◌∙◌, inl, inr, ◌↔◌, arith, Bytes, All, all, Bool-cases, and-true, append-nil,
}
use eieio.Manifest.Pattern.{Regex, then_, concat, just, dotted, Matches}
use eieio.Manifest.Names.{split, split_once, onto_first, dot_separated, is_empty}

-- The byte does not occur.
abbrev pub Free : ℕ → Bytes → Type 0
Free c s = All (λ b. b ≢ c) s

pub Free-append : (c : ℕ) (s t : Bytes) → Free c s → Free c t → Free c (s ++ t)
Free-append c [] t h k = k
Free-append c (b ∷ s) t h k = (h.0, Free-append c s t h.1 k)

pub split_once-here :
    (c : ℕ) (front back : Bytes)
    → Free c front
    → split_once c (front ++ c ∷ back) ≡ some (front, back)
unfolding split_once
split_once-here c [] back h = ground arith
split_once-here c (b ∷ front) back h =
    let ih = split_once-here c front back h.1 in
    let e : (b == c) ≡ false = ground (arith, h.0) in rw (e, ih) refl

pub split_once-Free : (c : ℕ) (s : Bytes) → Free c s → split_once c s ≡ none
unfolding split_once
split_once-Free c [] h = refl
split_once-Free c (b ∷ s) h =
    let ih = split_once-Free c s h.1 in
    let e : (b == c) ≡ false = ground (arith, h.0) in rw (e, ih) refl

-- What a search for the byte finds: the front is free of it, and so is a text without it.
pub data Found (c : ℕ) : Bytes → Option (Bytes × Bytes) → Type 0 where
  absent : {s : Bytes} → Free c s → Found c s none
  at :
      {s : Bytes} (front back : Bytes)
      → Free c front
      → s ≡ front ++ c ∷ back
      → Found c s (some (front, back))

Found-cons :
    (c b : ℕ) (s : Bytes) (r : Option (Bytes × Bytes))
    → b ≢ c
    → Found c s r
    → Found c (b ∷ s) (elim r [ none ↦ none | some (x, y) ↦ some (b ∷ x, y) ])
Found-cons c b s _ h (absent f) = absent (h, f)
Found-cons c b s _ h (at front back f e) = at (b ∷ front) back (h, f) (ap (◌∷◌ b) e)

pub split_once-Found : (c : ℕ) (s : Bytes) → Found c s (split_once c s)
unfolding split_once
split_once-Found c [] = absent tt
split_once-Found c (b ∷ s) =
    let ih = split_once-Found c s in
    elim (Bool-cases (b == c)) [
      | inl e ↦ let same : b ≡ c = ground arith in rw e (at [] s tt (ap (λ x. x ∷ s) same))
      | inr e ↦ rw e (Found-cons c b s (split_once c s) (λ same. ground arith) ih)
    ]

-- The pieces between the bytes that separate.
pub data Parts (c : ℕ) : Bytes → List Bytes → Type 0 where
  one : {s : Bytes} → Free c s → Parts c s (s ∷ [])
  more :
      {s : Bytes} {pieces : List Bytes} (front back : Bytes)
      → Free c front
      → s ≡ front ++ c ∷ back
      → Parts c back pieces
      → Parts c s (front ∷ pieces)

Parts-cons :
    (c b : ℕ) (s : Bytes) (pieces : List Bytes)
    → b ≢ c
    → Parts c s pieces
    → Parts c (b ∷ s) (onto_first b pieces)
Parts-cons c b s _ h (one f) = one (h, f)
Parts-cons c b s _ h (more front back f e ps) = more (b ∷ front) back (h, f) (ap (◌∷◌ b) e) ps

pub split-Parts : (c : ℕ) (s : Bytes) → Parts c s (split c s)
unfolding split
split-Parts c [] = one tt
split-Parts c (b ∷ s) =
    let ih = split-Parts c s in
    elim (Bool-cases (b == c)) [
      | inl e ↦ let same : b ≡ c = ground arith in rw e (more [] s tt (ap (λ x. x ∷ s) same) ih)
      | inr e ↦ rw e (Parts-cons c b s (split c s) (λ same. ground arith) ih)
    ]

split-Free : (c : ℕ) (s : Bytes) → Free c s → split c s ≡ s ∷ []
unfolding split
split-Free c [] h = refl
split-Free c (b ∷ s) h =
    let e : (b == c) ≡ false = ground (arith, h.0) in rw (e, split-Free c s h.1) refl

split-here :
    (c : ℕ) (front back : Bytes) → Free c front → split c (front ++ c ∷ back) ≡ front ∷ split c back
unfolding split
split-here c [] back h = ground arith
split-here c (b ∷ front) back h =
    let e : (b == c) ≡ false = ground (arith, h.0) in rw (e, split-here c front back h.1) refl

pub Parts-split : (c : ℕ) (s : Bytes) (pieces : List Bytes) → Parts c s pieces → split c s ≡ pieces
Parts-split c s _ (one f) = split-Free c s f
Parts-split c s _ (more {pieces = pieces} front back f e ps) =
    ap (split c) e ∙ split-here c front back f ∙ ap (◌∷◌ front) (Parts-split c back pieces ps)

-- A test that accepts what a pattern matches, of texts without a dot, none of them empty.
module _ (r : Regex) (element : Bytes → Bool)
    (accepts : (s : Bytes) → (element s ≡ true) ↔ Matches r s)
    (undotted : (s : Bytes) → element s ≡ true → Free b'.' s) (nonempty : element [] ≡ false) where
  Parts-dotted :
      (s : Bytes) (pieces : List Bytes)
      → Parts b'.' s pieces
      → all element pieces ≡ true
      → Matches (dotted r) s
  Parts-dotted s _ (one f) h =
      (s, [], sym (append-nil s), (accepts s).0 (ground arith), ([], refl, tt))
  Parts-dotted s _ (more {pieces = pieces} front back f e ps) h =
      let (first, rest, e', m, (more_pieces, joined, each)) =
        Parts-dotted back pieces ps (ground arith) in
      (
        front,
        b'.' ∷ back,
        e,
        (accepts front).0 (ground arith),
        (
          (b'.' ∷ first) ∷ more_pieces,
          ap (◌∷◌ b'.') (e' ∙ ap (λ x. first ++ x) joined),
          ((b'.' ∷ [], first, refl, (b'.', refl, refl), m), each),
        ),
      )

  -- The pieces that the pattern tells apart, as a list.
  dotted-Parts :
      (first : Bytes) (pieces : List Bytes)
      → Matches r first
      → All (Matches (then_ (just b'.') r)) pieces
      → (parts : List Bytes) × Parts b'.' (first ++ concat pieces) parts
        × (all element parts ≡ true)
  dotted-Parts first [] m each =
      let holds = (accepts first).1 m in
      (
        first ∷ [],
        subst (λ t. Parts b'.' t (first ∷ [])) (sym (append-nil first))
            (one (undotted first holds)),
        rw holds refl,
      )
  dotted-Parts first (piece ∷ pieces) m ((dot, second, e, (c, e', is_dot), m'), each) =
      let (parts, ps, h) = dotted-Parts second pieces m' each in
      let holds = (accepts first).1 m in
      let same : c ≡ b'.' = ground arith in
      let whole : first ++ (piece ++ concat pieces) ≡ first ++ b'.' ∷ (second ++ concat pieces) =
        rw (e, e', same) refl in
      (first ∷ parts, more first _ (undotted first holds) whole ps, rw (holds, h) refl)

  nonempty_of : (s : Bytes) → all element (split b'.' s) ≡ true → dot_separated element s ≡ true
  unfolding dot_separated split
  nonempty_of [] h = absurd (ground arith)
  nonempty_of (b ∷ s) h = h

  pub dot_separated-dotted : (s : Bytes) → (dot_separated element s ≡ true) ↔ Matches (dotted r) s
  unfolding dot_separated
  dot_separated-dotted s = (
    λ h.
        Parts-dotted s (split b'.' s) (split-Parts b'.' s)
          (and-true (not (is_empty s)) (all element (split b'.' s)) h).1,
    λ m.
        let (first, rest, e, m', (pieces, joined, each)) = m in
        let (parts, ps, h) = dotted-Parts first pieces m' each in
        let whole : s ≡ first ++ concat pieces = rw (e, joined) refl in
        let found : split b'.' s ≡ parts =
          rw whole (Parts-split b'.' (first ++ concat pieces) parts ps) in
        nonempty_of s (rw found h),
  )
