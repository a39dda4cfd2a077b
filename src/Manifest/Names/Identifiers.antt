-- ===== src/Manifest/Names/Identifiers.antt =====
-- About the identifiers in a version (crates/manifest/src/name.rs).
use eieio.Base.{
  is_digit, ℕ, Bool, true, false, not, ◌&&◌, ◌||◌, [], ◌∷◌, ◌++◌, ◌==◌, if◌then◌else◌, ◌≡◌, refl,
  sym, ap, subst, ◌∙◌, inl, inr, ◌⊎◌, ◌↔◌, arith, Bytes, all, text_eq, codes, text_eq_iff,
  Bool-cases, and-true, or-left, or-right, and-holds, if-splits,
}
use eieio.Manifest.Pattern.{
  Matches, is_letter, is_identifier_byte, within, numeric_pattern, pre_release_pattern,
  build_pattern,
}
use eieio.Manifest.Pattern.Matching.{all-append, many-class, class-many}
use eieio.Manifest.Names.{
  is_empty, is_numeric_identifier, is_build_identifier, is_pre_release_identifier,
}
use eieio.Manifest.Names.Splitting.{Free}

pub all_mono :
    (p q : ℕ → Bool) (s : Bytes)
    → ((b : ℕ) → p b ≡ true → q b ≡ true)
    → all p s ≡ true
    → all q s ≡ true
all_mono p q [] f h = refl
all_mono p q (b ∷ s) f h =
    let (here, there) = and-true (p b) (all p s) h in rw (f b here) (all_mono p q s f there)

pub all-Free : (p : ℕ → Bool) (c : ℕ) (s : Bytes) → p c ≡ false → all p s ≡ true → Free c s
all-Free p c [] f h = tt
all-Free p c (b ∷ s) f h =
    let (here, there) = and-true (p b) (all p s) h in
    ((λ e. absurd (cc (ap p e))), all-Free p c s f there)

digit_of_nonzero : (b : ℕ) → within b'1' b'9' b ≡ true → is_digit b ≡ true
digit_of_nonzero b h = ground arith

not_first : (d l h : Bool) → d ≡ false → (d || l || h) ≡ true → (l || h) ≡ true
not_first true l h e k = absurd (ground arith)
not_first false l h e k = k

digit-identifier : (d l h : Bool) → d ≡ true → (d || l || h) ≡ true
digit-identifier d l h e = rw e refl

numeric-Matches : (s : Bytes) → is_numeric_identifier s ≡ true → Matches numeric_pattern s
unfolding is_numeric_identifier
numeric-Matches [] h = absurd (ground arith)
numeric-Matches (b ∷ s) h =
    let (digits, zero_or) =
      and-true (all is_digit (b ∷ s)) (text_eq (b ∷ s) (codes "0") || not (b == b'0')) h in
    let (d, ds) = and-true (is_digit b) (all is_digit s) digits in
    elim (Bool-cases (b == b'0')) [
      | inl e ↦
          let alone : text_eq (b ∷ s) (codes "0") ≡ true =
            or-left (text_eq (b ∷ s) (codes "0")) (not (b == b'0')) zero_or (rw e refl) in
          inl (b'0', (text_eq_iff (b ∷ s) (codes "0")).0 alone, refl)
      | inr e ↦ inr (b ∷ [], s, refl, (b, refl, ground arith), many-class is_digit s ds)
    ]

numeric_of_parts :
    (b : ℕ) (s : Bytes)
    → is_digit b ≡ true
    → (b == b'0') ≡ false
    → all is_digit s ≡ true
    → is_numeric_identifier (b ∷ s) ≡ true
unfolding is_numeric_identifier
numeric_of_parts b s d e ds =
    let last = or-right (text_eq (b ∷ s) (codes "0")) (not (b == b'0')) (ap not e) in
    and-holds (all is_digit (b ∷ s)) (text_eq (b ∷ s) (codes "0") || not (b == b'0'))
      (and-holds (is_digit b) (all is_digit s) d ds) last

Matches-numeric : (s : Bytes) → Matches numeric_pattern s → is_numeric_identifier s ≡ true
unfolding is_numeric_identifier text_eq
Matches-numeric s (inl (b, e, zero)) = let same : b ≡ b'0' = ground arith in rw (e, same) refl
Matches-numeric s (inr (front, back, e, (b, e', d), run)) =
    let whole : s ≡ b ∷ back = rw (e, e') refl in
    subst (λ t. is_numeric_identifier t ≡ true) (sym whole)
      (numeric_of_parts b back (digit_of_nonzero b d) (ground arith) (class-many is_digit back run))

pub numeric_iff : (s : Bytes) → (is_numeric_identifier s ≡ true) ↔ Matches numeric_pattern s
numeric_iff s = (numeric-Matches s, Matches-numeric s)

build-Matches : (s : Bytes) → is_build_identifier s ≡ true → Matches build_pattern s
unfolding is_build_identifier
build-Matches [] h = absurd (ground arith)
build-Matches (b ∷ s) h =
    let (here, there) = and-true (is_identifier_byte b) (all is_identifier_byte s) h in
    (b ∷ [], s, refl, (b, refl, here), many-class is_identifier_byte s there)

Matches-build : (s : Bytes) → Matches build_pattern s → is_build_identifier s ≡ true
unfolding is_build_identifier
Matches-build s (front, back, e, (b, e', d), run) =
    let whole : s ≡ b ∷ back = rw (e, e') refl in
    subst (λ t. is_build_identifier t ≡ true) (sym whole)
      (and-holds (is_identifier_byte b) (all is_identifier_byte back) d
        (class-many is_identifier_byte back run))

pub build_iff : (s : Bytes) → (is_build_identifier s ≡ true) ↔ Matches build_pattern s
build_iff s = (build-Matches s, Matches-build s)

-- The digits in front of the first byte that is none.
digits_of :
    (s : Bytes)
    → all is_digit s ≡ false
    → (front : Bytes) × (b : ℕ) × (back : Bytes) × (s ≡ front ++ b ∷ back)
      × (all is_digit front ≡ true)
      × (is_digit b ≡ false)
digits_of [] h = absurd (ground arith)
digits_of (b ∷ s) h = elim (Bool-cases (is_digit b)) [
  | inr e ↦ ([], b, s, refl, refl, e)
  | inl e ↦
      let rest : all is_digit s ≡ false = rw e at h in
      let (front, c, back, whole, digits, none) = digits_of s rest in
      (
        b ∷ front,
        c,
        back,
        ap (◌∷◌ b) whole,
        and-holds (is_digit b) (all is_digit front) e digits,
        none,
      )
]

-- The tests of `is_pre_release_identifier`, whatever they are.
pre_release_tests :
    (built digits numeric : Bool)
    → (if not built then false else if digits then numeric else true) ≡ true
    → (built ≡ true) × ((digits ≡ false) ⊎ (numeric ≡ true))
pre_release_tests true true numeric h = (refl, inr h)
pre_release_tests true false numeric h = (refl, inl refl)
pre_release_tests false digits numeric h = absurd (ground arith)

is_empty-append : (front : Bytes) (b : ℕ) (back : Bytes) → is_empty (front ++ b ∷ back) ≡ false
is_empty-append [] b back = refl
is_empty-append (a ∷ front) b back = refl

pre_release-Matches :
    (s : Bytes) → is_pre_release_identifier s ≡ true → Matches pre_release_pattern s
unfolding is_pre_release_identifier is_build_identifier
pre_release-Matches s h =
    let (built, cases) =
      pre_release_tests (is_build_identifier s) (all is_digit s) (is_numeric_identifier s) h in
    elim cases [
      | inr numeric ↦ inl (numeric-Matches s numeric)
      | inl mixed ↦
          let (front, b, back, whole, digits, none) = digits_of s mixed in
          let bytes = (and-true (not (is_empty s)) (all is_identifier_byte s) built).1 in
          let split : (all is_identifier_byte front && all is_identifier_byte (b ∷ back)) ≡ true =
            sym (all-append is_identifier_byte front (b ∷ back))
            ∙ ap (all is_identifier_byte) (sym whole)
            ∙ bytes in
          let (here, there) =
            and-true (is_identifier_byte b) (all is_identifier_byte back)
              (and-true (all is_identifier_byte front) (all is_identifier_byte (b ∷ back))
                split).1 in
          let letter : (is_letter b || b == b'-') ≡ true =
            not_first (is_digit b) (is_letter b) (b == b'-') none here in
          inr (
            front,
            b ∷ back,
            whole,
            many-class is_digit front digits,
            (b ∷ [], back, refl, (b, refl, letter), many-class is_identifier_byte back there),
          )
    ]

numeric-is_build : (s : Bytes) → is_numeric_identifier s ≡ true → is_build_identifier s ≡ true
unfolding is_numeric_identifier is_build_identifier
numeric-is_build [] h = absurd (ground arith)
numeric-is_build (b ∷ s) h =
    all_mono is_digit is_identifier_byte (b ∷ s)
      (λ c d. digit-identifier (is_digit c) (is_letter c) (c == b'-') d)
      (and-true (all is_digit (b ∷ s)) (text_eq (b ∷ s) (codes "0") || not (b == b'0')) h).0

numeric-is_pre_release :
    (s : Bytes) → is_numeric_identifier s ≡ true → is_pre_release_identifier s ≡ true
unfolding is_pre_release_identifier
numeric-is_pre_release s h =
    rw (numeric-is_build s h, h)
      (if-splits (λ b. b ≡ true) (all is_digit s) true true (λ _. refl) (λ _. refl))

letter-not_digit : (b : ℕ) → (is_letter b || b == b'-') ≡ true → is_digit b ≡ false
letter-not_digit b h = ground arith

letter-identifier : (d l h : Bool) → (l || h) ≡ true → (d || l || h) ≡ true
letter-identifier true l h k = refl
letter-identifier false l h k = k

mixed_of_parts :
    (front : Bytes) (b : ℕ) (back : Bytes)
    → all is_digit front ≡ true
    → (is_letter b || b == b'-') ≡ true
    → all is_identifier_byte back ≡ true
    → is_pre_release_identifier (front ++ b ∷ back) ≡ true
unfolding is_pre_release_identifier is_build_identifier
mixed_of_parts front b back digits letter bytes =
    let s = front ++ b ∷ back in
    let mixed : all is_digit s ≡ false =
      all-append is_digit front (b ∷ back) ∙ rw (digits, letter-not_digit b letter) refl in
    let here = letter-identifier (is_digit b) (is_letter b) (b == b'-') letter in
    let before =
      all_mono is_digit is_identifier_byte front
        (λ c d. digit-identifier (is_digit c) (is_letter c) (c == b'-') d) digits in
    let after = and-holds (is_identifier_byte b) (all is_identifier_byte back) here bytes in
    let every : all is_identifier_byte s ≡ true =
      all-append is_identifier_byte front (b ∷ back)
      ∙ and-holds (all is_identifier_byte front) (all is_identifier_byte (b ∷ back)) before after in
    rw (mixed, every, is_empty-append front b back) refl

Matches-pre_release :
    (s : Bytes) → Matches pre_release_pattern s → is_pre_release_identifier s ≡ true
Matches-pre_release s (inl numeric) = numeric-is_pre_release s (Matches-numeric s numeric)
Matches-pre_release s (inr (front, rest, e, run, (one, back, e', (b, e3, letter), run'))) =
    let whole : s ≡ front ++ b ∷ back = rw (e, e', e3) refl in
    subst (λ t. is_pre_release_identifier t ≡ true) (sym whole)
      (mixed_of_parts front b back (class-many is_digit front run) letter
        (class-many is_identifier_byte back run'))

pub pre_release_iff :
    (s : Bytes) → (is_pre_release_identifier s ≡ true) ↔ Matches pre_release_pattern s
pre_release_iff s = (pre_release-Matches s, Matches-pre_release s)

pre_release-is_build :
    (s : Bytes) → is_pre_release_identifier s ≡ true → is_build_identifier s ≡ true
unfolding is_pre_release_identifier
pre_release-is_build s h =
    (pre_release_tests (is_build_identifier s) (all is_digit s) (is_numeric_identifier s) h).0

pub build-Free :
    (c : ℕ) (s : Bytes) → is_identifier_byte c ≡ false → is_build_identifier s ≡ true → Free c s
unfolding is_build_identifier
build-Free c s e h =
    all-Free is_identifier_byte c s e (and-true (not (is_empty s)) (all is_identifier_byte s) h).1

pub pre_release-Free :
    (c : ℕ) (s : Bytes)
    → is_identifier_byte c ≡ false
    → is_pre_release_identifier s ≡ true
    → Free c s
pre_release-Free c s e h = build-Free c s e (pre_release-is_build s h)

pub numeric-Free :
    (c : ℕ) (s : Bytes) → is_digit c ≡ false → is_numeric_identifier s ≡ true → Free c s
unfolding is_numeric_identifier
numeric-Free c [] e h = tt
numeric-Free c (b ∷ s) e h =
    all-Free is_digit c (b ∷ s) e
      (and-true (all is_digit (b ∷ s)) (text_eq (b ∷ s) (codes "0") || not (b == b'0')) h).0
