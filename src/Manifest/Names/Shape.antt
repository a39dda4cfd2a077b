-- ===== src/Manifest/Names/Shape.antt =====
-- About the names that `is_name` (crates/manifest/src/name.rs) accepts.
use eieio.Base.{
  ℕ, ◌≤◌, Bool, true, false, not, ◌||◌, [], ◌∷◌, ◌++◌, ltb, ◌≡◌, refl, sym, ap, subst, ◌∙◌, inl,
  inr, ◌↔◌, arith, Bytes, all, length, if◌then◌else◌, and-true,
}
use eieio.Manifest.Pattern.{Matches, name_pattern, is_alnum, is_separator}
use eieio.Manifest.Pattern.Matching.{all-append, many-class, class-many}
use eieio.Manifest.Names.{is_name, last_of, max_name_bytes}

abbrev is_name_byte : Bool → ℕ → Bool
is_name_byte allow_dot b = is_alnum b || is_separator allow_dot b

front_of : (b : ℕ) (s : Bytes) → (front : Bytes) × (b ∷ s ≡ front ++ last_of b s ∷ [])
front_of b [] = ([], refl)
front_of b (c ∷ s) = let (front, e) = front_of c s in (b ∷ front, ap (◌∷◌ b) e)

last_of-append : (b : ℕ) (front : Bytes) (c : ℕ) → last_of b (front ++ c ∷ []) ≡ c
last_of-append b [] c = refl
last_of-append b (a ∷ front) c = last_of-append a front c

-- The three tests of `is_name`, whatever the classes are.
tests_pass :
    (long first final every : Bool)
    → (if long then false else if not first || not final then false else every) ≡ true
    → (long ≡ false) × (first ≡ true) × (final ≡ true) × (every ≡ true)
tests_pass false true true every h = (refl, refl, refl, h)
tests_pass true first final every h = absurd (ground arith)
tests_pass false false final every h = absurd (ground arith)
tests_pass false true false every h = absurd (ground arith)

tests_hold :
    (long first final every : Bool)
    → long ≡ false
    → first ≡ true
    → final ≡ true
    → every ≡ true
    → (if long then false else if not first || not final then false else every) ≡ true
tests_hold long first final every l f g e = rw (l, f, g, e)

parts_of :
    (allow_dot : Bool) (b : ℕ) (s : Bytes)
    → is_name allow_dot (b ∷ s) ≡ true
    → (length (b ∷ s) ≤ max_name_bytes)
      × (is_alnum b ≡ true)
      × (is_alnum (last_of b s) ≡ true)
      × (all (is_name_byte allow_dot) (b ∷ s) ≡ true)
unfolding is_name
parts_of allow_dot b s h =
    let (short, first, final, every) =
      tests_pass (ltb max_name_bytes (length (b ∷ s))) (is_alnum b) (is_alnum (last_of b s))
        (all (is_name_byte allow_dot) (b ∷ s)) h in
    (ground arith, first, final, every)

or_fst : (a b : Bool) → a ≡ true → (a || b) ≡ true
or_fst true b h = refl
or_fst false b h = absurd (ground arith)

name-Matches :
    (allow_dot : Bool) (s : Bytes)
    → is_name allow_dot s ≡ true
    → Matches (name_pattern allow_dot) s × (length s ≤ max_name_bytes)
name-Matches allow_dot [] h = absurd (unfold is_name in ground arith)
name-Matches allow_dot (b ∷ []) h =
    let (short, first, final, every) = parts_of allow_dot b [] h in
    ((b ∷ [], [], refl, (b, refl, first), inl refl), short)
name-Matches allow_dot (b ∷ c ∷ s) h =
    let (short, first, final, every) = parts_of allow_dot b (c ∷ s) h in
    let (front, e) = front_of c s in
    let p = is_name_byte allow_dot in
    let tail : all p (c ∷ s) ≡ true = (and-true (p b) (all p (c ∷ s)) every).1 in
    let run : all p front ≡ true =
      (and-true (all p front) _ (sym (all-append p front _) ∙ ap (all p) (sym e) ∙ tail)).0 in
    (
      (
        b ∷ [],
        c ∷ s,
        refl,
        (b, refl, first),
        inr (front, last_of c s ∷ [], e, many-class p front run, (last_of c s, refl, final)),
      ),
      short,
    )

is_name_of_parts :
    (allow_dot : Bool) (b : ℕ) (s : Bytes)
    → length (b ∷ s) ≤ max_name_bytes
    → is_alnum b ≡ true
    → is_alnum (last_of b s) ≡ true
    → all (is_name_byte allow_dot) (b ∷ s) ≡ true
    → is_name allow_dot (b ∷ s) ≡ true
unfolding is_name
is_name_of_parts allow_dot b s short first final every =
    let e : ltb max_name_bytes (length (b ∷ s)) ≡ false = ground arith in
    tests_hold (ltb max_name_bytes (length (b ∷ s))) (is_alnum b) (is_alnum (last_of b s))
      (all (is_name_byte allow_dot) (b ∷ s)) e first final every

Matches-name :
    (allow_dot : Bool) (s : Bytes)
    → length s ≤ max_name_bytes
    → Matches (name_pattern allow_dot) s
    → is_name allow_dot s ≡ true
Matches-name allow_dot s short (front, back, e, (b, e', alnum), inl empty) =
    let whole : s ≡ b ∷ [] = rw (e, e', empty) refl in
    rw whole (
      is_name_of_parts allow_dot b [] (ground arith) alnum alnum
        (rw (or_fst (is_alnum b) (is_separator allow_dot b) alnum) refl))
Matches-name allow_dot s short
      (front, back, e, (b, e', alnum), inr (run, end, split, many_run, (c, end_c, alnum'))) =
    let p = is_name_byte allow_dot in
    let whole : s ≡ b ∷ run ++ c ∷ [] = rw (e, e', split, end_c) refl in
    let first : p b ≡ true = or_fst (is_alnum b) (is_separator allow_dot b) alnum in
    let final : p c ≡ true = or_fst (is_alnum c) (is_separator allow_dot c) alnum' in
    let inner : all p (run ++ c ∷ []) ≡ true =
      rw (all-append p run (c ∷ []), class-many p run many_run, final) refl in
    let every : all p (b ∷ run ++ c ∷ []) ≡ true = rw (first, inner) refl in
    subst (λ t. is_name allow_dot t ≡ true) (sym whole)
      (is_name_of_parts allow_dot b (run ++ c ∷ [])
        (subst (λ t. length t ≤ max_name_bytes) whole short) alnum
        (ap is_alnum (last_of-append b run c) ∙ alnum') every)

-- The validator accepts exactly what the published pattern matches, in at most 64 bytes, for
-- names with and without dots.
pub is_name-Matches :
    (allow_dot : Bool) (s : Bytes)
    → (is_name allow_dot s ≡ true)
      ↔ (Matches (name_pattern allow_dot) s × (length s ≤ max_name_bytes))
is_name-Matches allow_dot s = (name-Matches allow_dot s, λ h. Matches-name allow_dot s h.1 h.0)
