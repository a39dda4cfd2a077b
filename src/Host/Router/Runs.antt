-- ===== src/Host/Router/Runs.antt =====
-- About the runs of a table (crates/host-core/src/router.rs).
use Prim.Native.Nat.add
use mathlib.Core.Option.{some-injective}
use eieio.Base.{
  ℕ, zero, suc, ◌+◌, ◌<◌, true, false, some, List, [], ◌∷◌, ◌++◌, map, ◌≡◌, refl, sym, ap, subst,
  ◌∙◌, arith, All, All-tail, append-nil, length, get_elem?, take, drop,
}
use eieio.Host.Router.{Endpoint, Target, Source, endpoint_ltb, endpoint_eq}
use eieio.Host.Router.Sort.{declared}
use eieio.Host.Router.Table.{IsAt, IsAfter, Block, Covers}

abbrev Pairs : Type 0
Pairs = List (Endpoint × Target)

declared-append :
    (e : Endpoint) (ps qs : Pairs) → declared e (ps ++ qs) ≡ declared e ps ++ declared e qs
declared-append e [] qs = refl
declared-append e (p ∷ ps) qs = ground (arith, declared-append e ps qs)

declared_at : (e : Endpoint) (ps : Pairs) → All (IsAt e) ps → declared e ps ≡ map (λ p. p.1) ps
declared_at e [] h = refl
declared_at e (p ∷ ps) h = ground (arith, declared_at e ps h.1)

declared_after : (e : Endpoint) (ps : Pairs) → All (IsAfter e) ps → declared e ps ≡ []
declared_after e [] h = refl
declared_after e (p ∷ ps) h = ground (arith, declared_after e ps h.1)

declared_other :
    (e f : Endpoint) (ps : Pairs) → endpoint_eq e f ≡ false → All (IsAt e) ps → declared f ps ≡ []
declared_other e f [] ne h = refl
declared_other e f (p ∷ ps) ne h = ground (arith, declared_other e f ps ne h.1)

take_block : (b rest : Pairs) → take (length b) (map (λ p. p.1) (b ++ rest)) ≡ map (λ p. p.1) b
take_block [] rest = refl
take_block (p ∷ ps) rest = ap (◌∷◌ p.1) (take_block ps rest)

drop_block : (b rest : Pairs) → drop (length b) (map (λ p. p.1) (b ++ rest)) ≡ map (λ p. p.1) rest
drop_block [] rest = refl
drop_block (p ∷ ps) rest = drop_block ps rest

pub drop-add {ℓ} : {A : Type ℓ} (m n : ℕ) (xs : List A) → drop (m + n) xs ≡ drop n (drop m xs)
drop-add zero n xs = ap (λ k. drop k xs) (omega arith)
drop-add (suc m) zero [] = rw (add.suc) refl
drop-add (suc m) (suc n) [] = rw (add.suc) refl
drop-add (suc m) n (x ∷ xs) = rw (add.suc) (drop-add m n xs)

lt_ne : (e f : Endpoint) → endpoint_ltb e f ≡ true → endpoint_eq e f ≡ false
lt_ne e f h = ground arith

lt_of_at_after :
    (e f g : Endpoint) → endpoint_eq f g ≡ true → endpoint_ltb e g ≡ true → endpoint_ltb e f ≡ true
lt_of_at_after e f g h k = ground arith

-- A source of the pairs behind `e` is behind `e`.
Covers-later :
    (e : Endpoint) (start : ℕ) (ss : List Source) (ps : Pairs) (i : ℕ) (s : Source)
    → Covers start ss ps
    → All (IsAfter e) ps
    → get_elem? ss i ≡ some s
    → endpoint_ltb e s.source ≡ true
Covers-later e start [] ps i s c after h = absurd (ground arith)
Covers-later e start (t ∷ ss) ps zero s (b, c) after h =
    let first_after = (subst (All (IsAfter e)) b.splits after).0 in
    subst (λ (x : Source). endpoint_ltb e x.source ≡ true) (some-injective t s h)
      (lt_of_at_after e t.source b.first.0 b.at.0 first_after)
Covers-later e start (t ∷ ss) ps (suc i) s (b, c) after h =
    Covers-later e (start + t.len) ss b.rest i s c
      (All-tail (IsAfter e) (b.first ∷ b.more) b.rest (subst (All (IsAfter e)) b.splits after)) h

-- Sources grow along the list.
pub Covers-ascend :
    (start : ℕ) (ss : List Source) (ps : Pairs) (i j : ℕ) (s t : Source)
    → Covers start ss ps
    → i < j
    → get_elem? ss i ≡ some s
    → get_elem? ss j ≡ some t
    → endpoint_ltb s.source t.source ≡ true
Covers-ascend start [] ps i j s t c lt hs ht = absurd (ground arith)
Covers-ascend start (u ∷ ss) ps i zero s t c lt hs ht = absurd (omega arith)
Covers-ascend start (u ∷ ss) ps zero (suc j) s t (b, c) lt hs ht =
    subst (λ (x : Source). endpoint_ltb x.source t.source ≡ true) (some-injective u s hs)
      (Covers-later u.source (start + u.len) ss b.rest j t c b.after ht)
Covers-ascend start (u ∷ ss) ps (suc i) (suc j) s t (b, c) lt hs ht =
    Covers-ascend (start + u.len) ss b.rest i j s t c (omega arith) hs ht

-- The declared targets of a block's source, and of any other endpoint.
declared_block :
    (start : ℕ) (s : Source) (ps : Pairs) (b : Block start s ps)
    → declared s.source ps ≡ map (λ p. p.1) (b.first ∷ b.more)
declared_block start s ps b =
    ap (declared s.source) b.splits
    ∙ declared-append s.source (b.first ∷ b.more) b.rest
    ∙ simp (
      declared_at s.source (b.first ∷ b.more) b.at,
      declared_after s.source b.rest b.after,
      append-nil,
    )

declared_past :
    (e : Endpoint) (start : ℕ) (s : Source) (ps : Pairs) (b : Block start s ps)
    → endpoint_eq s.source e ≡ false
    → declared e ps ≡ declared e b.rest
declared_past e start s ps b ne =
    ap (declared e) b.splits
    ∙ declared-append e (b.first ∷ b.more) b.rest
    ∙ rw (declared_other s.source e (b.first ∷ b.more) ne b.at)

run_of_block :
    (start : ℕ) (s : Source) (ps : Pairs) (b : Block start s ps) (ts : List Target)
    → drop start ts ≡ map (λ p. p.1) ps
    → take s.len (drop s.start ts) ≡ declared s.source ps
run_of_block start s ps b ts at =
    ap (λ k. take s.len (drop k ts)) b.starts
    ∙ ap (take s.len) (at ∙ ap (map (λ p. p.1)) b.splits)
    ∙ ap (λ k. take k (map (λ p. p.1) ((b.first ∷ b.more) ++ b.rest))) b.fills
    ∙ take_block (b.first ∷ b.more) b.rest
    ∙ sym (declared_block start s ps b)

rest_of_block :
    (start : ℕ) (s : Source) (ps : Pairs) (b : Block start s ps) (ts : List Target)
    → drop start ts ≡ map (λ p. p.1) ps
    → drop (start + s.len) ts ≡ map (λ p. p.1) b.rest
rest_of_block start s ps b ts at =
    drop-add start s.len ts
    ∙ ap (drop s.len) (at ∙ ap (map (λ p. p.1)) b.splits)
    ∙ ap (λ k. drop k (map (λ p. p.1) ((b.first ∷ b.more) ++ b.rest))) b.fills
    ∙ drop_block (b.first ∷ b.more) b.rest

-- The run of any source of the table is what its pairs declare for it.
pub Covers-run :
    (start : ℕ) (ss : List Source) (ps : Pairs) (ts : List Target) (i : ℕ) (s : Source)
    → Covers start ss ps
    → drop start ts ≡ map (λ p. p.1) ps
    → get_elem? ss i ≡ some s
    → take s.len (drop s.start ts) ≡ declared s.source ps
Covers-run start [] ps ts i s c at h = absurd (ground arith)
Covers-run start (t ∷ ss) ps ts zero s (b, c) at h =
    subst (λ (x : Source). take x.len (drop x.start ts) ≡ declared x.source ps)
      (some-injective t s h) (run_of_block start t ps b ts at)
Covers-run start (t ∷ ss) ps ts (suc i) s (b, c) at h =
    Covers-run (start + t.len) ss b.rest ts i s c (rest_of_block start t ps b ts at) h
    ∙ sym (
        declared_past s.source start t ps b (
          lt_ne t.source s.source
            (Covers-later t.source (start + t.len) ss b.rest i s c b.after h)))

-- An endpoint that is no source of the table has no declared target.
pub Covers-none :
    (e : Endpoint) (start : ℕ) (ss : List Source) (ps : Pairs)
    → Covers start ss ps
    → All (λ (s : Source). endpoint_eq s.source e ≡ false) ss
    → declared e ps ≡ []
Covers-none e start [] ps c h = ap (declared e) c
Covers-none e start (s ∷ ss) ps (b, c) h =
    declared_past e start s ps b h.0 ∙ Covers-none e (start + s.len) ss b.rest c h.1
