-- ===== src/Manifest/Pattern/Matching.antt =====
-- About what the patterns of crates/manifest/src/name.rs match.
use eieio.Base.{ℕ, Bool, true, ◌&&◌, List, [], ◌∷◌, ◌++◌, ◌≡◌, refl, ap, arith, Bytes, All, all}
use eieio.Manifest.Pattern.{class, many, concat, Matches}

pub all-append : (p : ℕ → Bool) (s t : Bytes) → all p (s ++ t) ≡ (all p s && all p t)
all-append p [] t = refl
all-append p (b ∷ s) t = ground (arith, all-append p s t)

-- A run of a class is what the test holds of, byte for byte.
pub many-class : (p : ℕ → Bool) (s : Bytes) → all p s ≡ true → Matches (many (class p)) s
many-class p [] h = ([], refl, tt)
many-class p (b ∷ s) h =
    let (pieces, e, each) = many-class p s (ground arith) in
    ((b ∷ []) ∷ pieces, ap (◌∷◌ b) e, ((b, refl, ground arith), each))

all-concat :
    (p : ℕ → Bool) (pieces : List Bytes)
    → All (Matches (class p)) pieces
    → all p (concat pieces) ≡ true
all-concat p [] h = refl
all-concat p (s ∷ pieces) ((b, e, yes_p), h) = rw (e, yes_p) (all-concat p pieces h)

pub class-many : (p : ℕ → Bool) (s : Bytes) → Matches (many (class p)) s → all p s ≡ true
class-many p s (pieces, e, each) = rw e (all-concat p pieces each)
