-- ===== src/Manifest/Pattern.antt =====
-- crates/manifest/src/name.rs: the regular expressions that are published, and what one matches.
pub mod Matching
use eieio.Base.{
  is_digit, ℕ, Bool, true, false, ◌&&◌, ◌||◌, List, [], ◌∷◌, ◌++◌, leb, ◌==◌, if◌then◌else◌, ◌≡◌,
  ◌⊎◌, Bytes, All,
}

pub data Regex : Type 0 where
  class : (ℕ → Bool) → Regex
  then_ : Regex → Regex → Regex
  or_ : Regex → Regex → Regex
  optional : Regex → Regex
  many : Regex → Regex

abbrev pub concat : List Bytes → Bytes
concat [] = []
concat (s ∷ ss) = s ++ concat ss

abbrev pub Matches : Regex → Bytes → Type 0
Matches (class p) s = (b : ℕ) × (s ≡ b ∷ []) × (p b ≡ true)
Matches (then_ r q) s =
    (front : Bytes) × (back : Bytes) × (s ≡ front ++ back) × Matches r front × Matches q back
Matches (or_ r q) s = Matches r s ⊎ Matches q s
Matches (optional r) s = (s ≡ []) ⊎ Matches r s
Matches (many r) s = (pieces : List Bytes) × (s ≡ concat pieces) × All (Matches r) pieces

abbrev pub within : ℕ → ℕ → ℕ → Bool
within low high b = leb low b && leb b high

abbrev pub is_lower : ℕ → Bool
is_lower b = within b'a' b'z' b

abbrev pub is_letter : ℕ → Bool
is_letter b = is_lower b || within b'A' b'Z' b

-- `[a-z0-9]` and the separators of the two patterns
abbrev pub is_alnum : ℕ → Bool
is_alnum b = is_lower b || is_digit b

abbrev pub is_separator : Bool → ℕ → Bool
is_separator allow_dot b = b == b'_' || b == b'-' || (allow_dot && b == b'.')

-- `REF_NAME_PATTERN`, and without the dot `PORT_NAME_PATTERN`
abbrev pub name_pattern : Bool → Regex
name_pattern allow_dot =
    then_ (class is_alnum) (
      optional
        (then_ (many (class (λ b. is_alnum b || is_separator allow_dot b))) (class is_alnum)))

-- `VERSION_PATTERN`, in its parts
abbrev pub just : ℕ → Regex
just c = class (λ b. b == c)

abbrev pub is_identifier_byte : ℕ → Bool
is_identifier_byte b = is_digit b || is_letter b || b == b'-'

abbrev pub numeric_pattern : Regex
numeric_pattern = or_ (just b'0') (then_ (class (within b'1' b'9')) (many (class is_digit)))

abbrev pub pre_release_pattern : Regex
pre_release_pattern = or_ numeric_pattern (
    then_ (many (class is_digit))
      (then_ (class (λ b. is_letter b || b == b'-')) (many (class is_identifier_byte))))

abbrev pub build_pattern : Regex
build_pattern = then_ (class is_identifier_byte) (many (class is_identifier_byte))

abbrev pub dotted : Regex → Regex
dotted r = then_ r (many (then_ (just b'.') r))

abbrev pub core_pattern : Regex
core_pattern =
    then_ numeric_pattern
      (then_ (just b'.') (then_ numeric_pattern (then_ (just b'.') numeric_pattern)))

abbrev pub version_pattern : Regex
version_pattern = then_ core_pattern (
    then_ (optional (then_ (just b'-') (dotted pre_release_pattern)))
      (optional (then_ (just b'+') (dotted build_pattern))))
