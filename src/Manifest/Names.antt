-- ===== src/Manifest/Names.antt =====
-- crates/manifest/src/name.rs: the validators of names and versions, over the bytes of a text.
pub mod Shape
pub mod Splitting
pub mod Identifiers
pub mod Version
mod Tests
use eieio.Base.{
  is_digit, ℕ, Bool, true, false, not, ◌&&◌, ◌||◌, Option, none, some, List, [], ◌∷◌, ltb, ◌==◌,
  if◌then◌else◌, Bytes, text_eq, codes, length, all,
}
use eieio.Manifest.Pattern.{is_lower, is_letter, is_alnum, is_separator, is_identifier_byte}

abbrev pub max_name_bytes : ℕ
max_name_bytes = 64

abbrev pub last_of : ℕ → Bytes → ℕ
last_of b [] = b
last_of b (c ∷ s) = last_of c s

unfoldable pub is_name : Bool → Bytes → Bool
is_name allow_dot [] = false
is_name allow_dot (b ∷ s) =
    if ltb max_name_bytes (length (b ∷ s))
    then false
    else if not (is_alnum b) || not (is_alnum (last_of b s))
    then false
    else all (λ c. is_alnum c || is_separator allow_dot c) (b ∷ s)

unfoldable pub is_ref_name : Bytes → Bool
unfolding is_name
is_ref_name name = is_name true name

unfoldable pub is_port_name : Bytes → Bool
unfolding is_name
is_port_name name = is_name false name

-- `split_once` and `split`
unfoldable pub split_once : ℕ → Bytes → Option (Bytes × Bytes)
split_once c [] = none
split_once c (b ∷ s) =
    let rest = split_once c s in
    if b == c then some ([], s) else elim rest [ none ↦ none | some (x, y) ↦ some (b ∷ x, y) ]

abbrev pub onto_first : ℕ → List Bytes → List Bytes
onto_first b [] = (b ∷ []) ∷ []
onto_first b (s ∷ ss) = (b ∷ s) ∷ ss

unfoldable pub split : ℕ → Bytes → List Bytes
split c [] = [] ∷ []
split c (b ∷ s) = let rest = split c s in if b == c then [] ∷ rest else onto_first b rest

abbrev pub is_empty : Bytes → Bool
is_empty [] = true
is_empty (_ ∷ _) = false

abbrev pub starts_with : ℕ → Bytes → Bool
starts_with c [] = false
starts_with c (b ∷ _) = b == c

unfoldable pub dot_separated : (Bytes → Bool) → Bytes → Bool
unfolding split
dot_separated element text = not (is_empty text) && all element (split b'.' text)

unfoldable pub is_numeric_identifier : Bytes → Bool
unfolding text_eq
is_numeric_identifier text =
    not (is_empty text)
    && all is_digit text
    && (text_eq text (codes "0") || not (starts_with b'0' text))

unfoldable pub is_build_identifier : Bytes → Bool
is_build_identifier text = not (is_empty text) && all is_identifier_byte text

unfoldable pub is_pre_release_identifier : Bytes → Bool
unfolding is_build_identifier is_numeric_identifier
is_pre_release_identifier text =
    if not (is_build_identifier text)
    then false
    else if all is_digit text
    then is_numeric_identifier text
    else true

-- The part before a separator, and whether what stands behind it, if it is there, passes the test.
abbrev pub peeled : Bytes → Option (Bytes × Bytes) → Bytes
peeled whole none = whole
peeled whole (some (front, back)) = front

abbrev pub passes : (Bytes → Bool) → Option (Bytes × Bytes) → Bool
passes test none = true
passes test (some (front, back)) = test back

unfoldable pub is_core : List Bytes → Bool
unfolding is_numeric_identifier
is_core (major ∷ minor ∷ patch ∷ []) =
    is_numeric_identifier major && is_numeric_identifier minor && is_numeric_identifier patch
is_core _ = false

unfoldable pub is_version : Bytes → Bool
unfolding split_once split dot_separated is_build_identifier is_pre_release_identifier is_core
is_version version =
    let build = split_once b'+' version in
    let rest = peeled version build in
    let pre = split_once b'-' rest in
    if not (passes (dot_separated is_build_identifier) build)
    then false
    else if not (passes (dot_separated is_pre_release_identifier) pre)
    then false
    else is_core (split b'.' (peeled rest pre))
