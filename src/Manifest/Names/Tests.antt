-- ===== src/Manifest/Names/Tests.antt =====
-- Runs of the validators of crates/manifest/src/name.rs.
use eieio.Base.{true, false, ◌≤◌, ◌↔◌, ◌≡◌, refl, Bytes, codes, length}
use eieio.Manifest.Pattern.{Matches, name_pattern, version_pattern}
use eieio.Manifest.Names.{max_name_bytes, is_name, is_version}
use eieio.Manifest.Names.Shape.{is_name-Matches}
use eieio.Manifest.Names.Version.{is_version-Matches}

abbrev release_candidate : Bytes
release_candidate = codes "1.0.0-rc.1-x+001"

candidate_is_version : is_version release_candidate ≡ true
unfolding is_version
candidate_is_version = refl

leading_zero : is_version (codes "1.0.0-01") ≡ false
unfolding is_version
leading_zero = refl

trailing_dash : is_name true (codes "wasm32-") ≡ false
unfolding is_name
trailing_dash = refl

is_name-Matches_example : (is_name true (codes "wasm32.x") ≡ true) ↔ (
    Matches (name_pattern true) (codes "wasm32.x") × (length (codes "wasm32.x") ≤ max_name_bytes))
is_name-Matches_example = is_name-Matches true (codes "wasm32.x")

is_version-Matches_example :
    (is_version release_candidate ≡ true) ↔ Matches version_pattern release_candidate
is_version-Matches_example = is_version-Matches release_candidate
