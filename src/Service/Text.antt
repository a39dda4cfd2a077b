-- ===== src/Service/Text.antt =====
-- What crates/service uses of Rust's `str`: a text is its characters, and its length that of their
-- UTF-8 bytes.
use eieio.Base.{encode, ℕ, Bool, ◌||◌, List, [], ◌∷◌, ◌++◌, ◌==◌, if◌then◌else◌, Bytes, length}
use eieio.Manifest.Pattern.{within}

abbrev pub Chars : Type 0
Chars = List ℕ

unfoldable pub utf8 : Chars → Bytes
utf8 [] = []
utf8 (c ∷ s) = encode c ++ utf8 s

abbrev pub size : Chars → ℕ
size s = length (utf8 s)

-- `char::is_whitespace`
unfoldable pub is_whitespace : ℕ → Bool
is_whitespace c =
    within 0x9 0xd c
    || c == 0x20
    || c == 0x85
    || c == 0xa0
    || c == 0x1680
    || within 0x2000 0x200a c
    || within 0x2028 0x2029 c
    || c == 0x202f
    || c == 0x205f
    || c == 0x3000

unfoldable pub trim_start : Chars → Chars
unfolding is_whitespace
trim_start [] = []
trim_start (c ∷ s) = let rest = trim_start s in if is_whitespace c then rest else c ∷ s

unfoldable pub before_end : ℕ → Chars → Chars
unfolding is_whitespace
before_end c [] = if is_whitespace c then [] else c ∷ []
before_end c (d ∷ s) = c ∷ d ∷ s

unfoldable pub trim_end : Chars → Chars
unfolding before_end
trim_end [] = []
trim_end (c ∷ s) = before_end c (trim_end s)

unfoldable pub trim : Chars → Chars
unfolding trim_start trim_end
trim s = trim_end (trim_start s)
