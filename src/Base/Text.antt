-- ===== src/Base/Text.antt =====
-- A text is its UTF-8 bytes, the form in which the source's lexers walk it.
use Prim.Native.Nat.{ℕ, ◌+◌, ◌/◌, ◌%◌}
use Prim.Native.Char.{code}
use Prim.Native.String.{String}
use mathlib.Core.Path.{◌≡◌, refl}
use mathlib.Core.Bool.{Bool, true, false, ◌&&◌}
use mathlib.Core.Logic.{◌↔◌}
use mathlib.Core.List.{List, [], ◌∷◌}
use native.Mathlib.Omega.{arith}
use eieio.Base.Tests.{◌==◌, ltb, leb, if◌then◌else◌}

abbrev pub Bytes : Type 0
Bytes = List ℕ

-- The code points of a text: its bytes, for the ASCII texts that the source writes.
abbrev pub codes : String → Bytes
codes String.[] = []
codes (String.◌∷◌ c s) = code c ∷ codes s

-- `==` on texts.
unfoldable pub text_eq : Bytes → Bytes → Bool
text_eq [] [] = true
text_eq [] (_ ∷ _) = false
text_eq (_ ∷ _) [] = false
text_eq (a ∷ s) (b ∷ t) = (a == b) && text_eq s t

pub text_eq→eq : (s t : Bytes) → text_eq s t ≡ true → s ≡ t
unfolding text_eq
text_eq→eq [] [] h = refl
text_eq→eq [] (_ ∷ _) h = ground arith
text_eq→eq (_ ∷ _) [] h = ground arith
text_eq→eq (a ∷ s) (b ∷ t) h = ground (arith, text_eq→eq s t)

pub text_eq_refl : (s : Bytes) → text_eq s s ≡ true
unfolding text_eq
text_eq_refl [] = refl
text_eq_refl (a ∷ s) = ground (arith, text_eq_refl s)

pub text_eq_iff : (s t : Bytes) → (text_eq s t ≡ true) ↔ (s ≡ t)
text_eq_iff s t = (text_eq→eq s t, λ e. rw e (text_eq_refl t))

-- The UTF-8 bytes of a character.
abbrev pub encode : ℕ → Bytes
encode code =
    if ltb code 128
    then code ∷ []
    else if ltb code 2048
    then (192 + code / 64) ∷ (128 + code % 64) ∷ []
    else if ltb code 65536
    then (224 + code / 4096) ∷ (128 + code / 64 % 64) ∷ (128 + code % 64) ∷ []
    else (240 + code / 262144)
      ∷ (128 + code / 4096 % 64)
      ∷ (128 + code / 64 % 64)
      ∷ (128 + code % 64)
      ∷ []

abbrev pub is_digit : ℕ → Bool
is_digit b = leb b'0' b && leb b b'9'
