-- ===== src/Service/Connection/Texts.antt =====
-- About the texts that crates/service/src/connection.rs takes apart: slices, trimming and names.
use eieio.Base.{
  encode, ℕ, ◌+◌, true, [], ◌∷◌, ◌++◌, ◌≡◌, refl, sym, ap, ◌∙◌, inl, inr, Bytes, All, length, take,
  drop, length-append, Bool-cases, append_assoc,
}
use eieio.Service.Text.{Chars, utf8, size, is_whitespace, trim_start, trim_end, before_end}
use eieio.Service.Connection.{Span, span}

pub utf8-append : (s t : Chars) → utf8 (s ++ t) ≡ utf8 s ++ utf8 t
unfolding utf8
utf8-append [] t = refl
utf8-append (c ∷ s) t =
    ap (λ x. encode c ++ x) (utf8-append s t) ∙ sym (append_assoc (encode c) (utf8 s) (utf8 t))

pub size-append : (s t : Chars) → size (s ++ t) ≡ size s + size t
size-append s t = ap length (utf8-append s t) ∙ length-append (utf8 s) (utf8 t)

-- The bytes of a text that a span covers.
abbrev pub slice : Chars → Span → Bytes
slice text s = take s.len (drop s.start (utf8 text))

take-append : (a b : Bytes) → take (length a) (a ++ b) ≡ a
take-append [] b = refl
take-append (x ∷ a) b = ap (◌∷◌ x) (take-append a b)

drop-append : (a b : Bytes) → drop (length a) (a ++ b) ≡ b
drop-append [] b = refl
drop-append (x ∷ a) b = drop-append a b

-- A span that begins where a part of the text does, and has its length, covers that part.
pub slice-part :
    (text a b c : Chars) (s : Span)
    → text ≡ a ++ (b ++ c)
    → s ≡ span (size a) (size b)
    → slice text s ≡ utf8 b
slice-part text a b c s whole at =
    let bytes : utf8 text ≡ utf8 a ++ (utf8 b ++ utf8 c) =
      ap utf8 whole ∙ utf8-append a (b ++ c) ∙ ap (λ x. utf8 a ++ x) (utf8-append b c) in
    rw (at, bytes, drop-append (utf8 a) (utf8 b ++ utf8 c)) (take-append (utf8 b) (utf8 c))

abbrev pub Blank : Chars → Type 0
Blank s = All (λ c. is_whitespace c ≡ true) s

-- What is cut off in front is blank, and so is what is cut off behind.
pub trim_start-cut : (s : Chars) → (lead : Chars) × (s ≡ lead ++ trim_start s) × Blank lead
unfolding trim_start
trim_start-cut [] = ([], refl, tt)
trim_start-cut (c ∷ s) =
    let (lead, e, blank) = trim_start-cut s in
    elim (Bool-cases (is_whitespace c)) [
      | inl h ↦ (c ∷ lead, rw h (ap (◌∷◌ c) e), (h, blank))
      | inr h ↦ ([], rw h refl, tt)
    ]

before_end-cut :
    (c : ℕ) (s trail : Chars)
    → Blank trail
    → (trail' : Chars) × (c ∷ s ++ trail ≡ before_end c s ++ trail') × Blank trail'
unfolding before_end
before_end-cut c [] trail blank = elim (Bool-cases (is_whitespace c)) [
  | inl h ↦ (c ∷ trail, rw h refl, (h, blank))
  | inr h ↦ (trail, rw h refl, blank)
]
before_end-cut c (d ∷ s) trail blank = (trail, refl, blank)

pub trim_end-cut : (s : Chars) → (trail : Chars) × (s ≡ trim_end s ++ trail) × Blank trail
unfolding trim_end
trim_end-cut [] = ([], refl, tt)
trim_end-cut (c ∷ s) =
    let (trail, e, blank) = trim_end-cut s in
    let (trail', e', blank') = before_end-cut c (trim_end s) trail blank in
    (trail', ap (◌∷◌ c) e ∙ e', blank')

pub size-dot : size (b'.' ∷ []) ≡ 1
unfolding utf8
size-dot = refl

pub size-arrow : size (b'-' ∷ b'>' ∷ []) ≡ 2
unfolding utf8
size-arrow = refl

pub size-nil : 0 ≡ size []
unfolding utf8
size-nil = refl
