-- ===== src/Service/Connection/Terminals.antt =====
-- About `Terminal::parse` (crates/service/src/connection.rs).
use eieio.Base.{
  ℕ, ◌+◌, ◌-◌, true, false, Option, none, some, [], ◌∷◌, ◌++◌, ◌≡◌, refl, sym, ap, subst, ◌∙◌, inl,
  inr, arith, All-append, Result, ok, err, Bool-cases, append_assoc,
}
use eieio.Manifest.Names.{split_once, is_port_name}
use eieio.Manifest.Names.Splitting.{Free, Found, absent, at, split_once-Found}
use eieio.Service.Text.{Chars, utf8, size, trim_start, trim, is_whitespace}
use eieio.Service.Connection.{
  span, Side, ConnectionError, empty_terminal, no_port, two_dots, bad_instance, bad_port, Terminal,
  is_id, named, dotted_once, terminal_at, parse_terminal,
}
use eieio.Service.Connection.Texts.{
  size-append, slice, slice-part, size-dot, Blank, trim_start-cut, trim_end-cut,
}

-- What is left of a slice without the blanks at its ends.
abbrev pub Inside : Chars → Chars → Type 0
Inside raw t =
    (lead : Chars) × (trail : Chars) × (raw ≡ lead ++ (t ++ trail)) × Blank lead × Blank trail

-- What an answer says of a slice of the text. Its spans cover what it is about.
abbrev pub Says : Chars → Chars → Side → Result ConnectionError Terminal → Type 0
Says text raw side (ok t) =
    Inside raw (t.instance_id ++ b'.' ∷ t.port)
    × (slice text t.instance_span ≡ utf8 t.instance_id)
    × (slice text t.port_span ≡ utf8 t.port)
    × (is_id t.instance_id ≡ true)
    × (is_port_name (utf8 t.port) ≡ true)
Says text raw side (err (empty_terminal s)) = (s ≡ side) × Blank raw
Says text raw side (err (no_port s sp)) =
    (s ≡ side) × (t : Chars) × Inside raw t × (slice text sp ≡ utf8 t) × Free b'.' t
Says text raw side (err (two_dots s sp)) =
    (s ≡ side)
    × (a : Chars) × (b : Chars) × (c : Chars) × Inside raw (a ++ b'.' ∷ (b ++ b'.' ∷ c))
    × (slice text sp ≡ utf8 (a ++ b'.' ∷ (b ++ b'.' ∷ c)))
Says text raw side (err (bad_instance s sp)) =
    (s ≡ side)
    × (t : Chars) × (port : Chars) × Inside raw (t ++ b'.' ∷ port)
    × (slice text sp ≡ utf8 t)
    × (is_id t ≡ false)
Says text raw side (err (bad_port s sp)) =
    (s ≡ side)
    × (t : Chars) × (port : Chars) × Inside raw (t ++ b'.' ∷ port)
    × (slice text sp ≡ utf8 port)
    × (is_port_name (utf8 port) ≡ false)
Says text raw side (err ConnectionError.no_arrow) = ⊥
Says text raw side (err ConnectionError.two_arrows) = ⊥

module _ (text raw : Chars) (side : Side) (before after : Chars) (offset : ℕ)
    (starts : offset ≡ size before) where
  named-Says :
      (instance_id port : Chars)
      → text ≡ before ++ ((instance_id ++ b'.' ∷ port) ++ after)
      → Inside raw (instance_id ++ b'.' ∷ port)
      → Says text raw side (named side offset instance_id port)
  unfolding named
  named-Says instance_id port whole inside =
      let dot : Chars = b'.' ∷ [] in
      let first : text ≡ before ++ (instance_id ++ (b'.' ∷ port ++ after)) =
        whole ∙ ap (λ x. before ++ x) (append_assoc instance_id (b'.' ∷ port) after) in
      let second : text ≡ (before ++ (instance_id ++ dot)) ++ (port ++ after) =
        first
        ∙ sym (
            append_assoc before (instance_id ++ dot) (port ++ after)
            ∙ ap (λ x. before ++ x) (append_assoc instance_id dot (port ++ after))) in
      let s =
        slice-part text before instance_id (b'.' ∷ port ++ after) (span offset (size instance_id))
          first (ap (λ x. span x (size instance_id)) starts) in
      let at_port : offset + size instance_id + 1 ≡ size (before ++ (instance_id ++ dot)) = omega (
        arith,
        starts,
        size-append before (instance_id ++ dot),
        size-append instance_id dot,
        size-dot,
      ) in
      let s' =
        slice-part text (before ++ (instance_id ++ dot)) port after
          (span (offset + size instance_id + 1) (size port)) second
          (ap (λ x. span x (size port)) at_port) in
      elim (Bool-cases (is_id instance_id)) [
        | inr no_id ↦ rw no_id (refl, instance_id, port, inside, s, no_id)
        | inl an_id ↦ elim (Bool-cases (is_port_name (utf8 port))) [
          | inr no_name ↦ rw (an_id, no_name) (refl, instance_id, port, inside, s', no_name)
          | inl a_name ↦ rw (an_id, a_name) (inside, s, s', an_id, a_name)
        ]
      ]

  -- `trimmed` is what the slice holds between its blanks.
  module _ (trimmed : Chars) (whole : text ≡ before ++ (trimmed ++ after))
      (inside : Inside raw trimmed) where
    dotted_twice-Says :
        (instance_id port : Chars) (o : Option (Chars × Chars))
        → trimmed ≡ instance_id ++ b'.' ∷ port
        → Found b'.' port o
        → Says text raw side (elim o [
          | some _ ↦ err (two_dots side (span offset (size trimmed)))
          | none ↦ named side offset instance_id port
        ])
    dotted_twice-Says instance_id port _ e (absent free) =
        named-Says instance_id port (whole ∙ ap (λ x. before ++ (x ++ after)) e)
          (subst (Inside raw) e inside)
    dotted_twice-Says instance_id port _ e (at b c free e') =
        let parts : trimmed ≡ instance_id ++ b'.' ∷ (b ++ b'.' ∷ c) =
          e ∙ ap (λ x. instance_id ++ b'.' ∷ x) e' in
        let s =
          slice-part text before trimmed after (span offset (size trimmed)) whole
            (ap (λ x. span x (size trimmed)) starts) in
        (refl, instance_id, b, c, subst (Inside raw) parts inside, s ∙ ap utf8 parts)

    dotted_once-Says :
        (o : Option (Chars × Chars))
        → Found b'.' trimmed o
        → Says text raw side (dotted_once side offset trimmed o)
    unfolding dotted_once
    dotted_once-Says _ (absent free) = (
      refl,
      trimmed,
      inside,
      slice-part text before trimmed after (span offset (size trimmed)) whole
          (ap (λ x. span x (size trimmed)) starts),
      free,
    )
    dotted_once-Says _ (at instance_id port free e) =
        dotted_twice-Says instance_id port (split_once b'.' port) e (split_once-Found b'.' port)

Inside-Blank : (raw : Chars) → Inside raw [] → Blank raw
Inside-Blank raw (lead, trail, e, b, b') =
    subst Blank (sym e) (All-append (λ c. is_whitespace c ≡ true) lead trail b b')

terminal_at-Says :
    (text raw : Chars) (side : Side) (before after : Chars) (offset : ℕ) (trimmed : Chars)
    → offset ≡ size before
    → text ≡ before ++ (trimmed ++ after)
    → Inside raw trimmed
    → Says text raw side (terminal_at side offset trimmed)
unfolding terminal_at
terminal_at-Says text raw side before after offset [] starts whole inside =
    (refl, Inside-Blank raw inside)
terminal_at-Says text raw side before after offset (c ∷ s) starts whole inside =
    dotted_once-Says text raw side before after offset starts (c ∷ s) whole inside _
      (split_once-Found b'.' (c ∷ s))

-- Whatever `Terminal::parse` answers about a slice of a text, it is so.
pub parse_terminal-Says :
    (text before raw after : Chars) (side : Side) (start : ℕ)
    → text ≡ before ++ (raw ++ after)
    → start ≡ size before
    → Says text raw side (parse_terminal start raw side)
unfolding parse_terminal trim
parse_terminal-Says text before raw after side start whole starts =
    let (lead, e, blank) = trim_start-cut raw in
    let (trail, e', blank') = trim_end-cut (trim_start raw) in
    let parts : raw ≡ lead ++ (trim raw ++ trail) = e ∙ ap (λ x. lead ++ x) e' in
    let sizes : size raw ≡ size lead + size (trim_start raw) =
      ap size e ∙ size-append lead (trim_start raw) in
    let offset : start + (size raw - size (trim_start raw)) ≡ size (before ++ lead) =
      omega (arith, starts, sizes, size-append before lead) in
    let placed : text ≡ (before ++ lead) ++ (trim raw ++ (trail ++ after)) =
      whole ∙ ap (λ x. before ++ (x ++ after)) parts ∙ simp append_assoc in
    terminal_at-Says text raw side (before ++ lead) (trail ++ after) _ (trim raw) offset placed
      (lead, trail, parts, blank, blank')
