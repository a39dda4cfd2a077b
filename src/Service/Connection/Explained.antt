-- ===== src/Service/Connection/Explained.antt =====
-- About what `Connection::parse` (crates/service/src/connection.rs) answers.
use eieio.Base.{
  ◌+◌, Option, none, some, [], ◌∷◌, ◌++◌, ◌≡◌, sym, ap, ◌∙◌, inl, inr, ◌⊎◌, arith, Result, ok, err,
  ◌>>=◌, append_assoc, append-nil,
}
use eieio.Service.Text.{Chars, size}
use eieio.Service.Connection.{
  source, destination, ConnectionError, no_arrow, two_arrows, empty_terminal, no_port, two_dots,
  bad_instance, bad_port, Terminal, Connection, find_arrow, parse_terminal, parse_found, parse,
}
use eieio.Service.Connection.Texts.{size-append, size-arrow, size-nil}
use eieio.Service.Connection.Arrows.{Arrowless, FoundArrow, at, find_arrow-FoundArrow}
use eieio.Service.Connection.Terminals.{Says, parse_terminal-Says}

-- The text has one arrow, between these two parts.
abbrev pub OneArrow : Chars → Chars → Chars → Type 0
OneArrow text front back = (text ≡ front ++ b'-' ∷ b'>' ∷ back) × Arrowless front × Arrowless back

-- An error of an end: of the source, or of the destination of a good source.
abbrev SaysOfEnds : Chars → ConnectionError → Type 0
SaysOfEnds text e =
    (front : Chars) × (back : Chars) × OneArrow text front back
    × (Says text front source (err e)
        ⊎ ((t : Terminal) × Says text front source (ok t) × Says text back destination (err e)))

abbrev pub Explains : Chars → Result ConnectionError Connection → Type 0
Explains text (ok c) =
    (front : Chars) × (back : Chars) × OneArrow text front back
    × Says text front source (ok c.from)
    × Says text back destination (ok c.to)
Explains text (err no_arrow) = Arrowless text
Explains text (err two_arrows) =
    (a : Chars) × (b : Chars) × (c : Chars) × (text ≡ a ++ b'-' ∷ b'>' ∷ (b ++ b'-' ∷ b'>' ∷ c))
Explains text (err (empty_terminal s)) = SaysOfEnds text (empty_terminal s)
Explains text (err (no_port s sp)) = SaysOfEnds text (no_port s sp)
Explains text (err (two_dots s sp)) = SaysOfEnds text (two_dots s sp)
Explains text (err (bad_instance s sp)) = SaysOfEnds text (bad_instance s sp)
Explains text (err (bad_port s sp)) = SaysOfEnds text (bad_port s sp)

explained_by_ends : (text : Chars) (e : ConnectionError) → SaysOfEnds text e → Explains text (err e)
explained_by_ends text no_arrow (front, back, one, inl h) = elim h [ ]
explained_by_ends text no_arrow (front, back, one, inr (t, h, h')) = elim h' [ ]
explained_by_ends text two_arrows (front, back, one, inl h) = elim h [ ]
explained_by_ends text two_arrows (front, back, one, inr (t, h, h')) = elim h' [ ]
explained_by_ends text (empty_terminal s) h = h
explained_by_ends text (no_port s sp) h = h
explained_by_ends text (two_dots s sp) h = h
explained_by_ends text (bad_instance s sp) h = h
explained_by_ends text (bad_port s sp) h = h

module _ (text front back : Chars) (arrow_at : OneArrow text front back) where
  to-Explains :
      (from : Terminal) (r : Result ConnectionError Terminal)
      → Says text front source (ok from)
      → Says text back destination r
      → Explains text (r >>= λ to. ok (record { from = from; to = to }))
  to-Explains from (ok to) h h' = (front, back, arrow_at, h, h')
  to-Explains from (err e) h h' =
      explained_by_ends text e (front, back, arrow_at, inr (from, h, h'))

  from-Explains :
      (r : Result ConnectionError Terminal) (r' : Result ConnectionError Terminal)
      → Says text front source r
      → Says text back destination r'
      → Explains text (r >>= λ from. r' >>= λ to. ok (record { from = from; to = to }))
  from-Explains (ok from) r' h h' = to-Explains from r' h h'
  from-Explains (err e) r' h h' = explained_by_ends text e (front, back, arrow_at, inl h)

second-Explains :
    (text front back : Chars) (o : Option (Chars × Chars))
    → Arrowless front
    → text ≡ front ++ b'-' ∷ b'>' ∷ back
    → FoundArrow back o
    → Explains text (elim o [
      | some _ ↦ err two_arrows
      | none ↦ parse_terminal 0 front source >>= λ from.
          parse_terminal (size front + 2) back destination >>= λ to.
          ok (record { from = from; to = to })
    ])
second-Explains text front back _ first e (FoundArrow.no_arrow free) =
    let tail : Chars = b'-' ∷ b'>' ∷ back in
    let arrow : Chars = b'-' ∷ b'>' ∷ [] in
    let behind : text ≡ (front ++ arrow) ++ (back ++ []) =
      e
      ∙ sym (
          append_assoc front arrow (back ++ [])
          ∙ ap (λ x. front ++ b'-' ∷ b'>' ∷ x) (append-nil back)) in
    let starts : size front + 2 ≡ size (front ++ arrow) =
      omega (arith, size-append front arrow, size-arrow) in
    from-Explains text front back (e, first, free) _ _
      (parse_terminal-Says text [] front tail source 0 e size-nil)
      (parse_terminal-Says text (front ++ arrow) back [] destination (size front + 2) behind starts)
second-Explains text front back _ first e (at b c _ e') =
    (front, b, c, e ∙ ap (λ x. front ++ b'-' ∷ b'>' ∷ x) e')

parse_found-Explains :
    (text : Chars) (o : Option (Chars × Chars)) → FoundArrow text o → Explains text (parse_found o)
unfolding parse_found
parse_found-Explains text _ (FoundArrow.no_arrow free) = free
parse_found-Explains text _ (at front back first e) =
    second-Explains text front back (find_arrow back) first e (find_arrow-FoundArrow back)

-- Every answer says what is there. A connection: the text has one arrow, each side is an instance
-- id, a dot and a port name between blanks, and each span covers its part. An error: no arrow,
-- two, or the first end that is wrong, with the span of what is wrong there, an id or a port that
-- is no name, a terminal with two dots or with none; what is empty is blank.
pub parse-Explains : (text : Chars) → Explains text (parse text)
unfolding parse
parse-Explains text = parse_found-Explains text (find_arrow text) (find_arrow-FoundArrow text)
