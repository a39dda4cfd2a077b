-- ===== src/Service/Connection.antt =====
-- crates/service/src/connection.rs: the connection strings. What `find` splits a text into stands for
-- the slices before and after the place that it finds.
pub mod Texts
pub mod Arrows
pub mod Terminals
pub mod Explained
mod Tests
use eieio.Base.{
  ℕ, ◌+◌, ◌-◌, Bool, true, false, not, Option, none, some, List, [], ◌∷◌, ◌++◌, ◌==◌, if◌then◌else◌,
  ◌&&◌, Result, ok, err, ◌>>=◌, Bytes, length,
}
use eieio.Manifest.Names.{split_once, is_port_name}
use eieio.Service.Text.{Chars, utf8, size, trim_start, trim}

-- service/src/error.rs
pub record Span : Type 0 where
  pub start : ℕ
  pub len : ℕ

pub data Side : Type 0 where
  source destination : Side

pub data ConnectionError : Type 0 where
  no_arrow two_arrows : ConnectionError
  empty_terminal : Side → ConnectionError
  no_port : Side → Span → ConnectionError
  two_dots : Side → Span → ConnectionError
  bad_instance : Side → Span → ConnectionError
  bad_port : Side → Span → ConnectionError

pub record Terminal : Type 0 where
  pub instance_id : Chars
  pub port : Chars
  pub instance_span : Span
  pub port_span : Span

pub record Connection : Type 0 where
  pub from : Terminal
  pub to : Terminal

-- service/src/id.rs
abbrev pub is_id : Chars → Bool
is_id s = is_port_name (utf8 s)

abbrev pub span : ℕ → ℕ → Span
span start len = record { start = start; len = len }

-- `text.find("->")`
unfoldable pub strip_arrow : Chars → Option Chars
strip_arrow (a ∷ b ∷ s) = if (a == b'-') && (b == b'>') then some s else none
strip_arrow _ = none

unfoldable pub arrow_or : Option Chars → ℕ → Option (Chars × Chars) → Option (Chars × Chars)
arrow_or (some after) c later = some ([], after)
arrow_or none c none = none
arrow_or none c (some (front, after)) = some (c ∷ front, after)

unfoldable pub find_arrow : Chars → Option (Chars × Chars)
unfolding strip_arrow arrow_or
find_arrow [] = none
find_arrow (c ∷ s) = arrow_or (strip_arrow (c ∷ s)) c (find_arrow s)

-- `Terminal::parse` of the slice that begins at `start`, in the parts between its returns
unfoldable pub named : Side → ℕ → Chars → Chars → Result ConnectionError Terminal
named side offset instance_id port =
    let instance_span = span offset (size instance_id) in
    let port_span = span (offset + size instance_id + 1) (size port) in
    if not (is_id instance_id)
    then err (bad_instance side instance_span)
    else if not (is_port_name (utf8 port))
    then err (bad_port side port_span)
    else ok (record {
      instance_id = instance_id;
      port = port;
      instance_span = instance_span;
      port_span = port_span;
    })

unfoldable pub dotted_once :
    Side → ℕ → Chars → Option (Chars × Chars) → Result ConnectionError Terminal
unfolding named split_once
dotted_once side offset trimmed none = err (no_port side (span offset (size trimmed)))
dotted_once side offset trimmed (some (instance_id, port)) = elim (split_once b'.' port) [
  | some _ ↦ err (two_dots side (span offset (size trimmed)))
  | none ↦ named side offset instance_id port
]

unfoldable pub terminal_at : Side → ℕ → Chars → Result ConnectionError Terminal
unfolding dotted_once split_once
terminal_at side offset [] = err (empty_terminal side)
terminal_at side offset (c ∷ s) = dotted_once side offset (c ∷ s) (split_once b'.' (c ∷ s))

unfoldable pub parse_terminal : ℕ → Chars → Side → Result ConnectionError Terminal
unfolding terminal_at trim trim_start
parse_terminal start raw side =
    terminal_at side (start + (size raw - size (trim_start raw))) (trim raw)

unfoldable pub parse_found : Option (Chars × Chars) → Result ConnectionError Connection
unfolding find_arrow parse_terminal
parse_found none = err no_arrow
parse_found (some (front, back)) = elim (find_arrow back) [
  | some _ ↦ err two_arrows
  | none ↦ parse_terminal 0 front source >>= λ from.
      parse_terminal (size front + 2) back destination >>= λ to.
      ok (record { from = from; to = to })
]

unfoldable pub parse : Chars → Result ConnectionError Connection
unfolding find_arrow parse_found
parse text = parse_found (find_arrow text)
