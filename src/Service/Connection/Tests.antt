-- ===== src/Service/Connection/Tests.antt =====
-- Runs of `Connection::parse` (crates/service/src/connection.rs).
use eieio.Base.{◌∷◌, ◌++◌, ◌≡◌, refl, ok, err, codes}
use eieio.Manifest.Names.{is_port_name}
use eieio.Service.Text.{Chars, utf8, trim}
use eieio.Service.Connection.{source, destination, two_arrows, no_port, bad_port, span, parse}
use eieio.Service.Connection.Explained.{Explains, parse-Explains}

-- Blanks that are two bytes long stand before the source and after the arrow.
abbrev spaced : Chars
spaced = 0xa0 ∷ codes "b7k2.out ->" ++ 0x85 ∷ codes "f3m9.in"

parse-spaced :
    parse spaced
    ≡ ok (record {
      from = record {
        instance_id = codes "b7k2";
        port = codes "out";
        instance_span = span 2 4;
        port_span = span 7 3;
      };
      to = record {
        instance_id = codes "f3m9";
        port = codes "in";
        instance_span = span 15 4;
        port_span = span 20 2;
      };
    })
unfolding parse trim is_port_name utf8
parse-spaced = refl

parse_bad_port : parse (codes "a.out -> b.In") ≡ err (bad_port destination (span 11 2))
unfolding parse trim is_port_name utf8
parse_bad_port = refl

parse_two_arrows : parse (codes "a.b -> c.d -> e.f") ≡ err two_arrows
unfolding parse trim
parse_two_arrows = refl

parse_no_dot : parse (codes "a -> b.c") ≡ err (no_port source (span 0 1))
unfolding parse trim utf8
parse_no_dot = refl

parse-Explains_example : Explains spaced (parse spaced)
parse-Explains_example = parse-Explains spaced
