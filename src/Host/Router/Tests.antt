-- ===== src/Host/Router/Tests.antt =====
-- A small service: runs of `resolve`, and its theorems at that service.
use mathlib.Core.Option
use eieio.Base.{ℕ, ◌≡◌, refl, some, List, [], ◌∷◌, map, arith, ok, err, codes, text_eq}
use eieio.Host.Router.{
  endpoint, Routes, Descriptor, Port, Connection, backpressure, drop_oldest, error_port_inbound,
  duplicate, port_err, resolve_output, resolve_input, resolve, targets, deliveries, collect,
  output_name, outgoing,
}
use eieio.Host.Router.Lookup.{wired, targets-resolve, DistinctIn, resolve-Distinct}
use eieio.Host.Router.Names.{Names, resolve_output-Names}
use eieio.Host.Router.Panics.{IsReadable, resolve-IsReadable}
use eieio.Host.Router.Fanout.{collect-deliveries}

abbrev sensor : Descriptor
sensor = record { instance_id = codes "b7k2"; inputs = []; outputs = codes "out" ∷ [] }

abbrev cold : Descriptor
cold = record {
  instance_id = codes "f3m9";
  inputs = codes "in" ∷ [];
  outputs = codes "above" ∷ codes "below" ∷ [];
}

abbrev node : List Descriptor
node = sensor ∷ cold ∷ []

abbrev port : List ℕ → List ℕ → Port
port i p = record { instance_id = i; port = p }

abbrev wire_from : List ℕ → List ℕ → List ℕ → List ℕ → Connection
wire_from i p j q = record { source = port i p; to = port j q; overflow = backpressure }

-- The error port of the second block and the first block's output both feed the second block.
abbrev wiring : List Connection
wiring =
    wire_from (codes "f3m9") (codes "err") (codes "f3m9") (codes "in")
    ∷ wire_from (codes "b7k2") (codes "out") (codes "f3m9") (codes "in")
    ∷ []

abbrev built : Routes
built = record {
  sources =
      record { source = endpoint 0 0; start = 0; len = 1 }
      ∷ record { source = endpoint 1 port_err; start = 1; len = 1 }
      ∷ [];
  targets =
      record { to = endpoint 1 0; overflow = backpressure; connection = 1 }
      ∷ record { to = endpoint 1 0; overflow = backpressure; connection = 0 }
      ∷ [];
}

resolve-wiring : resolve node wiring ≡ some (ok built)
unfolding resolve resolve_output resolve_input text_eq
resolve-wiring = refl

outgoing_cold :
    outgoing built 1
    ≡ some (record { to = endpoint 1 0; overflow = backpressure; connection = 0 } ∷ [])
unfolding outgoing
outgoing_cold = refl

-- The same connection twice is refused, and so is the error port as a destination.
resolve_twice :
    resolve node (wire_from (codes "b7k2") (codes "out") (codes "f3m9") (codes "in") ∷ wiring)
    ≡ some (err (duplicate (port (codes "b7k2") (codes "out")) (port (codes "f3m9") (codes "in"))))
unfolding resolve resolve_output resolve_input text_eq
resolve_twice = refl

resolve_err_inbound :
    resolve node (wire_from (codes "b7k2") (codes "out") (codes "f3m9") (codes "err") ∷ [])
    ≡ some (err (error_port_inbound (port (codes "f3m9") (codes "err"))))
unfolding resolve resolve_output resolve_input text_eq
resolve_err_inbound = refl

targets-resolve_example :
    targets built (endpoint 1 port_err) ≡ some (wired node (endpoint 1 port_err) 0 wiring)
targets-resolve_example =
    targets-resolve node wiring built (endpoint 1 port_err) (omega arith) resolve-wiring

resolve-Distinct_example : DistinctIn (targets built (endpoint 0 0))
resolve-Distinct_example =
    resolve-Distinct node wiring built (endpoint 0 0) (omega arith) resolve-wiring

resolve-IsReadable_example : IsReadable (resolve node wiring)
resolve-IsReadable_example = resolve-IsReadable node wiring

resolve_output_cold : resolve_output node (port (codes "f3m9") (codes "below")) ≡ ok (endpoint 1 1)
unfolding resolve_output text_eq
resolve_output_cold = refl

resolve_output-Names_example :
    Names node (port (codes "f3m9") (codes "below")) output_name (endpoint 1 1)
resolve_output-Names_example =
    resolve_output-Names node (port (codes "f3m9") (codes "below")) (endpoint 1 1) (omega arith)
      (omega arith) resolve_output_cold

abbrev fan : Routes
fan = record {
  sources = record { source = endpoint 0 0; start = 0; len = 2 } ∷ [];
  targets =
      record { to = endpoint 1 0; overflow = backpressure; connection = 0 }
      ∷ record { to = endpoint 2 0; overflow = drop_oldest; connection = 1 }
      ∷ [];
}

collect-deliveries_example :
    Option.map (collect {B = ℕ} 3) (deliveries fan (endpoint 0 0) 7)
    ≡ Option.map (map (λ t. (t, 7))) (targets fan (endpoint 0 0))
unfolding targets
collect-deliveries_example = collect-deliveries fan (endpoint 0 0) 7 3 (omega arith)
