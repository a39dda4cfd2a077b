-- ===== src/Host/Router.antt =====
-- crates/host-core/src/router.rs: the connection table. Names are resolved to indices once, the
-- resolved pairs are sorted by their source, and the runs of targets are read by binary search.
mod Tests
pub mod Sort
pub mod Table
pub mod Runs
pub mod Ranges
pub mod Search
pub mod Lookup
pub mod Panics
pub mod Names
pub mod Fanout
use mathlib.Core.Option
use eieio.Base.{
  ℕ, zero, suc, ◌+◌, ◌-◌, ◌/◌, ◌%◌, ◌^◌, Bool, true, false, not, ◌&&◌, ◌||◌, Option, none, some,
  List, [], ◌∷◌, ◌++◌, map, ltb, leb, ◌==◌, if◌then◌else◌, Result, ok, err, ◌>>=◌, ok_or, Bytes,
  text_eq, codes, length, get_elem?, take, drop, any,
}

pub record Endpoint : Type 0 where
  pub instance_index : ℕ
  pub port : ℕ

-- `PORT_ERR`, the error port's index, and its reserved name
abbrev pub port_err : ℕ
port_err = 0xffff_fffe

abbrev pub port_err_name : Bytes
port_err_name = codes "err"

pub data Overflow : Type 0 where
  backpressure drop_oldest : Overflow

-- An instance id and a port name, as a service file writes them.
pub record Port : Type 0 where
  pub instance_id : Bytes
  pub port : Bytes

pub record Connection : Type 0 where
  pub source : Port
  pub to : Port
  pub overflow : Overflow

pub record Target : Type 0 where
  pub to : Endpoint
  pub overflow : Overflow
  pub connection : ℕ

-- One source port's run of targets.
pub record Source : Type 0 where
  pub source : Endpoint
  pub start : ℕ
  pub len : ℕ

pub record Routes : Type 0 where
  pub sources : List Source
  pub targets : List Target

-- host-core/src/descriptor.rs: the fields that routing reads.
pub record Descriptor : Type 0 where
  pub instance_id : Bytes
  pub inputs : List Bytes
  pub outputs : List Bytes

-- `Descriptor::output_name`: what an output port's index is called
unfoldable pub output_name : Descriptor → ℕ → Option Bytes
output_name d port = if port == port_err then some port_err_name else get_elem? d.outputs port

pub data End : Type 0 where
  output input : End

pub data RouteError : Type 0 where
  unknown_instance : Port → RouteError
  unknown_port : Port → End → RouteError
  error_port_inbound : Port → RouteError
  duplicate : Port → Port → RouteError
  duplicate_instance : Bytes → RouteError

abbrev pub endpoint : ℕ → ℕ → Endpoint
endpoint i p = record { instance_index = i; port = p }

-- The loop of `instance`: what is left of the descriptors, the index of the first of them, and
-- what was found before.
unfoldable pub find_instance :
    Port → ℕ → List Descriptor → Option (ℕ × Descriptor) → Result RouteError (ℕ × Descriptor)
find_instance port index [] found = ok_or found (unknown_instance port)
find_instance port index (d ∷ ds) none =
    find_instance port (suc index) ds
      (if text_eq d.instance_id port.instance_id then some (index % 2 ^ 32, d) else none)
find_instance port index (d ∷ ds) (some f) =
    let rest = find_instance port (suc index) ds (some f) in
    if text_eq d.instance_id port.instance_id
    then err (duplicate_instance port.instance_id)
    else rest

unfoldable pub find_descriptor : List Descriptor → Port → Result RouteError (ℕ × Descriptor)
unfolding find_instance
find_descriptor ds port = find_instance port 0 ds none

-- `names.iter().position(|name| *name == port)`
unfoldable pub position : List Bytes → Bytes → Option ℕ
position [] name = none
position (n ∷ ns) name = if text_eq n name then some 0 else Option.map suc (position ns name)

-- The port of that name among those that the descriptor declares on one end.
unfoldable pub declared_port : ℕ → Port → End → List Bytes → Result RouteError Endpoint
unfolding position
declared_port index port end names = do
  i ← ok_or (position names port.port) (unknown_port port end)
  ok (endpoint index (i % 2 ^ 32))

unfoldable pub resolve_output : List Descriptor → Port → Result RouteError Endpoint
unfolding find_descriptor declared_port
resolve_output ds port = do
  (index, d) ← find_descriptor ds port
  let declared = declared_port index port output d.outputs
  if text_eq port.port port_err_name then ok (endpoint index port_err) else declared

unfoldable pub resolve_input : List Descriptor → Port → Result RouteError Endpoint
unfolding find_descriptor declared_port
resolve_input ds port = do
  (index, d) ← find_descriptor ds port
  let declared = declared_port index port input d.inputs
  if text_eq port.port port_err_name then err (error_port_inbound port) else declared

-- The first loop of `resolve`: `index` is the position of the first connection that is left.
unfoldable pub resolve_pairs :
    List Descriptor → ℕ → List Connection → Result RouteError (List (Endpoint × Target))
resolve_pairs ds index [] = ok []
resolve_pairs ds index (c ∷ cs) = do
  from ← resolve_output ds c.source
  to ← resolve_input ds c.to
  rest ← resolve_pairs ds (suc index) cs
  ok ((from, record { to = to; overflow = c.overflow; connection = index % 2 ^ 32 }) ∷ rest)

-- The derived order of `Endpoint`: by instance, then by port.
abbrev pub endpoint_ltb : Endpoint → Endpoint → Bool
endpoint_ltb e f =
    ltb e.instance_index f.instance_index
    || (e.instance_index == f.instance_index && ltb e.port f.port)

abbrev pub endpoint_eq : Endpoint → Endpoint → Bool
endpoint_eq e f = e.instance_index == f.instance_index && e.port == f.port

-- `pairs.sort_by_key(|(from, _)| *from)`: a stable sort by the source alone.
unfoldable pub insert_pair : Endpoint × Target → List (Endpoint × Target) → List (Endpoint × Target)
insert_pair p [] = p ∷ []
insert_pair p (q ∷ qs) = if endpoint_ltb q.0 p.0 then q ∷ insert_pair p qs else p ∷ q ∷ qs

unfoldable pub sort_pairs : List (Endpoint × Target) → List (Endpoint × Target)
unfolding insert_pair
sort_pairs [] = []
sort_pairs (p ∷ ps) = insert_pair p (sort_pairs ps)

-- The last source grows if it is this one, and a new source starts otherwise.
unfoldable pub extend_sources : List Source → Endpoint → ℕ → List Source
extend_sources [] from start = record { source = from; start = start; len = 1 } ∷ []
extend_sources (s ∷ []) from start =
    if endpoint_eq s.source from
    then record s { len = (s.len + 1) % 2 ^ 32 } ∷ []
    else s ∷ record { source = from; start = start; len = 1 } ∷ []
extend_sources (s ∷ t ∷ rest) from start = s ∷ extend_sources (t ∷ rest) from start

-- The second loop of `resolve`.
unfoldable pub build_table : Routes → List (Endpoint × Target) → Routes
unfolding extend_sources
build_table r [] = r
build_table r ((from, target) ∷ pairs) =
    build_table
      (record {
        sources = extend_sources r.sources from (length r.targets % 2 ^ 32);
        targets = r.targets ++ target ∷ [];
      })
      pairs

-- `run`, a slice of the targets; `none` is the panic of a range that reaches beyond them.
unfoldable pub run : Routes → Source → Option (List Target)
run r s =
    if ltb (length r.targets) (s.start + s.len)
    then none
    else some (take s.len (drop s.start r.targets))

-- The first target of a run whose destination an earlier one has.
unfoldable pub repeated : List Target → List Target → Option Target
repeated earlier [] = none
repeated earlier (t ∷ ts) =
    let rest = repeated (earlier ++ t ∷ []) ts in
    if any (λ e. endpoint_eq e.to t.to) earlier then some t else rest

-- The outer `none` is a panic.
unfoldable pub find_duplicate : Routes → List Source → Option (Option Target)
unfolding repeated run
find_duplicate r [] = some none
find_duplicate r (s ∷ ss) = elim (run r s) [
  | none ↦ none
  | some ts ↦ elim (repeated [] ts) [ none ↦ find_duplicate r ss | some t ↦ some (some t) ]
]

-- `connections[target.connection as usize]`; `none` is the panic of an index out of range.
unfoldable pub duplicate_error : List Connection → Target → Option (Result RouteError Routes)
duplicate_error connections t =
    Option.map (λ c. err (duplicate c.source c.to)) (get_elem? connections t.connection)

abbrev pub checked :
    List Connection → Routes → Option (Option Target) → Option (Result RouteError Routes)
checked connections r none = none
checked connections r (some none) = some (ok r)
checked connections r (some (some t)) = duplicate_error connections t

unfoldable pub check_duplicates : List Connection → Routes → Option (Result RouteError Routes)
unfolding find_duplicate duplicate_error
check_duplicates connections r = checked connections r (find_duplicate r r.sources)

abbrev pub table : List (Endpoint × Target) → Routes
table pairs = build_table (record { sources = []; targets = [] }) (sort_pairs pairs)

-- `none` is a panic.
unfoldable pub resolve : List Descriptor → List Connection → Option (Result RouteError Routes)
unfolding resolve_pairs check_duplicates build_table sort_pairs
resolve ds connections = elim (resolve_pairs ds 0 connections) [
  | err e ↦ some (err e)
  | ok pairs ↦ check_duplicates connections (table pairs)
]

-- `sources.binary_search_by_key(&from, ..)` between `lo` and `hi`; `fuel` bounds the halvings.
unfoldable pub binary_search : List Source → Endpoint → ℕ → ℕ → ℕ → Option Source
binary_search sources from zero lo hi = none
binary_search sources from (suc fuel) lo hi =
    let mid = (lo + hi) / 2 in
    let below = binary_search sources from fuel lo mid in
    let above = binary_search sources from fuel (suc mid) hi in
    if leb hi lo then none else elim (get_elem? sources mid) [
      | none ↦ none
      | some s ↦
          if endpoint_eq s.source from
          then some s
          else if endpoint_ltb s.source from
          then above
          else below
    ]

-- `none` is a panic of `run`, here and below.
unfoldable pub targets : Routes → Endpoint → Option (List Target)
unfolding binary_search run
targets r from = elim (binary_search r.sources from (suc (length r.sources)) 0 (length r.sources)) [
  | some s ↦ run r s
  | none ↦ some []
]

-- Everything `instance` emits into, across its output ports.
abbrev pub joined : Option (List Target) → Option (List Target) → Option (List Target)
joined none rest = none
joined (some ts) none = none
joined (some ts) (some rest) = some (ts ++ rest)

unfoldable pub outgoing_from : Routes → ℕ → List Source → Option (List Target)
unfolding run
outgoing_from r instance_index [] = some []
outgoing_from r instance_index (s ∷ ss) =
    let rest = outgoing_from r instance_index ss in
    if s.source.instance_index == instance_index then joined (run r s) rest else rest

unfoldable pub outgoing : Routes → ℕ → Option (List Target)
unfolding outgoing_from
outgoing r instance_index = outgoing_from r instance_index r.sources

-- The iterator of `deliveries`: the targets that are left, and the batch until it is handed over.
pub record Deliveries (B : Type 0) : Type 0 where
  pub targets : List Target
  pub batch : Option B

module _ {B : Type 0} where
  abbrev pub over : B → List Target → Deliveries B
  over batch ts = record { targets = ts; batch = some batch }

  unfoldable pub deliveries : Routes → Endpoint → B → Option (Deliveries B)
  unfolding targets
  deliveries r from batch = Option.map (over batch) (targets r from)

  -- One call of `next`: the item, if there is one, and the iterator after it. The batch is
  -- taken for the last receiver and cloned for the others.
  abbrev handed : List Target → Option B → Option B
  handed [] batch = none
  handed (_ ∷ _) batch = batch

  abbrev advance : List Target → Option B → Option ((Target × B) × Deliveries B)
  advance [] batch = none
  advance (t ∷ rest) none = none
  advance (t ∷ rest) (some b) =
      some ((t, b), record { targets = rest; batch = handed rest (some b) })

  unfoldable pub next : Deliveries B → Option ((Target × B) × Deliveries B)
  next d = advance d.targets d.batch

  -- What the iterator yields in all, in at most `fuel` items.
  unfoldable pub collect : ℕ → Deliveries B → List (Target × B)
  unfolding next
  collect zero d = []
  collect (suc fuel) d = elim (next d) [ none ↦ [] | some (item, d') ↦ item ∷ collect fuel d' ]
