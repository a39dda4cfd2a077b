-- ===== src/Expr/Builtin.antt =====
-- The table of builtins: their names and arities, the special forms, and what a builtin is called
-- with (crates/expr/src/builtin/mod.rs).
pub mod Access
pub mod Arith
pub mod Compare
pub mod Collect
pub mod Table
pub mod Reads
pub mod KeepsArith
pub mod KeepsCollect
pub mod KeepsLoops
pub mod KeepsTable
use eieio.Base.{
  ℕ, ◌%◌, Bool, true, false, Option, none, some, List, [], ◌∷◌, Bytes, codes, text_eq, ltb, ◌==◌,
  if◌then◌else◌, Result, ok, err, get_elem?,
}
use eieio.Expr.Syntax.{
  Span, Error, ErrorCode, Expr, Message, error, span_of, too_few, too_many, odd_pairs,
}

-- One constructor for each entry of the table.
pub data Builtin : Type 0 where
  ne : Builtin
  mul : Builtin
  add : Builtin
  sub : Builtin
  div : Builtin
  lt : Builtin
  le : Builtin
  eq : Builtin
  gt : Builtin
  ge : Builtin
  abs : Builtin
  all_of : Builtin
  any_of : Builtin
  arr : Builtin
  is_array : Builtin
  assoc : Builtin
  is_bool : Builtin
  is_bytes : Builtin
  ceil : Builtin
  concat : Builtin
  contains : Builtin
  dict : Builtin
  int_div : Builtin
  ends_with : Builtin
  filter : Builtin
  first : Builtin
  to_float : Builtin
  is_float : Builtin
  floor : Builtin
  get : Builtin
  get_in : Builtin
  get_or : Builtin
  has : Builtin
  index_of : Builtin
  to_int : Builtin
  is_int : Builtin
  join : Builtin
  keys : Builtin
  last : Builtin
  len_of : Builtin
  lower : Builtin
  map_over : Builtin
  is_map : Builtin
  greatest : Builtin
  least : Builtin
  int_mod : Builtin
  negate : Builtin
  is_null : Builtin
  is_number : Builtin
  range : Builtin
  reduce : Builtin
  round : Builtin
  slice : Builtin
  sort : Builtin
  split : Builtin
  starts_with : Builtin
  str_concat : Builtin
  to_string : Builtin
  is_string : Builtin
  substr : Builtin
  trim : Builtin
  upper : Builtin
  vals : Builtin

pub record Arity : Type 0 where
  pub min : ℕ
  pub max : Option ℕ
  pub pairs : Bool

abbrev pub exact : ℕ → Arity
exact n = record { min = n; max = some n; pairs = false }

abbrev pub at_least_args : ℕ → Arity
at_least_args n = record { min = n; max = none; pairs = false }

abbrev pub between : ℕ → ℕ → Arity
between min max = record { min = min; max = some max; pairs = false }

abbrev pub in_pairs : Arity
in_pairs = record { min = 0; max = none; pairs = true }

-- `is_some_and(|max| count > max)`
abbrev pub beyond : Option ℕ → ℕ → Bool
beyond none count = false
beyond (some max) count = ltb max count

-- `none` is `Ok(())`.
unfoldable pub check_arity_of : Arity → ℕ → Option Message
check_arity_of a count =
    if ltb count a.min
    then some too_few
    else if beyond a.max count
    then some too_many
    else if a.pairs
    then (if count % 2 == 0 then none else some odd_pairs)
    else none

pub record Entry : Type 0 where
  pub name : Bytes
  pub arity : Arity
  pub implementation : Builtin

abbrev pub row : Bytes → Arity → Builtin → Entry
row name arity implementation = record {
  name = name;
  arity = arity;
  implementation = implementation;
}

-- In ascending order of the names' bytes.
unfoldable pub builtins : List Entry
builtins =
    row (codes "!=") (exact 2) ne
    ∷ row (codes "*") (at_least_args 0) mul
    ∷ row (codes "+") (at_least_args 0) add
    ∷ row (codes "-") (at_least_args 1) sub
    ∷ row (codes "/") (exact 2) div
    ∷ row (codes "<") (exact 2) lt
    ∷ row (codes "<=") (exact 2) le
    ∷ row (codes "=") (exact 2) eq
    ∷ row (codes ">") (exact 2) gt
    ∷ row (codes ">=") (exact 2) ge
    ∷ row (codes "abs") (exact 1) abs
    ∷ row (codes "all?") (exact 2) all_of
    ∷ row (codes "any?") (exact 2) any_of
    ∷ row (codes "arr") (at_least_args 0) arr
    ∷ row (codes "array?") (exact 1) is_array
    ∷ row (codes "assoc") (exact 3) assoc
    ∷ row (codes "bool?") (exact 1) is_bool
    ∷ row (codes "bytes?") (exact 1) is_bytes
    ∷ row (codes "ceil") (exact 1) ceil
    ∷ row (codes "concat") (at_least_args 0) concat
    ∷ row (codes "contains?") (exact 2) contains
    ∷ row (codes "dict") in_pairs dict
    ∷ row (codes "div") (exact 2) int_div
    ∷ row (codes "ends-with?") (exact 2) ends_with
    ∷ row (codes "filter") (exact 2) filter
    ∷ row (codes "first") (exact 1) first
    ∷ row (codes "float") (exact 1) to_float
    ∷ row (codes "float?") (exact 1) is_float
    ∷ row (codes "floor") (exact 1) floor
    ∷ row (codes "get") (exact 2) get
    ∷ row (codes "get-in") (exact 2) get_in
    ∷ row (codes "get-or") (exact 3) get_or
    ∷ row (codes "has?") (exact 2) has
    ∷ row (codes "index-of") (exact 2) index_of
    ∷ row (codes "int") (exact 1) to_int
    ∷ row (codes "int?") (exact 1) is_int
    ∷ row (codes "join") (exact 2) join
    ∷ row (codes "keys") (exact 1) keys
    ∷ row (codes "last") (exact 1) last
    ∷ row (codes "len") (exact 1) len_of
    ∷ row (codes "lower") (exact 1) lower
    ∷ row (codes "map") (exact 2) map_over
    ∷ row (codes "map?") (exact 1) is_map
    ∷ row (codes "max") (at_least_args 1) greatest
    ∷ row (codes "min") (at_least_args 1) least
    ∷ row (codes "mod") (exact 2) int_mod
    ∷ row (codes "not") (exact 1) negate
    ∷ row (codes "null?") (exact 1) is_null
    ∷ row (codes "number?") (exact 1) is_number
    ∷ row (codes "range") (between 1 2) range
    ∷ row (codes "reduce") (exact 3) reduce
    ∷ row (codes "round") (exact 1) round
    ∷ row (codes "slice") (exact 3) slice
    ∷ row (codes "sort") (exact 1) sort
    ∷ row (codes "split") (exact 2) split
    ∷ row (codes "starts-with?") (exact 2) starts_with
    ∷ row (codes "str") (at_least_args 0) str_concat
    ∷ row (codes "string") (exact 1) to_string
    ∷ row (codes "string?") (exact 1) is_string
    ∷ row (codes "substr") (exact 3) substr
    ∷ row (codes "trim") (exact 1) trim
    ∷ row (codes "upper") (exact 1) upper
    ∷ row (codes "vals") (exact 1) vals
    ∷ []

abbrev pub find_entry : Bytes → List Entry → Option Entry
find_entry name [] = none
find_entry name (e ∷ es) = if text_eq e.name name then some e else find_entry name es

-- The table's names differ, so the binary search finds the one entry of the name or none.
unfoldable pub lookup : Bytes → Option Entry
lookup name = find_entry name builtins

pub data SpecialForm : Type 0 where
  and_form : SpecialForm
  fn_form : SpecialForm
  if_form : SpecialForm
  let_form : SpecialForm
  or_form : SpecialForm

unfoldable pub special_form : Bytes → Option SpecialForm
special_form name =
    if text_eq name (codes "if")
    then some if_form
    else if text_eq name (codes "let")
    then some let_form
    else if text_eq name (codes "fn")
    then some fn_form
    else if text_eq name (codes "and")
    then some and_form
    else if text_eq name (codes "or")
    then some or_form
    else none

abbrev pub is_some {ℓ} : {A : Type ℓ} → Option A → Bool
is_some none = false
is_some (some a) = true

abbrev pub is_builtin : Bytes → Bool
is_builtin name = is_some (lookup name)

abbrev pub is_special_form : Bytes → Bool
is_special_form name = is_some (special_form name)

-- The call site: its span, and the written arguments when there are any.
pub record Call : Type 0 where
  pub span : Span
  pub args : Option (List Expr)

abbrev pub nth_span : Span → Option (List Expr) → ℕ → Span
nth_span at none index = at
nth_span at (some args) index = elim (get_elem? args index) [ none ↦ at | some e ↦ span_of e ]

abbrev pub arg_span : Call → ℕ → Span
arg_span call index = nth_span call.span call.args index
