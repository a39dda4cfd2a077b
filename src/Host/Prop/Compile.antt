-- ===== src/Host/Prop/Compile.antt =====
-- `PropContext::compile_with_limits` of crates/host-core/src/prop.rs, with `unbound_symbol` of
-- crates/expr/src/error.rs and `text` of crates/expr/src/span.rs.
use eieio.Base.{
  ℕ, suc, ◌-◌, ◌%◌, ◌^◌, Bool, true, false, not, ◌&&◌, Option, none, some, List, [], ◌∷◌, ◌++◌, ltb,
  leb, if◌then◌else◌, Result, ok, err, Bytes, length, get_elem?, take, drop,
}
use eieio.Expr.Syntax.{Expr, Error, Message, unbound_symbol, Span, default_parse_limits}
use eieio.Expr.Parser.{parse_with_limits}
use eieio.Expr.Analyze.{analyze}
use eieio.Host.Prop.Types.{PropertyType}
use eieio.Host.Prop.{
  Answer, Body, unset, per_signal, folded, Compiled, PropFailure, PropContext, Evaluate, failure_of,
}

pub record PropertySource : Type 0 where
  pub name : Bytes
  pub ty : PropertyType
  pub source : Option Bytes

pub record PropertyError : Type 0 where
  pub prop_id : ℕ
  pub name : Bytes
  pub error : Error
  pub symbol : Option Bytes

-- A place between two characters of a text: not before a byte that continues one.
abbrev pub continues : Option ℕ → Bool
continues none = false
continues (some byte) = leb 0x80 byte && ltb byte 0xc0

abbrev pub is_boundary : Bytes → ℕ → Bool
is_boundary source at = leb at (length source) && not (continues (get_elem? source at))

-- `Span::text`, which is `source.get(start..end)`
unfoldable pub text_of : Span → Bytes → Option Bytes
text_of at source =
    if leb at.start at.end && (is_boundary source at.start && is_boundary source at.end)
    then some (take (at.end - at.start) (drop at.start source))
    else none

abbrev pub is_unbound_text : Message → Bool
is_unbound_text unbound_symbol = true
is_unbound_text _ = false

-- `Error::unbound_symbol`
unfoldable pub symbol_of : Error → Bytes → Option Bytes
unfolding text_of
symbol_of e source = if is_unbound_text e.message then text_of e.span source else none

-- What the loop of `compile_with_limits` has gathered.
pub record Draft : Type 0 where
  pub compiled : List Compiled
  pub failures : List PropFailure
  pub rejected : List PropertyError

abbrev pub no_draft : Draft
no_draft = record { compiled = []; failures = []; rejected = [] }

-- A body with the failure of its folding, or why the source has none.
abbrev pub BodyResult : Type 0
BodyResult = Result Error (Body × List PropFailure)

abbrev pub symbol_in : Error → Option Bytes → Option Bytes
symbol_in e none = none
symbol_in e (some source) = symbol_of e source

abbrev pub added : PropertySource → ℕ → Draft → BodyResult → Draft
added p prop_id draft (ok (body, failures)) = record draft {
  compiled = draft.compiled ++ record { name = p.name; ty = p.ty; body = body } ∷ [];
  failures = draft.failures ++ failures;
}
added p prop_id draft (err e) = record draft {
  rejected =
      draft.rejected
      ++ record { prop_id = prop_id; name = p.name; error = e; symbol = symbol_in e p.source } ∷ [];
}

abbrev pub count_folded : List Compiled → ℕ
count_folded [] = 0
count_folded (c ∷ props) = elim c.body [
  | folded _ ↦ suc (count_folded props)
  | _ ↦ count_folded props
]

-- The context of a draft, if nothing was rejected from it.
abbrev pub unless_rejected : List PropertyError → Draft → Result (List PropertyError) PropContext
unless_rejected (e ∷ errors) draft = err (e ∷ errors)
unless_rejected [] draft = ok (record {
  props = draft.compiled;
  state = record {
    signals = none;
    is_open = false;
    cache = [];
    failures = draft.failures;
    evaluations = count_folded draft.compiled;
  };
})

abbrev pub finished : Option Draft → Option (Result (List PropertyError) PropContext)
finished none = none
finished (some draft) = some (unless_rejected draft.rejected draft)

module _ (read_f64 : Bytes → Option ℕ) (evaluate : Evaluate) where
  abbrev pub folding : ℕ → Option Answer → Option BodyResult
  folding prop_id none = none
  folding prop_id (some answer) = some (ok (folded answer, failure_of prop_id none answer))

  -- The rest of `compile_one`, once the source is parsed and analysed.
  unfoldable pub compile_expr : Expr → PropertyType → ℕ → List Error → Bool → Option BodyResult
  compile_expr e ty prop_id (error ∷ errors) dependent = some (err error)
  compile_expr e ty prop_id [] true = some (ok (per_signal e, []))
  compile_expr e ty prop_id [] false = folding prop_id (evaluate e ty none)

  unfoldable pub compile_parsed : PropertyType → ℕ → Option (Result Error Expr) → Option BodyResult
  unfolding compile_expr
  compile_parsed ty prop_id none = none
  compile_parsed ty prop_id (some (err e)) = some (err e)
  compile_parsed ty prop_id (some (ok e)) =
      compile_expr e ty prop_id (analyze e).diagnostics (analyze e).signal_dependent

  -- `compile_one`
  unfoldable pub compile_one : Bytes → PropertyType → ℕ → Option BodyResult
  unfolding compile_parsed
  compile_one source ty prop_id =
      compile_parsed ty prop_id (parse_with_limits read_f64 default_parse_limits source)

  unfoldable pub compile_source : PropertyType → ℕ → Option Bytes → Option BodyResult
  unfolding compile_one
  compile_source ty prop_id none = some (ok (unset, []))
  compile_source ty prop_id (some source) = compile_one source ty prop_id

  abbrev pub goes_on :
      (Draft → Option Draft) → PropertySource → ℕ → Draft → Option BodyResult → Option Draft
  goes_on rest p prop_id draft none = none
  goes_on rest p prop_id draft (some body) = rest (added p prop_id draft body)

  -- The loop: the properties that are left, from the given id on.
  unfoldable pub compile_all : ℕ → List PropertySource → Draft → Option Draft
  unfolding compile_source
  compile_all prop_id [] draft = some draft
  compile_all prop_id (p ∷ props) draft =
      goes_on (compile_all (suc prop_id) props) p (prop_id % 2 ^ 32) draft
        (compile_source p.ty (prop_id % 2 ^ 32) p.source)

  -- `compile_with_limits`, its limits those of the evaluation
  unfoldable pub compile : List PropertySource → Option (Result (List PropertyError) PropContext)
  unfolding compile_all
  compile props = finished (compile_all 0 props no_draft)
