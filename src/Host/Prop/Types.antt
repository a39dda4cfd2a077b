-- ===== src/Host/Prop/Types.antt =====
-- `PropertyType` of crates/manifest/src/schema.rs, and the evaluation of crates/host-core/src/prop.rs.
use eieio.Base.{
  ℕ, zero, suc, ◌+◌, ◌-◌, ◌/◌, ◌%◌, ℤ, pos_part, neg_part, Bool, true, Option, none, some, leb,
  ◌==◌, if◌then◌else◌, Result, ok, err, Bytes,
}
use eieio.Signal.Value.{Value, Entries}
use eieio.Signal.Value as V
use eieio.Expr.Syntax.{Expr, Error, EvalLimits, error, result_type, span_of, wrong_result_type}
use eieio.Expr.Num.{Floats}
use eieio.Expr.Eval.{Implementation, eval_with_limits}

pub data PropertyType : Type 0 where
  bool int float string bytes any : PropertyType

-- 64 less the leading zeros, and the trailing zeros, of a `u64` that is not 0.
unfoldable pub bit_length : ℕ → ℕ → ℕ
bit_length zero n = 0
bit_length (suc rounds) n =
    let shorter = suc (bit_length rounds (n / 2)) in if n == 0 then 0 else shorter

unfoldable pub trailing_zeros : ℕ → ℕ → ℕ
trailing_zeros zero n = 0
trailing_zeros (suc rounds) n =
    let shorter = suc (trailing_zeros rounds (n / 2)) in if n % 2 == 0 then shorter else 0

unfoldable pub is_exactly_a_float : ℤ → Bool
unfolding bit_length trailing_zeros
is_exactly_a_float n =
    let magnitude = pos_part n + neg_part n in
    if magnitude == 0 then true else leb (bit_length 64 magnitude - trailing_zeros 64 magnitude) 53

-- `accepts` and `conform_ref`, type by type: the value as the type has it.
abbrev pub as_bool : Value → Option Value
as_bool (V.bool b) = some (V.bool b)
as_bool _ = none

abbrev pub as_int : Value → Option Value
as_int (V.int n) = some (V.int n)
as_int _ = none

abbrev pub as_float : (ℤ → ℕ) → Value → Option Value
as_float of_int (V.float f) = some (V.float f)
as_float of_int (V.int n) = if is_exactly_a_float n then some (V.float (of_int n)) else none
as_float of_int _ = none

abbrev pub as_string : Value → Option Value
as_string (V.str s) = some (V.str s)
as_string _ = none

abbrev pub as_bytes : Value → Option Value
as_bytes (V.bytes b) = some (V.bytes b)
as_bytes _ = none

unfoldable pub conform : Floats → PropertyType → Value → Option Value
conform F any v = some v
conform F bool v = as_bool v
conform F int v = as_int v
conform F float v = as_float F.of_int v
conform F string v = as_string v
conform F bytes v = as_bytes v

-- What an evaluation came to, as the bytes of a value of the declared type.
module _ (F : Floats) (implementation : Implementation) (to_cbor : Value → Bytes) where
  abbrev pub encoded : Expr → Option Value → Result Error Bytes
  encoded e (some v) = ok (to_cbor v)
  encoded e none = err (error result_type (span_of e) wrong_result_type)

  abbrev pub conformed :
      Expr → PropertyType → Option (Result Error Value) → Option (Result Error Bytes)
  conformed e ty none = none
  conformed e ty (some (err failure)) = some (err failure)
  conformed e ty (some (ok v)) = some (encoded e (conform F ty v))

  -- `evaluate` of prop.rs
  unfoldable pub evaluate :
      EvalLimits → Expr → PropertyType → Option Entries → Option (Result Error Bytes)
  evaluate limits e ty signal = conformed e ty (eval_with_limits implementation limits signal e)
