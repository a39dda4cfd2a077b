-- ===== src/Expr/Num.antt =====
-- Exact numbers: checked integer arithmetic, floor division and the order across integers and
-- floats (crates/expr/src/num.rs).
pub mod Floor
use eieio.Base.{
  ℕ, suc, ◌+◌, ◌-◌, ◌*◌, ◌/◌, ◌%◌, ◌^◌, Bool, true, false, not, ◌&&◌, ◌||◌, Option, none, some, ℤ,
  pos, negsuc, sub_ℕ, ◌+ℤ◌, ◌-ℤ◌, ◌*ℤ◌, ltb_ℤ, fits_i64, ltb, ◌==◌, if◌then◌else◌, Result, ok, err,
}
use eieio.Signal.Value.{Value, int, float, null, bool, str, bytes, array, map}
use eieio.Expr.Syntax.{Message, overflow, non_finite, divide_by_zero}

-- The roundings of IEEE 754 on bit patterns, as the processor computes them: `n as f64`, the
-- four operations, and the truncation `f as i64`, which saturates.
pub record Floats : Type 0 where
  pub of_int : ℤ → ℕ
  pub plus : ℕ → ℕ → ℕ
  pub minus : ℕ → ℕ → ℕ
  pub times : ℕ → ℕ → ℕ
  pub over : ℕ → ℕ → ℕ
  pub truncate : ℕ → ℤ

abbrev pub sign_bit : ℕ
sign_bit = 2 ^ 63

-- The pattern of the infinity: the exponent's bits, all set.
abbrev pub infinity : ℕ
infinity = 2047 * 2 ^ 52

abbrev pub magnitude : ℕ → ℕ
magnitude f = f % sign_bit

abbrev pub is_finite : ℕ → Bool
is_finite f = ltb (magnitude f) infinity

abbrev pub is_nan : ℕ → Bool
is_nan f = ltb infinity (magnitude f)

abbrev pub negated : ℕ → ℕ
negated f = if ltb f sign_bit then f + sign_bit else f - sign_bit

-- A number that orders the patterns as the floats are ordered; both zeros have 0.
abbrev pub float_key : ℕ → ℤ
float_key f = if ltb f sign_bit then pos f else sub_ℕ 0 (f - sign_bit)

pub data Order : Type 0 where
  less : Order
  equal : Order
  greater : Order

abbrev pub reverse : Order → Order
reverse less = greater
reverse equal = equal
reverse greater = less

abbrev pub compare_ints : ℤ → ℤ → Order
compare_ints a b = if ltb_ℤ a b then less else if ltb_ℤ b a then greater else equal

-- `partial_cmp`, with what the source makes of its `None`.
abbrev pub compare_floats : ℕ → ℕ → Order
compare_floats f g =
    if is_nan f || is_nan g then equal else compare_ints (float_key f) (float_key g)

-- `f < g`, which is false of a NaN.
abbrev pub float_less : ℕ → ℕ → Bool
float_less f g = not (is_nan f || is_nan g) && ltb_ℤ (float_key f) (float_key g)

abbrev pub i64_range_end : ℕ
i64_range_end = 1086 * 2 ^ 52

abbrev pub i64_min_as_f64 : ℕ
i64_min_as_f64 = sign_bit + 1086 * 2 ^ 52

-- The pattern of 0.5.
abbrev pub half : ℕ
half = 1022 * 2 ^ 52

abbrev pub is_zero_diff : ℤ → ℤ → Bool
is_zero_diff a b = not (ltb_ℤ a b) && not (ltb_ℤ b a)

pub data Num : Type 0 where
  whole : ℤ → Num
  real : ℕ → Num

abbrev pub num_of : Value → Option Num
num_of (int n) = some (whole n)
num_of (float f) = some (real f)
num_of null = none
num_of (bool b) = none
num_of (str s) = none
num_of (bytes b) = none
num_of (array items) = none
num_of (map entries) = none

abbrev pub into_value : Num → Value
into_value (whole n) = int n
into_value (real f) = float f

abbrev pub checked_int : ℤ → Result Message ℤ
checked_int n = if fits_i64 n then ok n else err overflow

abbrev pub whole_of : Result Message ℤ → Result Message Num
whole_of (ok n) = ok (whole n)
whole_of (err m) = err m

abbrev pub finite : ℕ → Result Message Num
finite f = if is_finite f then ok (real f) else err non_finite

module _ (F : Floats) where
  abbrev pub as_f64 : Num → ℕ
  as_f64 (whole n) = F.of_int n
  as_f64 (real f) = f

  abbrev pub add : Num → Num → Result Message Num
  add (whole a) (whole b) = whole_of (checked_int (a +ℤ b))
  add (whole a) (real g) = finite (F.plus (F.of_int a) g)
  add (real f) (whole b) = finite (F.plus f (F.of_int b))
  add (real f) (real g) = finite (F.plus f g)

  abbrev pub sub : Num → Num → Result Message Num
  sub (whole a) (whole b) = whole_of (checked_int (a -ℤ b))
  sub (whole a) (real g) = finite (F.minus (F.of_int a) g)
  sub (real f) (whole b) = finite (F.minus f (F.of_int b))
  sub (real f) (real g) = finite (F.minus f g)

  abbrev pub mul : Num → Num → Result Message Num
  mul (whole a) (whole b) = whole_of (checked_int (a *ℤ b))
  mul (whole a) (real g) = finite (F.times (F.of_int a) g)
  mul (real f) (whole b) = finite (F.times f (F.of_int b))
  mul (real f) (real g) = finite (F.times f g)

  -- `b == 0.0` holds of both zeros.
  abbrev pub div : Num → Num → Result Message Num
  div a b =
      if magnitude (as_f64 b) == 0
      then err divide_by_zero
      else finite (F.over (as_f64 a) (as_f64 b))

  abbrev pub compare_int_float : ℤ → ℕ → Order
  compare_int_float i f =
      if not (float_less f i64_range_end) && not (is_nan f)
      then less
      else if float_less f i64_min_as_f64
      then greater
      else elim (compare_ints i (F.truncate f)) [
        | less ↦ less
        | greater ↦ greater
        | equal ↦ reverse (compare_floats f (F.of_int (F.truncate f)))
      ]

  abbrev pub compare_nums : Num → Num → Order
  compare_nums (whole a) (whole b) = compare_ints a b
  compare_nums (real f) (real g) = compare_floats f g
  compare_nums (whole a) (real g) = compare_int_float a g
  compare_nums (real f) (whole b) = reverse (compare_int_float b f)

  -- The truncation where it fits an `i64`.
  abbrev pub trunc_to_i64 : ℕ → Option ℤ
  trunc_to_i64 f =
      if not (is_nan f) && not (float_less f i64_min_as_f64) && float_less f i64_range_end
      then some (F.truncate f)
      else none

  abbrev pub step_by : ℤ → Option ℤ
  step_by n = if fits_i64 n then some n else none

  -- Whether the truncation lost a fraction: `truncated as f64 != f`.
  abbrev pub is_fractional : ℕ → Bool
  is_fractional f = not (is_zero_diff (float_key (F.of_int (F.truncate f))) (float_key f))

  abbrev pub floor_to_i64 : ℕ → Option ℤ
  floor_to_i64 f = elim (trunc_to_i64 f) [
    | none ↦ none
    | some n ↦ if float_less f 0 && is_fractional f then step_by (n -ℤ pos 1) else some n
  ]

  abbrev pub ceil_to_i64 : ℕ → Option ℤ
  ceil_to_i64 f = elim (trunc_to_i64 f) [
    | none ↦ none
    | some n ↦ if float_less 0 f && is_fractional f then step_by (n +ℤ pos 1) else some n
  ]

  -- Halves go away from zero.
  abbrev pub round_to_i64 : ℕ → Option ℤ
  round_to_i64 f = elim (trunc_to_i64 f) [
    | none ↦ none
    | some n ↦
        let fraction = F.minus f (F.of_int n) in
        if not (is_nan fraction) && not (float_less fraction half)
        then step_by (n +ℤ pos 1)
        else if not (is_nan fraction) && not (float_less (negated half) fraction)
        then step_by (n -ℤ pos 1)
        else some n
  ]

abbrev pub neg : Num → Result Message Num
neg (whole n) = whole_of (checked_int (pos 0 -ℤ n))
neg (real f) = ok (real (negated f))

abbrev pub abs : Num → Result Message Num
abs (whole n) = whole_of (checked_int (if ltb_ℤ n (pos 0) then pos 0 -ℤ n else n))
abs (real f) = ok (real (if float_less f 0 then negated f else f))

-- `a / b` and `a % b` of Rust, which truncate, on a divisor other than zero.
unfoldable pub quotient : ℤ → ℤ → ℤ
quotient (pos a) (pos b) = pos (a / b)
quotient (pos a) (negsuc b) = sub_ℕ 0 (a / suc b)
quotient (negsuc a) (pos b) = sub_ℕ 0 (suc a / b)
quotient (negsuc a) (negsuc b) = pos (suc a / suc b)

unfoldable pub remainder : ℤ → ℤ → ℤ
remainder (pos a) (pos b) = pos (a % b)
remainder (pos a) (negsuc b) = pos (a % suc b)
remainder (negsuc a) (pos b) = sub_ℕ 0 (suc a % b)
remainder (negsuc a) (negsuc b) = sub_ℕ 0 (suc a % suc b)

abbrev pub is_zero : ℤ → Bool
is_zero (pos n) = n == 0
is_zero (negsuc n) = false

abbrev pub is_negative : ℤ → Bool
is_negative (pos n) = false
is_negative (negsuc n) = true

abbrev pub differ : Bool → Bool → Bool
differ a b = if a then not b else b

-- `checked_div` and `checked_rem` both refuse `i64::MIN` by -1, whose quotient does not fit.
unfoldable pub floor_div : ℤ → ℤ → Result Message ℤ
floor_div a b =
    if is_zero b
    then err divide_by_zero
    else if not (fits_i64 (quotient a b))
    then err overflow
    else if not (is_zero (remainder a b)) && differ (is_negative (remainder a b)) (is_negative b)
    then checked_int (quotient a b -ℤ pos 1)
    else ok (quotient a b)

abbrev pub is_minus_one : ℤ → Bool
is_minus_one (pos n) = false
is_minus_one (negsuc n) = n == 0

unfoldable pub floor_mod : ℤ → ℤ → Result Message ℤ
floor_mod a b =
    if is_zero b
    then err divide_by_zero
    else if is_minus_one b
    then ok (pos 0)
    else if not (fits_i64 (quotient a b))
    then err overflow
    else if not (is_zero (remainder a b)) && differ (is_negative (remainder a b)) (is_negative b)
    then checked_int (remainder a b +ℤ b)
    else ok (remainder a b)
