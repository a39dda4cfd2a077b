-- ===== src/Expr/Builtin/Access.antt =====
-- How a builtin reads its arguments, and how a constructed value is accepted
-- (`Call` of crates/expr/src/builtin/mod.rs, `accept` of crates/expr/src/eval.rs).
use eieio.Base.{
  ℕ, none, some, List, get_elem?, Bytes, ℤ, pos, negsuc, ltb, if◌then◌else◌, Result, ok, err, min,
}
use eieio.Signal.Value.{
  Value, Entries, null, bool, int, float, str, bytes, array, map, elements, encoded_len,
  nests_deeper_than,
}
use eieio.Expr.Syntax.{
  Error, ErrorCode, Message, Span, EvalLimits, error, type_error, domain_error, depth, size,
  function_as_value, needs_number, needs_integer, not_negative, needs_string, needs_array,
  needs_map, needs_function, value_too_deep, value_too_large,
}
use eieio.Expr.Builtin.{Call, arg_span}
use eieio.Expr.Program.{Operand, Function, Program, data_of, function, spend, u32_max}
use eieio.Expr.Num.{Num, num_of}

abbrev pub call_error : Call → ErrorCode → Message → Error
call_error call code m = error code call.span m

abbrev pub arg_error : Call → ℕ → ErrorCode → Message → Error
arg_error call index code m = error code (arg_span call index) m

-- `args[index]`: the arity was checked, so the index is within the arguments.
abbrev pub nth_operand : List Operand → ℕ → Operand
nth_operand args index = elim (get_elem? args index) [ none ↦ data_of null | some a ↦ a ]

abbrev pub value_or : Error → Operand → Result Error Value
value_or e (data_of v) = ok v
value_or e (function f) = err e

abbrev pub value_at : Call → List Operand → ℕ → Result Error Value
value_at call args index =
    value_or (arg_error call index type_error function_as_value) (nth_operand args index)

abbrev pub number_of : Error → Value → Result Error Num
number_of e v = elim (num_of v) [ none ↦ err e | some n ↦ ok n ]

abbrev pub num_at : Call → List Operand → ℕ → Result Error Num
num_at call args index = elim (value_at call args index) [
  | err e ↦ err e
  | ok v ↦ number_of (arg_error call index type_error needs_number) v
]

abbrev pub int_of : Error → Value → Result Error ℤ
int_of e (int n) = ok n
int_of e null = err e
int_of e (bool b) = err e
int_of e (float f) = err e
int_of e (str s) = err e
int_of e (bytes b) = err e
int_of e (array items) = err e
int_of e (map entries) = err e

abbrev pub int_at : Call → List Operand → ℕ → Result Error ℤ
int_at call args index = elim (value_at call args index) [
  | err e ↦ err e
  | ok v ↦ int_of (arg_error call index type_error needs_integer) v
]

abbrev pub count_of : Error → ℤ → Result Error ℕ
count_of e (pos n) = ok n
count_of e (negsuc n) = err e

abbrev pub count_at : Call → List Operand → ℕ → Result Error ℕ
count_at call args index = elim (int_at call args index) [
  | err e ↦ err e
  | ok n ↦ count_of (arg_error call index domain_error not_negative) n
]

abbrev pub text_of : Error → Value → Result Error Bytes
text_of e (str s) = ok s
text_of e null = err e
text_of e (bool b) = err e
text_of e (int n) = err e
text_of e (float f) = err e
text_of e (bytes b) = err e
text_of e (array items) = err e
text_of e (map entries) = err e

abbrev pub text_at : Call → List Operand → ℕ → Result Error Bytes
text_at call args index = elim (value_at call args index) [
  | err e ↦ err e
  | ok v ↦ text_of (arg_error call index type_error needs_string) v
]

abbrev pub array_of : Error → Value → Result Error (List Value)
array_of e (array items) = ok (elements items)
array_of e null = err e
array_of e (bool b) = err e
array_of e (int n) = err e
array_of e (float f) = err e
array_of e (str s) = err e
array_of e (bytes b) = err e
array_of e (map entries) = err e

abbrev pub array_at : Call → List Operand → ℕ → Result Error (List Value)
array_at call args index = elim (value_at call args index) [
  | err e ↦ err e
  | ok v ↦ array_of (arg_error call index type_error needs_array) v
]

abbrev pub dict_of : Error → Value → Result Error Entries
dict_of e (map entries) = ok entries
dict_of e null = err e
dict_of e (bool b) = err e
dict_of e (int n) = err e
dict_of e (float f) = err e
dict_of e (str s) = err e
dict_of e (bytes b) = err e
dict_of e (array items) = err e

abbrev pub dict_at : Call → List Operand → ℕ → Result Error Entries
dict_at call args index = elim (value_at call args index) [
  | err e ↦ err e
  | ok v ↦ dict_of (arg_error call index type_error needs_map) v
]

abbrev pub func_of : Error → Operand → Result Error Function
func_of e (function f) = ok f
func_of e (data_of v) = err e

abbrev pub func_at : Call → List Operand → ℕ → Result Error Function
func_at call args index =
    func_of (arg_error call index type_error needs_function) (nth_operand args index)

-- A constructed value within the depth and the size that the budgets allow.
unfoldable pub accept : EvalLimits → Span → Value → Result Error Operand
accept l at v =
    if nests_deeper_than v l.max_depth
    then err (error depth at value_too_deep)
    else if ltb l.max_value_bytes (encoded_len v)
    then err (error size at value_too_large)
    else ok (data_of v)

-- `spend_each`: one step for each element, as many as a `u32` counts.
abbrev pub spend_each : Span → ℕ → Program → Program
spend_each at elements p = spend at (min elements u32_max) p
