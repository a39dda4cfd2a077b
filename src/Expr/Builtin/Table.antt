-- ===== src/Expr/Builtin/Table.antt =====
-- What each row of the table does (`BUILTINS` of crates/expr/src/builtin/mod.rs, the type
-- predicates of crates/expr/src/builtin/convert.rs).
use eieio.Base.{◌/◌, Bool, true, false, not, List, [], pos, length}
use eieio.Signal.Value.{Value, null, bool, bytes, float, int, array, map, end}
use eieio.Expr.Builtin.{
  ne, mul, add, sub, div, lt, le, eq, gt, ge, abs, all_of, any_of, arr, is_array, assoc, is_bool,
  is_bytes, ceil, concat, contains, dict, int_div, ends_with, filter, first, to_float, is_float,
  floor, get, get_in, get_or, has, index_of, to_int, is_int, join, keys, last, len_of, lower,
  map_over, is_map, greatest, least, int_mod, negate, is_null, is_number, range, reduce, round,
  slice, sort, split, starts_with, str_concat, to_string, is_string, substr, trim, upper, vals,
}
use eieio.Expr.Program.{Operand, Program, data_of, function, ret}
use eieio.Expr.Eval.{Implementation}
use eieio.Expr.Num
use eieio.Expr.Num.{Floats, whole, less, greater, floor_to_i64, ceil_to_i64, round_to_i64}
use eieio.Expr.Builtin.Access.{nth_operand}
use eieio.Expr.Builtin.Arith.{
  fold, sub_builtin, div_builtin, abs_builtin, to_integer, extreme, int_div_builtin,
  int_mod_builtin, is_order,
}
use eieio.Expr.Builtin.Compare.{equal_builtin, order_builtin, not_builtin}
use eieio.Expr.Builtin.Collect.{
  over_array, quantify_on, arr_on, assoc_builtin, concat_on, dict_on, filter_on, end_builtin,
  first_of, last_of, get_builtin, get_in_builtin, get_or_builtin, has_builtin, entries_builtin,
  keys_of, vals_of, map_on, range_builtin, reduce_on, slice_builtin, sort_builtin, is_num, is_text,
}

abbrev pub is_null_value : Value → Bool
is_null_value v = elim v [ null ↦ true | _ ↦ false ]

abbrev pub is_bool_value : Value → Bool
is_bool_value v = elim v [ bool b ↦ true | _ ↦ false ]

abbrev pub is_bytes_value : Value → Bool
is_bytes_value v = elim v [ bytes b ↦ true | _ ↦ false ]

abbrev pub is_float_value : Value → Bool
is_float_value v = elim v [ float f ↦ true | _ ↦ false ]

abbrev pub is_int_value : Value → Bool
is_int_value v = elim v [ int n ↦ true | _ ↦ false ]

abbrev pub is_array_value : Value → Bool
is_array_value v = elim v [ array items ↦ true | _ ↦ false ]

abbrev pub is_map_value : Value → Bool
is_map_value v = elim v [ map entries ↦ true | _ ↦ false ]

-- `is_some_and`: a function is no value, so every predicate is false of it.
abbrev pub holds_of : (Value → Bool) → Operand → Bool
holds_of test (data_of v) = test v
holds_of test (function f) = false

unfoldable pub predicate : (Value → Bool) → List Operand → Program
predicate test args = ret (data_of (bool (holds_of test (nth_operand args 0))))

-- The texts' and the conversions' implementations are given.
module _ (F : Floats) (others : Implementation) where
  unfoldable pub table : Implementation
  table l ne args call = equal_builtin F false call args
  table l mul args call = fold (whole (pos 1)) (Num.mul F) call args
  table l add args call = fold (whole (pos 0)) (Num.add F) call args
  table l sub args call = sub_builtin F call args
  table l div args call = div_builtin F call args
  table l lt args call = order_builtin F (λ o. is_order o less) call args
  table l le args call = order_builtin F (λ o. not (is_order o greater)) call args
  table l eq args call = equal_builtin F true call args
  table l gt args call = order_builtin F (λ o. is_order o greater) call args
  table l ge args call = order_builtin F (λ o. not (is_order o less)) call args
  table l abs args call = abs_builtin call args
  table l all_of args call = over_array call args 1 (quantify_on call false)
  table l any_of args call = over_array call args 1 (quantify_on call true)
  table l arr args call = arr_on l call args (length args) 0 []
  table l is_array args call = predicate is_array_value args
  table l assoc args call = assoc_builtin l call args
  table l is_bool args call = predicate is_bool_value args
  table l is_bytes args call = predicate is_bytes_value args
  table l ceil args call = to_integer (ceil_to_i64 F) call args
  table l concat args call = concat_on l call args (length args) 0 []
  table l contains args call = others l contains args call
  table l dict args call = dict_on l call args (length args / 2) 0 end
  table l int_div args call = int_div_builtin call args
  table l ends_with args call = others l ends_with args call
  table l filter args call = over_array call args 1 (λ f items. filter_on l call f items [])
  table l first args call = end_builtin first_of call args
  table l to_float args call = others l to_float args call
  table l is_float args call = predicate is_float_value args
  table l floor args call = to_integer (floor_to_i64 F) call args
  table l get args call = get_builtin call args
  table l get_in args call = get_in_builtin call args
  table l get_or args call = get_or_builtin call args
  table l has args call = has_builtin call args
  table l index_of args call = others l index_of args call
  table l to_int args call = others l to_int args call
  table l is_int args call = predicate is_int_value args
  table l join args call = others l join args call
  table l keys args call = entries_builtin keys_of l call args
  table l last args call = end_builtin last_of call args
  table l len_of args call = others l len_of args call
  table l lower args call = others l lower args call
  table l map_over args call = over_array call args 1 (λ f items. map_on l call f items [])
  table l is_map args call = predicate is_map_value args
  table l greatest args call = extreme F greater call args
  table l least args call = extreme F less call args
  table l int_mod args call = int_mod_builtin call args
  table l negate args call = not_builtin call args
  table l is_null args call = predicate is_null_value args
  table l is_number args call = predicate is_num args
  table l range args call = range_builtin l call args
  table l reduce args call =
      over_array call args 2 (λ f items. reduce_on l call f items (nth_operand args 1))
  table l round args call = to_integer (round_to_i64 F) call args
  table l slice args call = slice_builtin l call args
  table l sort args call = sort_builtin F l call args
  table l split args call = others l split args call
  table l starts_with args call = others l starts_with args call
  table l str_concat args call = others l str_concat args call
  table l to_string args call = others l to_string args call
  table l is_string args call = predicate is_text args
  table l substr args call = others l substr args call
  table l trim args call = others l trim args call
  table l upper args call = others l upper args call
  table l vals args call = entries_builtin vals_of l call args
