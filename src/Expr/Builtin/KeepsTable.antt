-- ===== src/Expr/Builtin/KeepsTable.antt =====
-- About the table of crates/expr/src/builtin/mod.rs and the predicates that a program may keep.
use eieio.Base.{◌/◌, true, false, not, List, [], All, pos, length}
use eieio.Signal.Value.{bool, end}
use eieio.Expr.Syntax.{Error, EvalLimits}
use eieio.Expr.Builtin.{
  Builtin, Call, ne, mul, add, sub, div, lt, le, eq, gt, ge, abs, all_of, any_of, arr, is_array,
  assoc, is_bool, is_bytes, ceil, concat, contains, dict, int_div, ends_with, filter, first,
  to_float, is_float, floor, get, get_in, get_or, has, index_of, to_int, is_int, join, keys, last,
  len_of, lower, map_over, is_map, greatest, least, int_mod, negate, is_null, is_number, range,
  reduce, round, slice, sort, split, starts_with, str_concat, to_string, is_string, substr, trim,
  upper, vals,
}
use eieio.Expr.Program.{Operand, Task, is_truthy}
use eieio.Expr.Eval.{Implementation}
use eieio.Expr.Eval.Obeys.{Obeys}
use eieio.Expr.Num
use eieio.Expr.Num.{Floats, whole, less, greater, floor_to_i64, ceil_to_i64, round_to_i64}
use eieio.Expr.Builtin.Access.{nth_operand}
use eieio.Expr.Builtin.Arith.{is_order}
use eieio.Expr.Builtin.Collect.{
  quantify_on, filter_on, map_on, reduce_on, first_of, last_of, keys_of, vals_of, is_num, is_text,
}
use eieio.Expr.Builtin.Table.{
  table, predicate, holds_of, is_null_value, is_bool_value, is_bytes_value, is_float_value,
  is_int_value, is_array_value, is_map_value,
}
use eieio.Expr.Builtin.Compare.{not_builtin}
use eieio.Expr.Builtin.Reads.{Lawful, nth_operand-kept}
use eieio.Expr.Builtin.KeepsArith.{
  fold-Kept, sub_builtin-Kept, div_builtin-Kept, abs_builtin-Kept, to_integer-Kept, extreme-Kept,
  int_div_builtin-Kept, int_mod_builtin-Kept,
}
use eieio.Expr.Builtin.KeepsCollect.{
  equal_builtin-Safe, order_builtin-Safe, arr_on-Safe, dict_on-Safe, get_builtin-Safe,
  get_or_builtin-Safe, get_in_builtin-Safe, has_builtin-Safe, end_builtin-Safe,
}
use eieio.Expr.Builtin.KeepsLoops.{
  slice_builtin-Sound, concat_on-Sound, assoc_builtin-Sound, entries_builtin-Sound,
  range_builtin-Sound, map_on-Sound, filter_on-Sound, reduce_on-Sound, quantify_on-Sound,
  over_array-Sound, sort_builtin-Sound,
}

module _ (V : Operand → Type 0) (T : Task → Type 0) (E : Error → Type 0) where
  -- An implementation that keeps the predicates, given arguments that do.
  abbrev pub AllKeep : Implementation → Type 0
  AllKeep implementation =
      (l : EvalLimits) (b : Builtin) (args : List Operand) (call : Call)
      → All V args
      → Obeys V T E (implementation l b args call)

module _ (V : Operand → Type 0) (T : Task → Type 0) (E : Error → Type 0) (laws : Lawful V T E) where
  pub table-AllKeep :
      (F : Floats) (others : Implementation) → AllKeep V T E others → AllKeep V T E (table F others)
  unfolding table predicate not_builtin
  table-AllKeep F others others_keep l ne args call h =
      equal_builtin-Safe V T E laws F false call args
  table-AllKeep F others others_keep l mul args call h =
      fold-Kept V T E laws (whole (pos 1)) (Num.mul F) call args
  table-AllKeep F others others_keep l add args call h =
      fold-Kept V T E laws (whole (pos 0)) (Num.add F) call args
  table-AllKeep F others others_keep l sub args call h = sub_builtin-Kept V T E laws F call args
  table-AllKeep F others others_keep l div args call h = div_builtin-Kept V T E laws F call args
  table-AllKeep F others others_keep l lt args call h =
      order_builtin-Safe V T E laws F (λ o. is_order o less) call args
  table-AllKeep F others others_keep l le args call h =
      order_builtin-Safe V T E laws F (λ o. not (is_order o greater)) call args
  table-AllKeep F others others_keep l eq args call h =
      equal_builtin-Safe V T E laws F true call args
  table-AllKeep F others others_keep l gt args call h =
      order_builtin-Safe V T E laws F (λ o. is_order o greater) call args
  table-AllKeep F others others_keep l ge args call h =
      order_builtin-Safe V T E laws F (λ o. not (is_order o less)) call args
  table-AllKeep F others others_keep l abs args call h = abs_builtin-Kept V T E laws call args
  table-AllKeep F others others_keep l all_of args call h =
      over_array-Sound V T E laws call args 1 (quantify_on call false) h
        (λ f vs hf. quantify_on-Sound V T E laws call false f vs hf)
  table-AllKeep F others others_keep l any_of args call h =
      over_array-Sound V T E laws call args 1 (quantify_on call true) h
        (λ f vs hf. quantify_on-Sound V T E laws call true f vs hf)
  table-AllKeep F others others_keep l arr args call h =
      arr_on-Safe V T E laws l call args (length args) 0 []
  table-AllKeep F others others_keep l is_array args call h =
      laws.of_value (bool (holds_of is_array_value (nth_operand args 0)))
  table-AllKeep F others others_keep l assoc args call h =
      assoc_builtin-Sound V T E laws l call args
  table-AllKeep F others others_keep l is_bool args call h =
      laws.of_value (bool (holds_of is_bool_value (nth_operand args 0)))
  table-AllKeep F others others_keep l is_bytes args call h =
      laws.of_value (bool (holds_of is_bytes_value (nth_operand args 0)))
  table-AllKeep F others others_keep l ceil args call h =
      to_integer-Kept V T E laws (ceil_to_i64 F) call args
  table-AllKeep F others others_keep l concat args call h =
      concat_on-Sound V T E laws l call args (length args) 0 []
  table-AllKeep F others others_keep l contains args call h = others_keep l contains args call h
  table-AllKeep F others others_keep l dict args call h =
      dict_on-Safe V T E laws l call args (length args / 2) 0 end
  table-AllKeep F others others_keep l int_div args call h =
      int_div_builtin-Kept V T E laws call args
  table-AllKeep F others others_keep l ends_with args call h = others_keep l ends_with args call h
  table-AllKeep F others others_keep l filter args call h =
      over_array-Sound V T E laws call args 1 (λ f items. filter_on l call f items []) h
        (λ f vs hf. filter_on-Sound V T E laws l call f vs [] hf)
  table-AllKeep F others others_keep l first args call h =
      end_builtin-Safe V T E laws first_of call args
  table-AllKeep F others others_keep l to_float args call h = others_keep l to_float args call h
  table-AllKeep F others others_keep l is_float args call h =
      laws.of_value (bool (holds_of is_float_value (nth_operand args 0)))
  table-AllKeep F others others_keep l floor args call h =
      to_integer-Kept V T E laws (floor_to_i64 F) call args
  table-AllKeep F others others_keep l get args call h = get_builtin-Safe V T E laws call args
  table-AllKeep F others others_keep l get_in args call h = get_in_builtin-Safe V T E laws call args
  table-AllKeep F others others_keep l get_or args call h = get_or_builtin-Safe V T E laws call args
  table-AllKeep F others others_keep l has args call h = has_builtin-Safe V T E laws call args
  table-AllKeep F others others_keep l index_of args call h = others_keep l index_of args call h
  table-AllKeep F others others_keep l to_int args call h = others_keep l to_int args call h
  table-AllKeep F others others_keep l is_int args call h =
      laws.of_value (bool (holds_of is_int_value (nth_operand args 0)))
  table-AllKeep F others others_keep l join args call h = others_keep l join args call h
  table-AllKeep F others others_keep l keys args call h =
      entries_builtin-Sound V T E laws keys_of l call args
  table-AllKeep F others others_keep l last args call h =
      end_builtin-Safe V T E laws last_of call args
  table-AllKeep F others others_keep l len_of args call h = others_keep l len_of args call h
  table-AllKeep F others others_keep l lower args call h = others_keep l lower args call h
  table-AllKeep F others others_keep l map_over args call h =
      over_array-Sound V T E laws call args 1 (λ f items. map_on l call f items []) h
        (λ f vs hf. map_on-Sound V T E laws l call f vs [] hf)
  table-AllKeep F others others_keep l is_map args call h =
      laws.of_value (bool (holds_of is_map_value (nth_operand args 0)))
  table-AllKeep F others others_keep l greatest args call h =
      extreme-Kept V T E laws F greater call args
  table-AllKeep F others others_keep l least args call h = extreme-Kept V T E laws F less call args
  table-AllKeep F others others_keep l int_mod args call h =
      int_mod_builtin-Kept V T E laws call args
  table-AllKeep F others others_keep l negate args call h =
      laws.of_value (bool (not (is_truthy (nth_operand args 0))))
  table-AllKeep F others others_keep l is_null args call h =
      laws.of_value (bool (holds_of is_null_value (nth_operand args 0)))
  table-AllKeep F others others_keep l is_number args call h =
      laws.of_value (bool (holds_of is_num (nth_operand args 0)))
  table-AllKeep F others others_keep l range args call h =
      range_builtin-Sound V T E laws l call args
  table-AllKeep F others others_keep l reduce args call h =
      over_array-Sound V T E laws call args 2
        (λ f items. reduce_on l call f items (nth_operand args 1)) h
        (λ f vs hf.
          reduce_on-Sound V T E laws l call f vs (nth_operand args 1) hf
            (nth_operand-kept V T E laws args 1 h))
  table-AllKeep F others others_keep l round args call h =
      to_integer-Kept V T E laws (round_to_i64 F) call args
  table-AllKeep F others others_keep l slice args call h =
      slice_builtin-Sound V T E laws l call args
  table-AllKeep F others others_keep l sort args call h =
      sort_builtin-Sound V T E laws F l call args
  table-AllKeep F others others_keep l split args call h = others_keep l split args call h
  table-AllKeep F others others_keep l starts_with args call h =
      others_keep l starts_with args call h
  table-AllKeep F others others_keep l str_concat args call h = others_keep l str_concat args call h
  table-AllKeep F others others_keep l to_string args call h = others_keep l to_string args call h
  table-AllKeep F others others_keep l is_string args call h =
      laws.of_value (bool (holds_of is_text (nth_operand args 0)))
  table-AllKeep F others others_keep l substr args call h = others_keep l substr args call h
  table-AllKeep F others others_keep l trim args call h = others_keep l trim args call h
  table-AllKeep F others others_keep l upper args call h = others_keep l upper args call h
  table-AllKeep F others others_keep l vals args call h =
      entries_builtin-Sound V T E laws vals_of l call args
