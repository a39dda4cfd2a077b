-- ===== src/Expr/Builtin/KeepsLoops.antt =====
-- About the loops over arrays in crates/expr/src/builtin/collect.rs and the predicates that a
-- program may keep.
use eieio.Base.{
  ℕ, zero, suc, refl, Bool, not, List, [], ◌∷◌, ◌++◌, All, Bytes, ℤ, pos, length, take, drop,
  if◌then◌else◌, all, ltb, ◌==◌,
}
use eieio.Signal.Value.{Value, Entries, bool, array, map, of_elements, entry_count}
use eieio.Expr.Syntax.{
  Error, EvalLimits, type_error, size, needs_function, range_too_long, function_in_array,
  sort_mixed,
}
use eieio.Expr.Builtin.{Call}
use eieio.Expr.Program.{
  Operand, Function, Task, Program, data_of, function, applying, ret, fail, ◌>>=◌, is_truthy,
}
use eieio.Expr.Num.{Floats}
use eieio.Expr.Builtin.Access.{
  arg_error, call_error, nth_operand, value_at, int_at, count_at, text_at, array_at, func_of,
  spend_each,
}
use eieio.Expr.Builtin.Compare.{bool_eq}
use eieio.Expr.Builtin.Collect.{
  over_array, quantify_on, assoc_builtin, concat_on, filter_on, entries_builtin, map_on,
  range_builtin, range_over, reduce_on, slice_builtin, sort_builtin, is_num, is_text, insert_entry,
  ints_from, sort_on, num_order, text_order, constructed, range_length, bare,
}
use eieio.Expr.Builtin.Reads.{Lawful, then-Keeps, count_at-Fine, nth_operand-kept}
use eieio.Expr.Builtin.KeepsArith.{constructed-Kept, if-Kept, with_value, with_int, with_ints}
use eieio.Expr.Builtin.KeepsCollect.{Safe, with_text, with_array, with_dict}

module _ (V : Operand → Type 0) (T : Task → Type 0) (E : Error → Type 0) (laws : Lawful V T E) where
  abbrev pub Sound : Program → Type 0
  Sound p = Safe V T E laws p

  array-Sound :
      (l : EvalLimits) (call : Call) (vs : List Value)
      → Sound (constructed l call (array (of_elements vs)))
  array-Sound l call vs = constructed-Kept V T E laws l call (array (of_elements vs))

  with_count :
      (call : Call) (args : List Operand) (i : ℕ) (k : ℕ → Program)
      → ((n : ℕ) → Sound (k n))
      → Sound (count_at call args i >>= k)
  with_count call args i k h =
      then-Keeps V T E laws (count_at call args i) k (count_at-Fine V T E laws call args i) h

  pub slice_builtin-Sound :
      (l : EvalLimits) (call : Call) (args : List Operand) → Sound (slice_builtin l call args)
  unfolding slice_builtin
  slice_builtin-Sound l call args =
      with_array V T E laws call args 0
        (λ items. count_at call args 1 >>= λ start.
          count_at call args 2 >>= λ count. sliced items start count)
        (λ items.
          with_count call args 1
            (λ start. count_at call args 2 >>= λ count. sliced items start count)
            (λ start.
              with_count call args 2 (λ count. sliced items start count)
                (λ count. array-Sound l call (take count (drop start items)))))
    where
      sliced : List Value → ℕ → ℕ → Program
      sliced items start count =
          spend_each call.span (length (take count (drop start items)))
            (constructed l call (array (of_elements (take count (drop start items)))))

  pub concat_on-Sound :
      (l : EvalLimits) (call : Call) (args : List Operand) (left i : ℕ) (out : List Value)
      → Sound (concat_on l call args left i out)
  unfolding concat_on
  concat_on-Sound l call args zero i out = array-Sound l call out
  concat_on-Sound l call args (suc left) i out =
      with_array V T E laws call args i
        (λ items.
          spend_each call.span (length items) (concat_on l call args left (suc i) (out ++ items)))
        (λ items. concat_on-Sound l call args left (suc i) (out ++ items))

  pub assoc_builtin-Sound :
      (l : EvalLimits) (call : Call) (args : List Operand) → Sound (assoc_builtin l call args)
  unfolding assoc_builtin
  assoc_builtin-Sound l call args =
      with_dict V T E laws call args 0
        (λ es. text_at call args 1 >>= λ key. value_at call args 2 >>= λ v. updated es key v)
        (λ es.
          with_text V T E laws call args 1 (λ key. value_at call args 2 >>= λ v. updated es key v)
            (λ key.
              with_value V T E laws call args 2 (λ v. updated es key v)
                (λ v. constructed-Kept V T E laws l call (map (insert_entry key v es)))))
    where
      updated : Entries → Bytes → Value → Program
      updated es key v =
          spend_each call.span (entry_count es) (constructed l call (map (insert_entry key v es)))

  pub entries_builtin-Sound :
      (which : Entries → List Value) (l : EvalLimits) (call : Call) (args : List Operand)
      → Sound (entries_builtin which l call args)
  unfolding entries_builtin
  entries_builtin-Sound which l call args =
      with_dict V T E laws call args 0
        (λ es.
          spend_each call.span (entry_count es)
            (constructed l call (array (of_elements (which es)))))
        (λ es. array-Sound l call (which es))

  range_over-Sound :
      (l : EvalLimits) (call : Call) (start stop : ℤ) → Sound (range_over l call start stop)
  unfolding range_over
  range_over-Sound l call start stop =
      if-Kept V T E laws (ltb l.max_range (range_length start stop))
        (fail (call_error call size range_too_long))
        (spend_each call.span (range_length start stop)
          (constructed l call (array (of_elements (ints_from start (range_length start stop))))))
        (laws.of_error (call_error call size range_too_long) refl)
        (array-Sound l call (ints_from start (range_length start stop)))

  pub range_builtin-Sound :
      (l : EvalLimits) (call : Call) (args : List Operand) → Sound (range_builtin l call args)
  unfolding range_builtin
  range_builtin-Sound l call args =
      if-Kept V T E laws (length args == 1)
        (int_at call args 0 >>= λ stop. range_over l call (pos 0) stop)
        (int_at call args 0 >>= λ start.
          int_at call args 1 >>= λ stop. range_over l call start stop)
        (with_int V T E laws call args 0 (λ stop. range_over l call (pos 0) stop)
          (λ stop. range_over-Sound l call (pos 0) stop))
        (with_ints V T E laws call args (λ start stop. range_over l call start stop)
          (λ start stop. range_over-Sound l call start stop))

  -- A function applied to one item is a task that is allowed.
  one_item :
      (call : Call) (f : Function) (v : Value)
      → V (function f)
      → T (applying f (data_of v ∷ []) (bare call))
  one_item call f v h = laws.of_call f (data_of v ∷ []) (bare call) h (laws.of_value v, tt)

  pub map_on-Sound :
      (l : EvalLimits) (call : Call) (f : Function) (vs out : List Value)
      → V (function f)
      → Sound (map_on l call f vs out)
  unfolding map_on
  map_on-Sound l call f [] out h = array-Sound l call out
  map_on-Sound l call f (v ∷ vs) out h =
      (one_item call f v h, (λ a ha. stored a (λ w. map_on-Sound l call f vs (out ++ w ∷ []) h)))
    where
      stored :
          (a : Operand)
          → ((w : Value) → Sound (map_on l call f vs (out ++ w ∷ [])))
          → Sound (elim a [
            | data_of w ↦ map_on l call f vs (out ++ w ∷ [])
            | function g ↦ fail (call_error call type_error function_in_array)
          ])
      stored (data_of w) go = go w
      stored (function g) go = laws.of_error (call_error call type_error function_in_array) refl

  pub filter_on-Sound :
      (l : EvalLimits) (call : Call) (f : Function) (vs out : List Value)
      → V (function f)
      → Sound (filter_on l call f vs out)
  unfolding filter_on
  filter_on-Sound l call f [] out h = array-Sound l call out
  filter_on-Sound l call f (v ∷ vs) out h = (
    one_item call f v h,
    (λ a ha. filter_on-Sound l call f vs (if is_truthy a then out ++ v ∷ [] else out) h),
  )

  pub reduce_on-Sound :
      (l : EvalLimits) (call : Call) (f : Function) (vs : List Value) (acc : Operand)
      → V (function f)
      → V acc
      → Sound (reduce_on l call f vs acc)
  unfolding reduce_on
  reduce_on-Sound l call f [] (data_of v) h ha = constructed-Kept V T E laws l call v
  reduce_on-Sound l call f [] (function g) h ha = ha
  reduce_on-Sound l call f (v ∷ vs) acc h ha = (
    laws.of_call f (acc ∷ data_of v ∷ []) (bare call) h (ha, (laws.of_value v, tt)),
    (λ a hv. reduce_on-Sound l call f vs a h hv),
  )

  pub quantify_on-Sound :
      (call : Call) (stop_on : Bool) (f : Function) (vs : List Value)
      → V (function f)
      → Sound (quantify_on call stop_on f vs)
  unfolding quantify_on
  quantify_on-Sound call stop_on f [] h = laws.of_value (bool (not stop_on))
  quantify_on-Sound call stop_on f (v ∷ vs) h = (
    one_item call f v h,
    (λ a ha.
        if-Kept V T E laws (bool_eq (is_truthy a) stop_on) (ret (data_of (bool stop_on)))
          (quantify_on call stop_on f vs) (laws.of_value (bool stop_on))
          (quantify_on-Sound call stop_on f vs h)),
  )

  with_func :
      (call : Call) (i : ℕ) (a : Operand) (k : Function → Program)
      → V a
      → ((f : Function) → V (function f) → Sound (k f))
      → Sound (func_of (arg_error call i type_error needs_function) a >>= k)
  with_func call i (function f) k ha h = h f ha
  with_func call i (data_of v) k ha h =
      laws.of_error (arg_error call i type_error needs_function) refl

  pub over_array-Sound :
      (call : Call) (args : List Operand) (i : ℕ) (loop : Function → List Value → Program)
      → All V args
      → ((f : Function) (vs : List Value) → V (function f) → Sound (loop f vs))
      → Sound (over_array call args i loop)
  unfolding over_array
  over_array-Sound call args i loop ha h =
      with_func call 0 (nth_operand args 0)
        (λ f. array_at call args i >>= λ items. spend_each call.span (length items) (loop f items))
        (nth_operand-kept V T E laws args 0 ha)
        (λ f hf.
          with_array V T E laws call args i
            (λ items. spend_each call.span (length items) (loop f items)) (λ items. h f items hf))

  pub sort_builtin-Sound :
      (F : Floats) (l : EvalLimits) (call : Call) (args : List Operand)
      → Sound (sort_builtin F l call args)
  unfolding sort_builtin
  sort_builtin-Sound F l call args =
      with_array V T E laws call args 0
        (λ items. spend_each call.span (length items) (sorted items))
        (λ items.
          if-Kept V T E laws (all is_num items)
            (constructed l call (array (of_elements (sort_on (num_order F) items []))))
            (if all is_text items
              then constructed l call (array (of_elements (sort_on text_order items [])))
              else fail (arg_error call 0 type_error sort_mixed))
            (array-Sound l call (sort_on (num_order F) items []))
            (if-Kept V T E laws (all is_text items)
              (constructed l call (array (of_elements (sort_on text_order items []))))
              (fail (arg_error call 0 type_error sort_mixed))
              (array-Sound l call (sort_on text_order items []))
              (laws.of_error (arg_error call 0 type_error sort_mixed) refl)))
    where
      sorted : List Value → Program
      sorted items =
          if all is_num items
          then constructed l call (array (of_elements (sort_on (num_order F) items [])))
          else if all is_text items
          then constructed l call (array (of_elements (sort_on text_order items [])))
          else fail (arg_error call 0 type_error sort_mixed)
