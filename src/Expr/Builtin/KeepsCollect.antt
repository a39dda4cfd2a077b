-- ===== src/Expr/Builtin/KeepsCollect.antt =====
-- About crates/expr/src/builtin/compare.rs and collect.rs and the predicates that a program may keep.
use eieio.Base.{
  ℕ, zero, suc, refl, Bool, Option, none, some, List, [], ◌∷◌, ◌++◌, Bytes, length, ok, err,
  if◌then◌else◌,
}
use eieio.Signal.Value.{Value, Entries, bool, array, map, of_elements, field}
use eieio.Expr.Syntax.{
  Error, EvalLimits, type_error, domain_error, missing, absent, wrong_key, array_empty,
  duplicate_key, function_compared,
}
use eieio.Expr.Builtin.{Call}
use eieio.Expr.Program.{Operand, Task, Program, data_of, ret, fail, ◌>>=◌}
use eieio.Expr.Num.{Floats, Order, compare_nums}
use eieio.Expr.Builtin.Access.{
  arg_error, nth_operand, value_at, num_at, text_at, array_at, dict_at, spend_each,
}
use eieio.Expr.Builtin.Compare.{
  equal_builtin, equal_at, operands_equal, is_data, order_builtin, order_values, order_nums,
  bool_eq, as_text, compare_texts,
}
use eieio.Expr.Builtin.Collect.{
  arr_on, dict_on, end_builtin, end_found, get_builtin, get_in_builtin, get_in_on, get_or_builtin,
  has_builtin, element, Lookup, found, not_there, bad_key, got, got_or, keyable, pick, is_there,
  insert_entry,
}
use eieio.Expr.Builtin.Reads.{Lawful, Fine, then-Keeps, text_at-Fine, array_at-Fine, dict_at-Fine}
use eieio.Expr.Builtin.KeepsArith.{Kept, constructed-Kept, if-Kept, with_value, with_num}

module _ (V : Operand → Type 0) (T : Task → Type 0) (E : Error → Type 0) (laws : Lawful V T E) where
  -- `Kept` at these predicates.
  abbrev pub Safe : Program → Type 0
  Safe p = Kept V T E laws p

  pub equal_builtin-Safe :
      (F : Floats) (wanted : Bool) (call : Call) (args : List Operand)
      → Safe (equal_builtin F wanted call args)
  unfolding equal_builtin
  equal_builtin-Safe F wanted call args =
      then-Keeps V T E laws (equal_at F call args)
        (λ same. ret (data_of (bool (bool_eq same wanted))))
        (compared (operands_equal F (nth_operand args 0) (nth_operand args 1)))
        (λ same. laws.of_value (bool (bool_eq same wanted)))
    where
      compared :
          (o : Option Bool)
          → Fine V T E laws (elim o [
            | some same ↦ ok same
            | none ↦ err (
                arg_error call
                  (if is_data F (nth_operand args 0) then 1 else 0)
                  type_error
                  function_compared)
          ])
      compared (some same) = tt
      compared none =
          laws.of_error
            (arg_error call (if is_data F (nth_operand args 0) then 1 else 0) type_error
              function_compared)
            refl

  order_nums-Safe :
      (F : Floats) (call : Call) (args : List Operand) (k : Order → Program)
      → ((o : Order) → Safe (k o))
      → Safe (order_nums F call args k)
  unfolding order_nums
  order_nums-Safe F call args k h =
      with_num V T E laws call args 0 (λ a. num_at call args 1 >>= λ b. k (compare_nums F a b))
        (λ a.
          with_num V T E laws call args 1 (λ b. k (compare_nums F a b))
            (λ b. h (compare_nums F a b)))

  order_values-Safe :
      (F : Floats) (call : Call) (args : List Operand) (k : Order → Program)
      → ((o : Order) → Safe (k o))
      → (v w : Option Bytes) → Safe (order_values F call args k v w)
  unfolding order_values
  order_values-Safe F call args k h (some a) (some b) = h (compare_texts a b)
  order_values-Safe F call args k h (some a) none = order_nums-Safe F call args k h
  order_values-Safe F call args k h none o = order_nums-Safe F call args k h

  pub order_builtin-Safe :
      (F : Floats) (test : Order → Bool) (call : Call) (args : List Operand)
      → Safe (order_builtin F test call args)
  unfolding order_builtin
  order_builtin-Safe F test call args =
      with_value V T E laws call args 0
        (λ v. value_at call args 1 >>= λ w.
          order_values F call args (λ o. ret (data_of (bool (test o)))) (as_text v) (as_text w))
        (λ v.
          with_value V T E laws call args 1
            (λ w.
              order_values F call args (λ o. ret (data_of (bool (test o)))) (as_text v) (as_text w))
            (λ w.
              order_values-Safe F call args (λ o. ret (data_of (bool (test o))))
                (λ o. laws.of_value (bool (test o))) (as_text v) (as_text w)))

  pub arr_on-Safe :
      (l : EvalLimits) (call : Call) (args : List Operand) (left i : ℕ) (out : List Value)
      → Safe (arr_on l call args left i out)
  unfolding arr_on
  arr_on-Safe l call args zero i out = constructed-Kept V T E laws l call (array (of_elements out))
  arr_on-Safe l call args (suc left) i out =
      with_value V T E laws call args i (λ v. arr_on l call args left (suc i) (out ++ v ∷ []))
        (λ v. arr_on-Safe l call args left (suc i) (out ++ v ∷ []))

  pub with_text :
      (call : Call) (args : List Operand) (i : ℕ) (k : Bytes → Program)
      → ((s : Bytes) → Safe (k s))
      → Safe (text_at call args i >>= k)
  with_text call args i k h =
      then-Keeps V T E laws (text_at call args i) k (text_at-Fine V T E laws call args i) h

  pub with_array :
      (call : Call) (args : List Operand) (i : ℕ) (k : List Value → Program)
      → ((vs : List Value) → Safe (k vs))
      → Safe (array_at call args i >>= k)
  with_array call args i k h =
      then-Keeps V T E laws (array_at call args i) k (array_at-Fine V T E laws call args i) h

  pub with_dict :
      (call : Call) (args : List Operand) (i : ℕ) (k : Entries → Program)
      → ((es : Entries) → Safe (k es))
      → Safe (dict_at call args i >>= k)
  with_dict call args i k h =
      then-Keeps V T E laws (dict_at call args i) k (dict_at-Fine V T E laws call args i) h

  pub dict_on-Safe :
      (l : EvalLimits) (call : Call) (args : List Operand) (left i : ℕ) (entries : Entries)
      → Safe (dict_on l call args left i entries)
  unfolding dict_on
  dict_on-Safe l call args zero i entries = constructed-Kept V T E laws l call (map entries)
  dict_on-Safe l call args (suc left) i entries =
      with_text call args i
        (λ key. value_at call args (suc i) >>= λ v.
          if is_there (field key entries)
          then fail (arg_error call i domain_error duplicate_key)
          else dict_on l call args left (suc (suc i)) (insert_entry key v entries))
        (λ key.
          with_value V T E laws call args (suc i)
            (λ v.
              if is_there (field key entries)
              then fail (arg_error call i domain_error duplicate_key)
              else dict_on l call args left (suc (suc i)) (insert_entry key v entries))
            (λ v.
              if-Kept V T E laws (is_there (field key entries))
                (fail (arg_error call i domain_error duplicate_key))
                (dict_on l call args left (suc (suc i)) (insert_entry key v entries))
                (laws.of_error (arg_error call i domain_error duplicate_key) refl)
                (dict_on-Safe l call args left (suc (suc i)) (insert_entry key v entries))))

  -- What reads two values and goes on.
  with_values :
      (call : Call) (args : List Operand) (k : Value → Value → Program)
      → ((v w : Value) → Safe (k v w))
      → Safe (value_at call args 0 >>= λ v. value_at call args 1 >>= λ w. k v w)
  with_values call args k h =
      with_value V T E laws call args 0 (λ v. value_at call args 1 >>= λ w. k v w)
        (λ v. with_value V T E laws call args 1 (λ w. k v w) (λ w. h v w))

  got-Safe : (call : Call) (found_value : Lookup) → Safe (got call found_value)
  got-Safe call (found v) = laws.of_value v
  got-Safe call not_there = laws.of_error (arg_error call 1 missing absent) refl
  got-Safe call bad_key = laws.of_error (arg_error call 1 type_error wrong_key) refl

  got_or-Safe : (call : Call) (default : Value) (r : Lookup) → Safe (got_or call default r)
  got_or-Safe call default (found v) = laws.of_value v
  got_or-Safe call default not_there = laws.of_value default
  got_or-Safe call default bad_key = laws.of_error (arg_error call 1 type_error wrong_key) refl

  pub get_builtin-Safe : (call : Call) (args : List Operand) → Safe (get_builtin call args)
  unfolding get_builtin
  get_builtin-Safe call args =
      with_values call args (λ v w. got call (element v w)) (λ v w. got-Safe call (element v w))

  pub get_or_builtin-Safe : (call : Call) (args : List Operand) → Safe (get_or_builtin call args)
  unfolding get_or_builtin
  get_or_builtin-Safe call args =
      with_value V T E laws call args 2
        (λ d.
          value_at call args 0 >>= λ v. value_at call args 1 >>= λ w. got_or call d (element v w))
        (λ d.
          with_values call args (λ v w. got_or call d (element v w))
            (λ v w. got_or-Safe call d (element v w)))

  pub get_in_on-Safe :
      (call : Call) (current : Value) (path : List Value) → Safe (get_in_on call current path)
  unfolding get_in_on
  get_in_on-Safe call current [] = laws.of_value current
  get_in_on-Safe call current (key ∷ path) =
      stepped (element current key) (λ v. get_in_on-Safe call v path)
    where
      stepped :
          (r : Lookup)
          → ((v : Value) → Safe (get_in_on call v path))
          → Safe (elim r [
            | found v ↦ get_in_on call v path
            | not_there ↦ fail (arg_error call 1 missing absent)
            | bad_key ↦ fail (arg_error call 1 type_error wrong_key)
          ])
      stepped (found v) h = h v
      stepped not_there h = laws.of_error (arg_error call 1 missing absent) refl
      stepped bad_key h = laws.of_error (arg_error call 1 type_error wrong_key) refl

  pub get_in_builtin-Safe : (call : Call) (args : List Operand) → Safe (get_in_builtin call args)
  unfolding get_in_builtin
  get_in_builtin-Safe call args =
      with_value V T E laws call args 0
        (λ v. array_at call args 1 >>= λ path.
          spend_each call.span (length path) (get_in_on call v path))
        (λ v.
          with_array call args 1
            (λ path. spend_each call.span (length path) (get_in_on call v path))
            (λ path. get_in_on-Safe call v path))

  pub has_builtin-Safe : (call : Call) (args : List Operand) → Safe (has_builtin call args)
  unfolding has_builtin
  has_builtin-Safe call args =
      with_values call args
        (λ v w.
          if keyable v w
          then ret (data_of (bool (is_there (pick v w))))
          else fail (arg_error call 1 type_error wrong_key))
        (λ v w.
          if-Kept V T E laws (keyable v w) (ret (data_of (bool (is_there (pick v w)))))
            (fail (arg_error call 1 type_error wrong_key))
            (laws.of_value (bool (is_there (pick v w))))
            (laws.of_error (arg_error call 1 type_error wrong_key) refl))

  end_found-Safe : (call : Call) (o : Option Value) → Safe (end_found call o)
  end_found-Safe call none = laws.of_error (arg_error call 0 missing array_empty) refl
  end_found-Safe call (some v) = laws.of_value v

  pub end_builtin-Safe :
      (which : List Value → Option Value) (call : Call) (args : List Operand)
      → Safe (end_builtin which call args)
  unfolding end_builtin
  end_builtin-Safe which call args =
      with_array call args 0 (λ vs. end_found call (which vs))
        (λ vs. end_found-Safe call (which vs))
