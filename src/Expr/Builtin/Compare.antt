-- ===== src/Expr/Builtin/Compare.antt =====
-- Equality and order of operands (`values_equal` of crates/expr/src/operand.rs,
-- crates/expr/src/builtin/compare.rs).
use eieio.Base.{
  ℕ, ℤ, Bool, true, false, not, ◌&&◌, Option, none, some, List, [], ◌∷◌, Bytes, text_eq, ltb,
  if◌then◌else◌, Result, ok, err,
}
use eieio.Signal.Value.{
  Value, Values, Entries, null, bool, int, float, str, bytes, array, map, nil, cons, end, entry,
}
use eieio.Expr.Syntax.{Error, type_error, function_compared}
use eieio.Expr.Builtin.{Call}
use eieio.Expr.Program.{Operand, Program, data_of, function, ret, is_truthy, ◌>>=◌}
use eieio.Expr.Num.{Num, Floats, Order, whole, real, compare_nums, less, equal, greater}
use eieio.Expr.Builtin.Access.{arg_error, num_at, value_at, nth_operand}
use eieio.Expr.Builtin.Arith.{is_order}

abbrev pub bool_eq : Bool → Bool → Bool
bool_eq true b = b
bool_eq false b = not b

-- `Ord` of texts: the order of their bytes.
abbrev pub compare_texts : Bytes → Bytes → Order
compare_texts [] [] = equal
compare_texts [] (b ∷ t) = less
compare_texts (a ∷ s) [] = greater
compare_texts (a ∷ s) (b ∷ t) =
    let rest = compare_texts s t in if ltb a b then less else if ltb b a then greater else rest

abbrev pub as_text : Value → Option Bytes
as_text v = elim v [ str s ↦ some s | _ ↦ none ]

module _ (F : Floats) where
  abbrev pub nums_equal : Num → Num → Bool
  nums_equal a b = is_order (compare_nums F a b) equal

  abbrev pub equals_int : ℤ → Value → Bool
  equals_int n (int m) = nums_equal (whole n) (whole m)
  equals_int n (float g) = nums_equal (whole n) (real g)
  equals_int n null = false
  equals_int n (bool b) = false
  equals_int n (str s) = false
  equals_int n (bytes b) = false
  equals_int n (array items) = false
  equals_int n (map entries) = false

  abbrev pub equals_float : ℕ → Value → Bool
  equals_float f (int m) = nums_equal (real f) (whole m)
  equals_float f (float g) = nums_equal (real f) (real g)
  equals_float f null = false
  equals_float f (bool b) = false
  equals_float f (str s) = false
  equals_float f (bytes b) = false
  equals_float f (array items) = false
  equals_float f (map entries) = false

  unfoldable mutual
    pub values_equal : Value → Value → Bool
    values_equal (int n) v = equals_int n v
    values_equal (float f) v = equals_float f v
    values_equal null v = elim v [ null ↦ true | _ ↦ false ]
    values_equal (bool a) v = elim v [ bool b ↦ bool_eq a b | _ ↦ false ]
    values_equal (str a) v = elim v [ str b ↦ text_eq a b | _ ↦ false ]
    values_equal (bytes a) v = elim v [ bytes b ↦ text_eq a b | _ ↦ false ]
    values_equal (array a) v = elim v [ array b ↦ items_equal a b | _ ↦ false ]
    values_equal (map a) v = elim v [ map b ↦ entries_equal a b | _ ↦ false ]

    -- The same length, and equal item by item.
    pub items_equal : Values → Values → Bool
    items_equal nil vs = elim vs [ nil ↦ true | cons w ws ↦ false ]
    items_equal (cons v rest) vs = elim vs [
      | nil ↦ false
      | cons w ws ↦ values_equal v w && items_equal rest ws
    ]

    pub entries_equal : Entries → Entries → Bool
    entries_equal end es = elim es [ end ↦ true | entry k w ws ↦ false ]
    entries_equal (entry k v rest) es = elim es [
      | end ↦ false
      | entry j w ws ↦ text_eq k j && (values_equal v w && entries_equal rest ws)
    ]

  abbrev pub operands_equal : Operand → Operand → Option Bool
  operands_equal (data_of a) (data_of b) = some (values_equal a b)
  operands_equal (data_of a) (function g) = none
  operands_equal (function f) b = none

  abbrev pub is_data : Operand → Bool
  is_data (data_of v) = true
  is_data (function f) = false

  -- The function that stands in the way is named: the second argument if the first is data.
  abbrev pub equal_at : Call → List Operand → Result Error Bool
  equal_at call args = elim (operands_equal (nth_operand args 0) (nth_operand args 1)) [
    | some same ↦ ok same
    | none ↦ err (
        arg_error call (if is_data (nth_operand args 0) then 1 else 0) type_error function_compared)
  ]

  unfoldable pub order_nums : Call → List Operand → (Order → Program) → Program
  order_nums call args k = do a ← num_at call args 0; b ← num_at call args 1; k (compare_nums F a b)

  -- Two texts by their bytes, anything else as numbers.
  unfoldable pub order_values :
      Call → List Operand → (Order → Program) → Option Bytes → Option Bytes → Program
  order_values call args k (some a) (some b) = k (compare_texts a b)
  order_values call args k (some a) none = order_nums call args k
  order_values call args k none other = order_nums call args k

  unfoldable pub order_builtin : (Order → Bool) → Call → List Operand → Program
  order_builtin test call args = do
    v ← value_at call args 0
    w ← value_at call args 1
    order_values call args (λ o. ret (data_of (bool (test o)))) (as_text v) (as_text w)

  unfoldable pub equal_builtin : Bool → Call → List Operand → Program
  equal_builtin wanted call args = do
    same ← equal_at call args
    ret (data_of (bool (bool_eq same wanted)))

unfoldable pub not_builtin : Call → List Operand → Program
not_builtin call args = ret (data_of (bool (not (is_truthy (nth_operand args 0)))))
