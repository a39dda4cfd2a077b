-- ===== src/Expr/Builtin/Collect.antt =====
-- The builtins on arrays and maps (crates/expr/src/builtin/collect.rs).
use eieio.Base.{
  ℕ, suc, zero, ◌-◌, ◌^◌, Bool, true, false, not, Option, none, some, List, [], ◌∷◌, ◌++◌, Bytes, ℤ,
  pos, negsuc, ◌+ℤ◌, ◌-ℤ◌, leb_ℤ, pos_part, min, length, get_elem?, take, drop, ltb, all, ◌==◌,
  if◌then◌else◌,
}
use eieio.Signal.Value.{
  Value, Entries, bool, int, str, array, map, end, entry, elements, of_elements, field, entry_count,
}
use eieio.Expr.Syntax.{
  EvalLimits, type_error, domain_error, missing, size, absent, wrong_key, array_empty,
  range_too_long, function_in_array, duplicate_key, sort_mixed,
}
use eieio.Expr.Builtin.{Call}
use eieio.Expr.Program.{
  Operand, Function, Program, data_of, function, ret, fail, ask, applying, is_truthy, ◌>>=◌,
}
use eieio.Expr.Num.{Floats, Order, num_of, compare_nums, less, equal, greater}
use eieio.Expr.Builtin.Access.{
  arg_error, call_error, value_at, int_at, count_at, text_at, array_at, dict_at, func_at, accept,
  spend_each,
}
use eieio.Expr.Builtin.Compare.{compare_texts, bool_eq}

abbrev pub bare : Call → Call
bare call = record { span = call.span; args = none }

-- `ev.constructed(call.span(), …)`
abbrev pub constructed : EvalLimits → Call → Value → Program
constructed l call v = accept l call.span v >>= ret

abbrev pub pick : Value → Value → Option Value
pick (map entries) (str name) = field name entries
pick (array items) (int (pos index)) = get_elem? (elements items) index
pick (array items) (int (negsuc index)) = none
pick container key = none

abbrev pub keyable : Value → Value → Bool
keyable (map entries) (str name) = true
keyable (array items) (int index) = true
keyable container key = false

pub data Lookup : Type 0 where
  found : Value → Lookup
  not_there : Lookup
  bad_key : Lookup

abbrev pub element : Value → Value → Lookup
element container key =
    if keyable container key
    then elim (pick container key) [ none ↦ not_there | some v ↦ found v ]
    else bad_key

unfoldable pub arr_on : EvalLimits → Call → List Operand → ℕ → ℕ → List Value → Program
arr_on l call args zero index out = constructed l call (array (of_elements out))
arr_on l call args (suc left) index out = do
  v ← value_at call args index
  arr_on l call args left (suc index) (out ++ v ∷ [])

-- `BTreeMap::insert`: the key's value replaced, or the entry put in its place in the order.
abbrev pub insert_entry : Bytes → Value → Entries → Entries
insert_entry key v end = entry key v end
insert_entry key v (entry k w rest) =
    let below = insert_entry key v rest in
    elim (compare_texts key k) [
      | less ↦ entry key v (entry k w rest)
      | equal ↦ entry key v rest
      | greater ↦ entry k w below
    ]

abbrev pub is_there : Option Value → Bool
is_there none = false
is_there (some v) = true

-- The keys and values by pairs from `index` on; a key may come once.
unfoldable pub dict_on : EvalLimits → Call → List Operand → ℕ → ℕ → Entries → Program
dict_on l call args zero index entries = constructed l call (map entries)
dict_on l call args (suc left) index entries = do
  key ← text_at call args index
  v ← value_at call args (suc index)
  if is_there (field key entries)
      then fail (arg_error call index domain_error duplicate_key)
      else dict_on l call args left (suc (suc index)) (insert_entry key v entries)

abbrev pub got : Call → Lookup → Program
got call (found v) = ret (data_of v)
got call not_there = fail (arg_error call 1 missing absent)
got call bad_key = fail (arg_error call 1 type_error wrong_key)

unfoldable pub get_builtin : Call → List Operand → Program
get_builtin call args = do
  container ← value_at call args 0
  key ← value_at call args 1
  got call (element container key)

abbrev pub got_or : Call → Value → Lookup → Program
got_or call default (found v) = ret (data_of v)
got_or call default not_there = ret (data_of default)
got_or call default bad_key = fail (arg_error call 1 type_error wrong_key)

unfoldable pub get_or_builtin : Call → List Operand → Program
get_or_builtin call args = do
  default ← value_at call args 2
  container ← value_at call args 0
  key ← value_at call args 1
  got_or call default (element container key)

unfoldable pub get_in_on : Call → Value → List Value → Program
get_in_on call current [] = ret (data_of current)
get_in_on call current (key ∷ path) = elim (element current key) [
  | found v ↦ get_in_on call v path
  | not_there ↦ fail (arg_error call 1 missing absent)
  | bad_key ↦ fail (arg_error call 1 type_error wrong_key)
]

unfoldable pub get_in_builtin : Call → List Operand → Program
get_in_builtin call args = do
  current ← value_at call args 0
  path ← array_at call args 1
  spend_each call.span (length path) (get_in_on call current path)

unfoldable pub has_builtin : Call → List Operand → Program
has_builtin call args = do
  container ← value_at call args 0
  key ← value_at call args 1
  if keyable container key
      then ret (data_of (bool (is_there (pick container key))))
      else fail (arg_error call 1 type_error wrong_key)

abbrev pub last_of : List Value → Option Value
last_of [] = none
last_of (v ∷ []) = some v
last_of (v ∷ w ∷ vs) = last_of (w ∷ vs)

abbrev pub first_of : List Value → Option Value
first_of vs = get_elem? vs 0

abbrev pub end_found : Call → Option Value → Program
end_found call none = fail (arg_error call 0 missing array_empty)
end_found call (some v) = ret (data_of v)

unfoldable pub end_builtin : (List Value → Option Value) → Call → List Operand → Program
end_builtin which call args = do items ← array_at call args 0; end_found call (which items)

unfoldable pub slice_builtin : EvalLimits → Call → List Operand → Program
slice_builtin l call args = do
  items ← array_at call args 0
  start ← count_at call args 1
  count ← count_at call args 2
  spend_each call.span (length (take count (drop start items)))
      (constructed l call (array (of_elements (take count (drop start items)))))

unfoldable pub concat_on : EvalLimits → Call → List Operand → ℕ → ℕ → List Value → Program
concat_on l call args zero index out = constructed l call (array (of_elements out))
concat_on l call args (suc left) index out = do
  items ← array_at call args index
  spend_each call.span (length items) (concat_on l call args left (suc index) (out ++ items))

unfoldable pub assoc_builtin : EvalLimits → Call → List Operand → Program
assoc_builtin l call args = do
  entries ← dict_at call args 0
  key ← text_at call args 1
  v ← value_at call args 2
  spend_each call.span (entry_count entries) (constructed l call (map (insert_entry key v entries)))

abbrev pub keys_of : Entries → List Value
keys_of end = []
keys_of (entry k v rest) = str k ∷ keys_of rest

abbrev pub vals_of : Entries → List Value
vals_of end = []
vals_of (entry k v rest) = v ∷ vals_of rest

unfoldable pub entries_builtin : (Entries → List Value) → EvalLimits → Call → List Operand → Program
entries_builtin which l call args = do
  entries ← dict_at call args 0
  spend_each call.span (entry_count entries)
      (constructed l call (array (of_elements (which entries))))

-- `end.saturating_sub(start).max(0)`
abbrev pub range_length : ℤ → ℤ → ℕ
range_length start stop =
    if leb_ℤ stop start then 0 else min (pos_part (stop -ℤ start)) (2 ^ 63 - 1)

abbrev pub ints_from : ℤ → ℕ → List Value
ints_from start zero = []
ints_from start (suc n) = int start ∷ ints_from (start +ℤ pos 1) n

unfoldable pub range_over : EvalLimits → Call → ℤ → ℤ → Program
range_over l call start stop =
    if ltb l.max_range (range_length start stop)
    then fail (call_error call size range_too_long)
    else spend_each call.span (range_length start stop)
        (constructed l call (array (of_elements (ints_from start (range_length start stop)))))

unfoldable pub range_builtin : EvalLimits → Call → List Operand → Program
range_builtin l call args =
    if length args == 1
    then (int_at call args 0 >>= λ stop. range_over l call (pos 0) stop)
    else (int_at call args 0 >>= λ start.
        int_at call args 1 >>= λ stop. range_over l call start stop)

-- The loops that apply a function to each item of an array.
abbrev pub apply_one : Call → Function → Value → (Operand → Program) → Program
apply_one call f item k = ask (applying f (data_of item ∷ []) (bare call)) k

unfoldable pub map_on : EvalLimits → Call → Function → List Value → List Value → Program
map_on l call f [] out = constructed l call (array (of_elements out))
map_on l call f (item ∷ items) out = apply_one call f item (λ a. elim a [
  | data_of v ↦ map_on l call f items (out ++ v ∷ [])
  | function g ↦ fail (call_error call type_error function_in_array)
])

unfoldable pub filter_on : EvalLimits → Call → Function → List Value → List Value → Program
filter_on l call f [] out = constructed l call (array (of_elements out))
filter_on l call f (item ∷ items) out =
    apply_one call f item
      (λ a. filter_on l call f items (if is_truthy a then out ++ item ∷ [] else out))

abbrev pub accept_operand : EvalLimits → Call → Operand → Program
accept_operand l call (data_of v) = constructed l call v
accept_operand l call (function f) = ret (function f)

unfoldable pub reduce_on : EvalLimits → Call → Function → List Value → Operand → Program
reduce_on l call f [] acc = accept_operand l call acc
reduce_on l call f (item ∷ items) acc =
    ask (applying f (acc ∷ data_of item ∷ []) (bare call)) (λ a. reduce_on l call f items a)

unfoldable pub quantify_on : Call → Bool → Function → List Value → Program
quantify_on call stop_on f [] = ret (data_of (bool (not stop_on)))
quantify_on call stop_on f (item ∷ items) = apply_one call f item (λ a.
    let rest = quantify_on call stop_on f items in
    if bool_eq (is_truthy a) stop_on then ret (data_of (bool stop_on)) else rest)

-- A loop over the array at `index` with the function at 0, charged for the length first.
unfoldable pub over_array : Call → List Operand → ℕ → (Function → List Value → Program) → Program
over_array call args index loop = do
  f ← func_at call args 0
  items ← array_at call args index
  spend_each call.span (length items) (loop f items)

-- `sort_by` is stable: an item goes before those that compare greater.
abbrev pub insert_value : (Value → Value → Order) → Value → List Value → List Value
insert_value order v [] = v ∷ []
insert_value order v (w ∷ ws) =
    let rest = insert_value order v ws in
    elim (order w v) [ less ↦ w ∷ rest | equal ↦ w ∷ rest | greater ↦ v ∷ w ∷ ws ]

abbrev pub sort_on : (Value → Value → Order) → List Value → List Value → List Value
sort_on order [] out = out
sort_on order (v ∷ vs) out = sort_on order vs (insert_value order v out)

abbrev pub is_num : Value → Bool
is_num v = elim (num_of v) [ none ↦ false | some n ↦ true ]

abbrev pub is_text : Value → Bool
is_text v = elim v [ str s ↦ true | _ ↦ false ]

abbrev pub text_order : Value → Value → Order
text_order (str a) (str b) = compare_texts a b
text_order v w = equal

module _ (F : Floats) where
  abbrev pub num_order : Value → Value → Order
  num_order v w = elim (num_of v) [
    | none ↦ equal
    | some a ↦ elim (num_of w) [ none ↦ equal | some b ↦ compare_nums F a b ]
  ]

  unfoldable pub sort_builtin : EvalLimits → Call → List Operand → Program
  sort_builtin l call args = do
    items ← array_at call args 0
    spend_each call.span (length items) (
        if all is_num items
        then constructed l call (array (of_elements (sort_on num_order items [])))
        else if all is_text items
        then constructed l call (array (of_elements (sort_on text_order items [])))
        else fail (arg_error call 0 type_error sort_mixed))
