-- ===== src/Expr/Builtin/Arith.antt =====
-- The numeric builtins (crates/expr/src/builtin/arith.rs).
use eieio.Base.{
  ℕ, suc, zero, ◌-◌, Bool, true, false, Option, none, some, List, [], ◌∷◌, ℤ, length, ◌==◌,
  if◌then◌else◌, Result, ok, err,
}
use eieio.Signal.Value.{int}
use eieio.Expr.Syntax.{Message, domain_error, rounded_too_large}
use eieio.Expr.Builtin.{Call}
use eieio.Expr.Program.{Operand, Program, data_of, ret, fail, ◌>>=◌}
use eieio.Expr.Num.{
  Num, Floats, Order, whole, real, into_value, sub, div, neg, abs, floor_div, floor_mod,
  compare_nums, less, equal, greater,
}
use eieio.Expr.Builtin.Access.{arg_error, num_at, int_at}

abbrev pub number : Num → Program
number n = ret (data_of (into_value n))

-- The result of an operation, or its message at the argument that it failed on.
abbrev pub or_domain : Call → ℕ → Result Message Num → Program
or_domain call index (ok n) = number n
or_domain call index (err m) = fail (arg_error call index domain_error m)

abbrev pub int_or_domain : Call → ℕ → Result Message ℤ → Program
int_or_domain call index (ok n) = ret (data_of (int n))
int_or_domain call index (err m) = fail (arg_error call index domain_error m)

-- The arguments from `index` on, `left` of them, folded into the accumulator.
unfoldable pub fold_on :
    (Num → Num → Result Message Num) → Call → List Operand → ℕ → ℕ → Num → Program
fold_on operation call args zero index acc = number acc
fold_on operation call args (suc left) index acc = do
  operand ← num_at call args index
  elim (operation acc operand) [
    | ok next ↦ fold_on operation call args left (suc index) next
    | err m ↦ fail (arg_error call index domain_error m)
  ]

unfoldable pub fold_from_first : (Num → Num → Result Message Num) → Call → List Operand → Program
fold_from_first operation call args = do
  first ← num_at call args 0
  fold_on operation call args (length args - 1) 1 first

abbrev pub fold : Num → (Num → Num → Result Message Num) → Call → List Operand → Program
fold identity operation call [] = number identity
fold identity operation call (a ∷ args) = fold_from_first operation call (a ∷ args)

abbrev pub is_order : Order → Order → Bool
is_order less less = true
is_order greater greater = true
is_order equal equal = true
is_order less equal = false
is_order less greater = false
is_order equal less = false
is_order equal greater = false
is_order greater less = false
is_order greater equal = false

module _ (F : Floats) where
  unfoldable pub extreme_on : Order → Call → List Operand → ℕ → ℕ → Num → Program
  extreme_on keep call args zero index best = number best
  extreme_on keep call args (suc left) index best = do
    candidate ← num_at call args index
    extreme_on keep call args left (suc index)
        (if is_order (compare_nums F candidate best) keep then candidate else best)

  unfoldable pub extreme : Order → Call → List Operand → Program
  extreme keep call args = do
    first ← num_at call args 0
    extreme_on keep call args (length args - 1) 1 first

  unfoldable pub sub_builtin : Call → List Operand → Program
  sub_builtin call args = do
    first ← num_at call args 0
    if length args == 1 then or_domain call 0 (neg first) else fold_from_first (sub F) call args

  unfoldable pub div_builtin : Call → List Operand → Program
  div_builtin call args = do
    a ← num_at call args 0
    b ← num_at call args 1
    or_domain call 1 (div F a b)

unfoldable pub int_div_builtin : Call → List Operand → Program
int_div_builtin call args = do
  a ← int_at call args 0
  b ← int_at call args 1
  int_or_domain call 1 (floor_div a b)

unfoldable pub int_mod_builtin : Call → List Operand → Program
int_mod_builtin call args = do
  a ← int_at call args 0
  b ← int_at call args 1
  int_or_domain call 1 (floor_mod a b)

unfoldable pub abs_builtin : Call → List Operand → Program
abs_builtin call args = do n ← num_at call args 0; or_domain call 0 (abs n)

abbrev pub rounded : Call → Option ℤ → Program
rounded call none = fail (arg_error call 0 domain_error rounded_too_large)
rounded call (some n) = ret (data_of (int n))

abbrev pub to_integer_of : Call → (ℕ → Option ℤ) → Num → Program
to_integer_of call round (whole n) = ret (data_of (int n))
to_integer_of call round (real f) = rounded call (round f)

unfoldable pub to_integer : (ℕ → Option ℤ) → Call → List Operand → Program
to_integer round call args = do n ← num_at call args 0; to_integer_of call round n
