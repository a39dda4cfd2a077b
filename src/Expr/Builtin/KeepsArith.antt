-- ===== src/Expr/Builtin/KeepsArith.antt =====
-- About crates/expr/src/builtin/arith.rs and the predicates that a program may keep.
use eieio.Base.{
  ℕ, zero, suc, ◌-◌, refl, Bool, true, false, Option, none, some, List, [], ◌∷◌, ℤ, length, Result,
  ok, err, if◌then◌else◌, ltb, ◌==◌,
}
use eieio.Signal.Value.{Value, nests_deeper_than, encoded_len, int}
use eieio.Expr.Syntax.{
  Error, Message, EvalLimits, error, domain_error, size, depth, value_too_deep, value_too_large,
  rounded_too_large,
}
use eieio.Expr.Builtin.{Call}
use eieio.Expr.Program.{Operand, Task, Program, data_of, ret, fail, ◌>>=◌}
use eieio.Expr.Num.{
  Num, Floats, Order, whole, real, into_value, neg, sub, div, abs, floor_div, floor_mod,
  compare_nums,
}
use eieio.Expr.Builtin.Access.{arg_error, value_at, num_at, int_at, accept}
use eieio.Expr.Builtin.Arith.{
  number, or_domain, int_or_domain, fold_on, fold_from_first, fold, extreme_on, extreme,
  sub_builtin, div_builtin, int_div_builtin, int_mod_builtin, abs_builtin, to_integer,
  to_integer_of, rounded, is_order,
}
use eieio.Expr.Builtin.Collect.{constructed}
use eieio.Expr.Builtin.Reads.{Lawful, Keeps, then-Keeps, value_at-Fine, num_at-Fine, int_at-Fine}

module _ (V : Operand → Type 0) (T : Task → Type 0) (E : Error → Type 0) (laws : Lawful V T E) where
  abbrev pub Kept : Program → Type 0
  Kept p = Keeps V T E laws p

  pub constructed-Kept : (l : EvalLimits) (call : Call) (v : Value) → Kept (constructed l call v)
  unfolding accept
  constructed-Kept l call v =
      within (nests_deeper_than v l.max_depth) (ltb l.max_value_bytes (encoded_len v))
    where
      within :
          (deep large : Bool)
          → Kept (
              (if deep
                then err (error depth call.span value_too_deep)
                else if large
                then err (error size call.span value_too_large)
                else ok (data_of v))
              >>= ret)
      within true large = laws.of_error (error depth call.span value_too_deep) refl
      within false true = laws.of_error (error size call.span value_too_large) refl
      within false false = laws.of_value v

  pub if-Kept : (test : Bool) (p q : Program) → Kept p → Kept q → Kept (if test then p else q)
  if-Kept true p q hp hq = hp
  if-Kept false p q hp hq = hq

  pub with_value :
      (call : Call) (args : List Operand) (i : ℕ) (k : Value → Program)
      → ((v : Value) → Kept (k v))
      → Kept (value_at call args i >>= k)
  with_value call args i k h =
      then-Keeps V T E laws (value_at call args i) k (value_at-Fine V T E laws call args i) h

  pub with_num :
      (call : Call) (args : List Operand) (i : ℕ) (k : Num → Program)
      → ((n : Num) → Kept (k n))
      → Kept (num_at call args i >>= k)
  with_num call args i k h =
      then-Keeps V T E laws (num_at call args i) k (num_at-Fine V T E laws call args i) h

  pub with_int :
      (call : Call) (args : List Operand) (i : ℕ) (k : ℤ → Program)
      → ((n : ℤ) → Kept (k n))
      → Kept (int_at call args i >>= k)
  with_int call args i k h =
      then-Keeps V T E laws (int_at call args i) k (int_at-Fine V T E laws call args i) h

  pub number-Kept : (n : Num) → Kept (number n)
  number-Kept n = laws.of_value (into_value n)

  pub or_domain-Kept : (call : Call) (i : ℕ) (r : Result Message Num) → Kept (or_domain call i r)
  or_domain-Kept call i (ok n) = number-Kept n
  or_domain-Kept call i (err m) = laws.of_error (arg_error call i domain_error m) refl

  pub int_or_domain-Kept :
      (call : Call) (i : ℕ) (r : Result Message ℤ) → Kept (int_or_domain call i r)
  int_or_domain-Kept call i (ok n) = laws.of_value (int n)
  int_or_domain-Kept call i (err m) = laws.of_error (arg_error call i domain_error m) refl

  pub go_on-Kept :
      (call : Call) (i : ℕ) (r : Result Message Num) (k : Num → Program)
      → ((n : Num) → Kept (k n))
      → Kept (elim r [ ok next ↦ k next | err m ↦ fail (arg_error call i domain_error m) ])
  go_on-Kept call i (ok n) k h = h n
  go_on-Kept call i (err m) k h = laws.of_error (arg_error call i domain_error m) refl

  pub fold_on-Kept :
      (op : Num → Num → Result Message Num) (call : Call) (args : List Operand) (left i : ℕ)
      (acc : Num)
      → Kept (fold_on op call args left i acc)
  unfolding fold_on
  fold_on-Kept op call args zero i acc = number-Kept acc
  fold_on-Kept op call args (suc left) i acc =
      with_num call args i
        (λ operand. elim (op acc operand) [
          | ok next ↦ fold_on op call args left (suc i) next
          | err m ↦ fail (arg_error call i domain_error m)
        ])
        (λ operand.
          go_on-Kept call i (op acc operand) (λ next. fold_on op call args left (suc i) next)
            (λ next. fold_on-Kept op call args left (suc i) next))

  pub fold_from_first-Kept :
      (op : Num → Num → Result Message Num) (call : Call) (args : List Operand)
      → Kept (fold_from_first op call args)
  unfolding fold_from_first
  fold_from_first-Kept op call args =
      with_num call args 0 (λ first. fold_on op call args (length args - 1) 1 first)
        (λ first. fold_on-Kept op call args (length args - 1) 1 first)

  pub fold-Kept :
      (identity : Num) (op : Num → Num → Result Message Num) (call : Call) (args : List Operand)
      → Kept (fold identity op call args)
  fold-Kept identity op call [] = number-Kept identity
  fold-Kept identity op call (a ∷ args) = fold_from_first-Kept op call (a ∷ args)

  pub extreme_on-Kept :
      (F : Floats) (keep : Order) (call : Call) (args : List Operand) (left i : ℕ) (best : Num)
      → Kept (extreme_on F keep call args left i best)
  unfolding extreme_on
  extreme_on-Kept F keep call args zero i best = number-Kept best
  extreme_on-Kept F keep call args (suc left) i best =
      with_num call args i
        (λ n.
          extreme_on F keep call args left (suc i)
            (if is_order (compare_nums F n best) keep then n else best))
        (λ n.
          extreme_on-Kept F keep call args left (suc i)
            (if is_order (compare_nums F n best) keep then n else best))

  pub extreme-Kept :
      (F : Floats) (keep : Order) (call : Call) (args : List Operand)
      → Kept (extreme F keep call args)
  unfolding extreme
  extreme-Kept F keep call args =
      with_num call args 0 (λ n. extreme_on F keep call args (length args - 1) 1 n)
        (λ n. extreme_on-Kept F keep call args (length args - 1) 1 n)

  pub sub_builtin-Kept :
      (F : Floats) (call : Call) (args : List Operand) → Kept (sub_builtin F call args)
  unfolding sub_builtin
  sub_builtin-Kept F call args =
      with_num call args 0
        (λ n.
          if length args == 1 then or_domain call 0 (neg n) else fold_from_first (sub F) call args)
        (λ n.
          if-Kept (length args == 1) (or_domain call 0 (neg n)) (fold_from_first (sub F) call args)
            (or_domain-Kept call 0 (neg n)) (fold_from_first-Kept (sub F) call args))

  pub div_builtin-Kept :
      (F : Floats) (call : Call) (args : List Operand) → Kept (div_builtin F call args)
  unfolding div_builtin
  div_builtin-Kept F call args =
      with_num call args 0 (λ a. num_at call args 1 >>= λ b. or_domain call 1 (div F a b))
        (λ a.
          with_num call args 1 (λ b. or_domain call 1 (div F a b))
            (λ b. or_domain-Kept call 1 (div F a b)))

  -- An operation of two integers.
  pub with_ints :
      (call : Call) (args : List Operand) (k : ℤ → ℤ → Program)
      → ((a b : ℤ) → Kept (k a b))
      → Kept (int_at call args 0 >>= λ a. int_at call args 1 >>= λ b. k a b)
  with_ints call args k h =
      with_int call args 0 (λ a. int_at call args 1 >>= λ b. k a b)
        (λ a. with_int call args 1 (λ b. k a b) (λ b. h a b))

  pub int_div_builtin-Kept : (call : Call) (args : List Operand) → Kept (int_div_builtin call args)
  unfolding int_div_builtin
  int_div_builtin-Kept call args =
      with_ints call args (λ a b. int_or_domain call 1 (floor_div a b))
        (λ a b. int_or_domain-Kept call 1 (floor_div a b))

  pub int_mod_builtin-Kept : (call : Call) (args : List Operand) → Kept (int_mod_builtin call args)
  unfolding int_mod_builtin
  int_mod_builtin-Kept call args =
      with_ints call args (λ a b. int_or_domain call 1 (floor_mod a b))
        (λ a b. int_or_domain-Kept call 1 (floor_mod a b))

  pub abs_builtin-Kept : (call : Call) (args : List Operand) → Kept (abs_builtin call args)
  unfolding abs_builtin
  abs_builtin-Kept call args =
      with_num call args 0 (λ n. or_domain call 0 (abs n)) (λ n. or_domain-Kept call 0 (abs n))

  pub rounded-Kept : (call : Call) (o : Option ℤ) → Kept (rounded call o)
  rounded-Kept call none = laws.of_error (arg_error call 0 domain_error rounded_too_large) refl
  rounded-Kept call (some n) = laws.of_value (int n)

  pub to_integer_of-Kept :
      (call : Call) (round : ℕ → Option ℤ) (n : Num) → Kept (to_integer_of call round n)
  to_integer_of-Kept call round (whole n) = laws.of_value (int n)
  to_integer_of-Kept call round (real f) = rounded-Kept call (round f)

  pub to_integer-Kept :
      (round : ℕ → Option ℤ) (call : Call) (args : List Operand) → Kept (to_integer round call args)
  unfolding to_integer
  to_integer-Kept round call args =
      with_num call args 0 (λ n. to_integer_of call round n) (λ n. to_integer_of-Kept call round n)
