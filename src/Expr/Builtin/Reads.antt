-- ===== src/Expr/Builtin/Reads.antt =====
-- About the reads of a builtin's arguments (`Call` of crates/expr/src/builtin/mod.rs), and which
-- predicates the builtins are to keep.
use eieio.Base.{
  ℕ, zero, suc, ◌≡◌, refl, Bool, true, false, Option, none, some, List, [], ◌∷◌, All, ℤ, pos,
  negsuc, Result, ok, err,
}
use eieio.Signal.Value.{Value, null, bool, int, float, str, bytes, array, map}
use eieio.Expr.Syntax.{
  Error, ErrorCode, unbound, type_error, domain_error, function_as_value, needs_number,
  needs_integer, not_negative, needs_string, needs_array, needs_map,
}
use eieio.Expr.Builtin.{Call}
use eieio.Expr.Program.{Operand, Function, Task, Program, data_of, function, applying, ◌>>=◌}
use eieio.Expr.Eval.Obeys.{Obeys}
use eieio.Expr.Num.{Num, num_of}
use eieio.Expr.Builtin.Access.{
  arg_error, nth_operand, value_or, value_at, number_of, num_at, int_of, int_at, count_of, count_at,
  text_of, text_at, array_of, array_at, dict_of, dict_at,
}

abbrev pub is_unbound_code : ErrorCode → Bool
is_unbound_code code = elim code [ unbound ↦ true | _ ↦ false ]

abbrev pub is_unbound : Error → Bool
is_unbound e = is_unbound_code e.code

module _ (V : Operand → Type 0) (T : Task → Type 0) (E : Error → Type 0) where
  -- What the predicates have to hold of.
  pub record Lawful : Type 0 where
    pub of_value : (v : Value) → V (data_of v)
    pub of_error : (e : Error) → is_unbound e ≡ false → E e
    pub of_call :
        (f : Function) (args : List Operand) (call : Call)
        → V (function f)
        → All V args
        → T (applying f args call)

  module _ (laws : Lawful) where
    abbrev pub Keeps : Program → Type 0
    Keeps p = Obeys V T E p

    -- A result whose error is allowed.
    abbrev pub Fine {ℓ} : {A : Type ℓ} → Result Error A → Type 0
    Fine (ok a) = Unit
    Fine (err e) = E e

    pub then-Keeps :
        {A : Type 0} (r : Result Error A) (k : A → Program)
        → Fine r
        → ((a : A) → Keeps (k a))
        → Keeps (r >>= k)
    then-Keeps (ok a) k h hk = hk a
    then-Keeps (err e) k h hk = h

    -- An argument read: the operand's value, and then a part of it.
    pub read-Fine {ℓ} :
        {A : Type ℓ} {B : Type ℓ} (r : Result Error A) (f : A → Result Error B)
        → Fine r
        → ((a : A) → Fine (f a))
        → Fine (elim r [ err e ↦ err e | ok a ↦ f a ])
    read-Fine (ok a) f h hf = hf a
    read-Fine (err e) f h hf = h

    pub value_or-Fine : (e : Error) (a : Operand) → is_unbound e ≡ false → Fine (value_or e a)
    value_or-Fine e (data_of v) h = tt
    value_or-Fine e (function f) h = laws.of_error e h

    pub value_at-Fine : (call : Call) (args : List Operand) (i : ℕ) → Fine (value_at call args i)
    value_at-Fine call args i =
        value_or-Fine (arg_error call i type_error function_as_value) (nth_operand args i) refl

    pub number_of-Fine :
        (e : Error) (o : Option Num) → E e → Fine (elim o [ none ↦ err e | some n ↦ ok n ])
    number_of-Fine e none h = h
    number_of-Fine e (some n) h = tt

    pub num_at-Fine : (call : Call) (args : List Operand) (i : ℕ) → Fine (num_at call args i)
    num_at-Fine call args i =
        read-Fine (value_at call args i) (number_of (arg_error call i type_error needs_number))
          (value_at-Fine call args i)
          (λ v.
            number_of-Fine (arg_error call i type_error needs_number) (num_of v)
              (laws.of_error (arg_error call i type_error needs_number) refl))

    pub int_of-Fine : (e : Error) (v : Value) → E e → Fine (int_of e v)
    int_of-Fine e null h = h
    int_of-Fine e (bool b) h = h
    int_of-Fine e (int n) h = tt
    int_of-Fine e (float f) h = h
    int_of-Fine e (str s) h = h
    int_of-Fine e (bytes b) h = h
    int_of-Fine e (array items) h = h
    int_of-Fine e (map entries) h = h

    pub int_at-Fine : (call : Call) (args : List Operand) (i : ℕ) → Fine (int_at call args i)
    int_at-Fine call args i =
        read-Fine (value_at call args i) (int_of (arg_error call i type_error needs_integer))
          (value_at-Fine call args i)
          (λ v.
            int_of-Fine (arg_error call i type_error needs_integer) v
              (laws.of_error (arg_error call i type_error needs_integer) refl))

    pub text_of-Fine : (e : Error) (v : Value) → E e → Fine (text_of e v)
    text_of-Fine e null h = h
    text_of-Fine e (bool b) h = h
    text_of-Fine e (int n) h = h
    text_of-Fine e (float f) h = h
    text_of-Fine e (str s) h = tt
    text_of-Fine e (bytes b) h = h
    text_of-Fine e (array items) h = h
    text_of-Fine e (map entries) h = h

    pub text_at-Fine : (call : Call) (args : List Operand) (i : ℕ) → Fine (text_at call args i)
    text_at-Fine call args i =
        read-Fine (value_at call args i) (text_of (arg_error call i type_error needs_string))
          (value_at-Fine call args i)
          (λ v.
            text_of-Fine (arg_error call i type_error needs_string) v
              (laws.of_error (arg_error call i type_error needs_string) refl))

    pub array_of-Fine : (e : Error) (v : Value) → E e → Fine (array_of e v)
    array_of-Fine e null h = h
    array_of-Fine e (bool b) h = h
    array_of-Fine e (int n) h = h
    array_of-Fine e (float f) h = h
    array_of-Fine e (str s) h = h
    array_of-Fine e (bytes b) h = h
    array_of-Fine e (array items) h = tt
    array_of-Fine e (map entries) h = h

    pub array_at-Fine : (call : Call) (args : List Operand) (i : ℕ) → Fine (array_at call args i)
    array_at-Fine call args i =
        read-Fine (value_at call args i) (array_of (arg_error call i type_error needs_array))
          (value_at-Fine call args i)
          (λ v.
            array_of-Fine (arg_error call i type_error needs_array) v
              (laws.of_error (arg_error call i type_error needs_array) refl))

    pub dict_of-Fine : (e : Error) (v : Value) → E e → Fine (dict_of e v)
    dict_of-Fine e null h = h
    dict_of-Fine e (bool b) h = h
    dict_of-Fine e (int n) h = h
    dict_of-Fine e (float f) h = h
    dict_of-Fine e (str s) h = h
    dict_of-Fine e (bytes b) h = h
    dict_of-Fine e (array items) h = h
    dict_of-Fine e (map entries) h = tt

    pub dict_at-Fine : (call : Call) (args : List Operand) (i : ℕ) → Fine (dict_at call args i)
    dict_at-Fine call args i =
        read-Fine (value_at call args i) (dict_of (arg_error call i type_error needs_map))
          (value_at-Fine call args i)
          (λ v.
            dict_of-Fine (arg_error call i type_error needs_map) v
              (laws.of_error (arg_error call i type_error needs_map) refl))

    count_of-Fine : (e : Error) (n : ℤ) → E e → Fine (count_of e n)
    count_of-Fine e (pos n) h = tt
    count_of-Fine e (negsuc n) h = h

    pub count_at-Fine : (call : Call) (args : List Operand) (i : ℕ) → Fine (count_at call args i)
    count_at-Fine call args i =
        read-Fine (int_at call args i) (count_of (arg_error call i domain_error not_negative))
          (int_at-Fine call args i)
          (λ n.
            count_of-Fine (arg_error call i domain_error not_negative) n
              (laws.of_error (arg_error call i domain_error not_negative) refl))

    pub nth_operand-kept : (args : List Operand) (i : ℕ) → All V args → V (nth_operand args i)
    nth_operand-kept [] i h = laws.of_value null
    nth_operand-kept (a ∷ args) zero h = h.0
    nth_operand-kept (a ∷ args) (suc i) h = nth_operand-kept args i h.1
