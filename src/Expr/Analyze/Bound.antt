-- ===== src/Expr/Analyze/Bound.antt =====
-- About the operands, environments and programs that may still run what the walk of
-- crates/expr/src/analyze.rs has seen.
use mathlib.Core.Option.{some-injective}
use eieio.Base.{
  ◌≡◌, ◌⊎◌, inl, inr, refl, subst, Bool, true, false, ◌||◌, some, List, [], ◌∷◌, ◌++◌, Bytes,
  text_eq, text_eq→eq, text_eq_refl, arith, All, if◌then◌else◌, Bool-cases,
}
use eieio.Expr.Syntax.{Error}
use eieio.Expr.Program.{
  Operand, Function, Env, Task, Program, data_of, function, closure, builtin, root, bind, evaluate,
  applying, find_binding,
}
use eieio.Expr.Eval.Obeys.{Obeys}
use eieio.Expr.Builtin.Reads.{is_unbound}
use eieio.Expr.Analyze.{contains, walk}

abbrev pub Found : Env → Bytes → Type 0
Found env n = (a : Operand) × (find_binding env n ≡ some a)

-- Every name of the scope is bound.
abbrev pub Covers : List Bytes → Env → Type 0
Covers scope env = (n : Bytes) → contains scope n ≡ true → Found env n

-- A closure's body was walked in a scope whose names are its parameters or bound where it was made.
abbrev mutual
  pub BoundOperand : Operand → Type 0
  BoundOperand (data_of v) = Unit
  BoundOperand (function f) = BoundFunction f

  pub BoundFunction : Function → Type 0
  BoundFunction (builtin e) = Unit
  BoundFunction (closure params body env) =
      ((scope : List Bytes) × ((n : Bytes)
          → contains scope n ≡ true
          → Found env n ⊎ (contains params n ≡ true))
        × (walk body scope ≡ []))
      × BoundEnv env

  pub BoundEnv : Env → Type 0
  BoundEnv root = Unit
  BoundEnv (bind n a env) = BoundOperand a × BoundEnv env

-- An environment that covers a scope and holds bound operands only.
abbrev pub Ready : List Bytes → Env → Type 0
Ready scope env = Covers scope env × BoundEnv env

abbrev pub BoundTask : Task → Type 0
BoundTask (evaluate e env) = (scope : List Bytes) × Ready scope env × (walk e scope ≡ [])
BoundTask (applying f args call) = BoundFunction f × All BoundOperand args

abbrev pub NotUnbound : Error → Type 0
NotUnbound e = is_unbound e ≡ false

abbrev pub BoundProgram : Program → Type 0
BoundProgram p = Obeys BoundOperand BoundTask NotUnbound p

pub append-parts : {A : Type 0} (xs ys : List A) → xs ++ ys ≡ [] → (xs ≡ []) × (ys ≡ [])
append-parts [] ys h = (refl, h)
append-parts (x ∷ xs) ys h = absurd (ground arith)

pub contains_append :
    (xs : List Bytes) (m n : Bytes)
    → contains (xs ++ m ∷ []) n ≡ true
    → (contains xs n ≡ true) ⊎ (text_eq n m ≡ true)
contains_append [] m n h = inr (or_nil (text_eq n m) h)
  where
    or_nil : (a : Bool) → (a || false) ≡ true → a ≡ true
    or_nil true h = refl
    or_nil false h = h
contains_append (x ∷ xs) m n h = split (text_eq n x) h (λ h'. contains_append xs m n h')
  where
    split :
        (a : Bool)
        → (a || contains (xs ++ m ∷ []) n) ≡ true
        → (contains (xs ++ m ∷ []) n ≡ true → (contains xs n ≡ true) ⊎ (text_eq n m ≡ true))
        → ((a || contains xs n) ≡ true) ⊎ (text_eq n m ≡ true)
    split true h k = inl refl
    split false h k = k h

-- A binding keeps what was found, and its own name is found.
pub Found-bind : (env : Env) (m n : Bytes) (a : Operand) → Found env n → Found (bind m a env) n
Found-bind env m n a (b, e) = shadow (text_eq m n)
  where
    shadow :
        (test : Bool) → (c : Operand) × ((if test then some a else find_binding env n) ≡ some c)
    shadow true = (a, refl)
    shadow false = (b, e)

pub Found-here :
    (env : Env) (m n : Bytes) (a : Operand) → text_eq m n ≡ true → Found (bind m a env) n
Found-here env m n a h = (a, rw h refl)

pub text_eq_sym : (m n : Bytes) → text_eq m n ≡ true → text_eq n m ≡ true
text_eq_sym m n h = subst (λ k. text_eq k m ≡ true) (text_eq→eq m n h) (text_eq_refl m)

pub Ready-bind :
    (scope : List Bytes) (env : Env) (m : Bytes) (a : Operand)
    → Ready scope env
    → BoundOperand a
    → Ready (scope ++ m ∷ []) (bind m a env)
Ready-bind scope env m a h ha = ((λ n hn. either n (contains_append scope m n hn)), (ha, h.1))
  where
    either : (n : Bytes) → (contains scope n ≡ true) ⊎ (text_eq n m ≡ true) → Found (bind m a env) n
    either n (inl old) = Found-bind env m n a (h.0 n old)
    either n (inr new) = Found-here env m n a (text_eq_sym n m new)

pub find_binding-Bound :
    (env : Env) (n : Bytes) (a : Operand)
    → BoundEnv env
    → find_binding env n ≡ some a
    → BoundOperand a
find_binding-Bound root n a h e = absurd (ground arith)
find_binding-Bound (bind m b env) n a h e = elim (Bool-cases (text_eq m n)) [
  | inl same ↦ subst BoundOperand (some-injective b a (rw same at e)) h.0
  | inr other ↦ find_binding-Bound env n a h.1 (rw other at e)
]
