-- ===== src/Host/Prop.antt =====
-- crates/host-core/src/prop.rs: the property context of an instance, and what `prop` answers.
-- The builtins, the rounding of floats and the CBOR encoder are arguments of the evaluation.
pub mod Types
pub mod Cache
pub mod Compile
pub mod Folded
mod Tests
use eieio.Base.{
  ℕ, suc, ◌+◌, ◌-◌, ◌^◌, min, ℤ, Bool, true, false, ◌&&◌, Option, none, some, List, [], ◌∷◌, ◌++◌,
  ltb, ◌==◌, if◌then◌else◌, Result, ok, err, Bytes, get_elem?, length, as_u32,
}
use eieio.Abi.{ErrorCode, invalid_arg, no_signal_context, not_found, code_value, signal_none}
use eieio.Signal.Value.{Entries}
use eieio.Expr.Syntax as Syntax
use eieio.Expr.Syntax.{Expr, Error}
use eieio.Host.Engine.{Arg, Ret}
use eieio.Host.Memory.{fill}
use eieio.Host.Prop.Types.{PropertyType}

-- A signal is its attributes, and a batch its signals.
abbrev pub Batch : Type 0
Batch = List Entries

-- `Answer`: the bytes of a value, or why there is none.
abbrev pub Answer : Type 0
Answer = Result Error Bytes

pub data Body : Type 0 where
  unset : Body
  per_signal : Expr → Body
  folded : Answer → Body

pub record Compiled : Type 0 where
  pub name : Bytes
  pub ty : PropertyType
  pub body : Body

pub record PropFailure : Type 0 where
  pub prop_id : ℕ
  pub signal : Option ℕ
  pub error : Error

pub record State : Type 0 where
  pub signals : Option Batch
  pub is_open : Bool
  pub cache : List ((ℕ × ℕ) × Answer)
  pub failures : List PropFailure
  pub evaluations : ℕ

pub record PropContext : Type 0 where
  pub props : List Compiled
  pub state : State

-- `code_for`
abbrev pub code_for : Error → ErrorCode
code_for e = elim e.code [ Syntax.no_signal ↦ no_signal_context | _ ↦ ErrorCode.expr ]

-- `served`
abbrev pub served : Answer → Result ErrorCode Bytes
served (ok bytes) = ok bytes
served (err e) = err (code_for e)

-- `State::signal_at`: no index for `SIGNAL_NONE`, and a refusal of an index outside the batch.
abbrev pub batch_len : Option Batch → ℕ
batch_len none = 0
batch_len (some batch) = length batch

unfoldable pub signal_at : Option Batch → ℕ → Result ErrorCode (Option ℕ)
signal_at signals signal_idx =
    if signal_idx == signal_none
    then ok none
    else if ltb signal_idx (batch_len signals)
    then ok (some signal_idx)
    else err invalid_arg

-- The signal at an index of the batch.
abbrev pub current : Option Batch → Option ℕ → Option Entries
current (some batch) (some index) = get_elem? batch index
current none index = none
current (some batch) none = none

-- `state.cache.get(&key)`
abbrev pub same_key : ℕ × ℕ → ℕ × ℕ → Bool
same_key (p, i) (q, j) = p == q && i == j

unfoldable pub cached : ℕ × ℕ → List ((ℕ × ℕ) × Answer) → Option Answer
cached key [] = none
cached key ((k, answer) ∷ cache) = if same_key k key then some answer else cached key cache

-- What a fresh evaluation leaves in the state.
abbrev pub failure_of : ℕ → Option ℕ → Answer → List PropFailure
failure_of prop_id signal (ok bytes) = []
failure_of prop_id signal (err e) = record { prop_id = prop_id; signal = signal; error = e } ∷ []

abbrev pub remember : ℕ × ℕ → Option ℕ → Answer → State → State
remember key signal answer state = record state {
  evaluations = min (state.evaluations + 1) (2 ^ 64 - 1);
  failures = state.failures ++ failure_of key.0 signal answer;
  cache = (key, answer) ∷ state.cache;
}

-- The arguments of `prop`.
abbrev pub four_i32 : List Arg → Option (ℤ × ℤ × ℤ × ℤ)
four_i32 (Arg.i32 a ∷ Arg.i32 b ∷ Arg.i32 c ∷ Arg.i32 d ∷ []) = some (a, b, c, d)
four_i32 _ = none

-- A folded answer is served for an index of the batch, and for none.
abbrev pub folded_answer : Answer → Result ErrorCode (Option ℕ) → Result ErrorCode Bytes
folded_answer answer (err code) = err code
folded_answer answer (ok signal) = served answer

-- `none` stands for an evaluation that has not ended within the model's fuel.
abbrev pub Evaluate : Type 0
Evaluate = Expr → PropertyType → Option Entries → Option Answer

module _ (evaluate : Evaluate) where
  -- A signal-dependent property, once the index is known to be one:
  unfoldable pub evaluated :
      ℕ × ℕ → Option ℕ → State → Option Answer → Option (Result ErrorCode Bytes × State)
  evaluated key signal state none = none
  evaluated key signal state (some answer) = some (served answer, remember key signal answer state)

  -- out of the cache, or evaluated now.
  unfoldable pub looked_up :
      Expr
      → PropertyType
      → ℕ × ℕ
      → Option ℕ
      → State
      → Option Answer
      → Option (Result ErrorCode Bytes × State)
  unfolding evaluated
  looked_up e ty key signal state (some answer) = some (served answer, state)
  looked_up e ty key signal state none =
      evaluated key signal state (evaluate e ty (current state.signals signal))

  unfoldable pub at_signal :
      Expr
      → PropertyType
      → ℕ × ℕ
      → State
      → Result ErrorCode (Option ℕ)
      → Option (Result ErrorCode Bytes × State)
  unfolding looked_up
  at_signal e ty key state (err code) = some (err code, state)
  at_signal e ty key state (ok signal) = looked_up e ty key signal state (cached key state.cache)

  -- `answer` for the property that the id names, by its body
  unfoldable pub answer_body :
      Body → PropertyType → ℕ → ℕ → State → Option (Result ErrorCode Bytes × State)
  unfolding at_signal
  answer_body unset ty prop_id signal_idx state = some (err not_found, state)
  answer_body (folded answer) ty prop_id signal_idx state =
      some (folded_answer answer (signal_at state.signals signal_idx), state)
  answer_body (per_signal e) ty prop_id signal_idx state =
      if signal_idx == signal_none
      then some (err no_signal_context, state)
      else at_signal e ty (prop_id, signal_idx) state (signal_at state.signals signal_idx)

  unfoldable pub answer_prop :
      Option Compiled → ℕ → ℕ → State → Option (Result ErrorCode Bytes × State)
  unfolding answer_body
  answer_prop none prop_id signal_idx state = some (err invalid_arg, state)
  answer_prop (some property) prop_id signal_idx state =
      if state.is_open
      then answer_body property.body property.ty prop_id signal_idx state
      else some (err invalid_arg, state)

  -- `answer`
  unfoldable pub answer : List Compiled → ℕ → ℕ → State → Option (Result ErrorCode Bytes × State)
  unfolding answer_prop
  answer props prop_id signal_idx state =
      answer_prop (get_elem? props prop_id) prop_id signal_idx state

  -- `call`: what the guest sees, its memory and the state.
  unfoldable pub replied :
      Bytes → ℕ → ℕ → Option (Result ErrorCode Bytes × State) → Option (Ret × Bytes × State)
  replied memory buf cap_len none = none
  replied memory buf cap_len (some (ok bytes, state)) =
      some (Ret.i32 (fill memory buf cap_len bytes).1, (fill memory buf cap_len bytes).0, state)
  replied memory buf cap_len (some (err code, state)) =
      some (Ret.i32 (code_value code), memory, state)

  unfoldable pub call : List Compiled → List Arg → Bytes → State → Option (Ret × Bytes × State)
  unfolding replied
  call props args memory state = elim (four_i32 args) [
    | none ↦ some (Ret.i32 (code_value invalid_arg), memory, state)
    | some (prop_id, signal_idx, buf, cap_len) ↦
        replied memory (as_u32 buf) (as_u32 cap_len)
          (answer props (as_u32 prop_id) (as_u32 signal_idx) state)
  ]

-- The scope of `during`: open before the callback, and closed by `Scope`'s `drop` after it.
unfoldable pub opened : Option Batch → State → State
opened signals state = record state { signals = signals; is_open = true }

unfoldable pub closed : State → State
closed state = record state { signals = none; is_open = false; cache = [] }

unfoldable pub take_failures : State → List PropFailure × State
take_failures state = (state.failures, record state { failures = [] })
