-- ===== src/Host/State.antt =====
-- crates/host-core/src/state.rs: the three imports of `eio:state` over a host's store.
pub mod PutGet
mod Tests
use eieio.Base.{ℕ, ℤ, pos, Option, none, some, List, [], ◌∷◌, Result, ok, err, Bytes, as_u32}
use eieio.Abi.{ErrorCode, invalid_arg, not_found, code_value}
use eieio.Host.Engine.{Arg, Ret, EngineError, read}
use eieio.Host.Memory.{fill}

pub data StateError : Type 0 where
  throttled io : StateError

-- The `StateStore` trait, already scoped to one instance.
pub record StateStore (S : Type 0) : Type 0 where
  pub get : S → Bytes → S × Result StateError (Option Bytes)
  pub put : S → Bytes → Bytes → S × Result StateError (Unit {0})
  pub del : S → Bytes → S × Result StateError (Unit {0})

-- `StateError::as_code`
abbrev pub as_code : StateError → ErrorCode
as_code throttled = ErrorCode.throttled
as_code io = ErrorCode.io

-- The arguments of a call that takes four, or two, `i32`s; anything else is refused.
abbrev pub four_i32 : List Arg → Option (ℤ × ℤ × ℤ × ℤ)
four_i32 (Arg.i32 a ∷ Arg.i32 b ∷ Arg.i32 c ∷ Arg.i32 d ∷ []) = some (a, b, c, d)
four_i32 _ = none

abbrev pub two_i32 : List Arg → Option (ℤ × ℤ)
two_i32 (Arg.i32 a ∷ Arg.i32 b ∷ []) = some (a, b)
two_i32 _ = none

abbrev pub refusal : ErrorCode → Ret
refusal code = Ret.i32 (code_value code)

abbrev pub invalid : Ret
invalid = refusal invalid_arg

-- The status a guest sees of a write.
abbrev pub status_of : Result StateError (Unit {0}) → Ret
status_of (ok _) = Ret.i32 (pos 0)
status_of (err e) = refusal (as_code e)

-- What a guest sees of a read: the answer of the store, put into its buffer.
unfoldable pub served : Bytes → ℕ → ℕ → Result StateError (Option Bytes) → Ret × Bytes
served memory buf cap (ok none) = (refusal not_found, memory)
served memory buf cap (ok (some value)) =
    (Ret.i32 (fill memory buf cap value).1, (fill memory buf cap value).0)
served memory buf cap (err e) = (refusal (as_code e), memory)

-- A call's result is what the guest sees, its memory, and the store.
module _ {S : Type 0} (store : StateStore S) where
  -- `get`, once the store has answered,
  unfoldable pub got : Bytes → ℕ → ℕ → S × Result StateError (Option Bytes) → Ret × Bytes × S
  unfolding served
  got memory buf cap_len (s, answer) =
      let (ret, memory') = served memory buf cap_len answer in (ret, memory', s)

  -- and once its key has been read.
  unfoldable pub get_at : Bytes → S → ℕ → ℕ → Result EngineError Bytes → Ret × Bytes × S
  unfolding got
  get_at memory s buf cap_len (err _) = (invalid, memory, s)
  get_at memory s buf cap_len (ok key) = got memory buf cap_len (store.get s key)

  -- `get`
  unfoldable pub get : List Arg → Bytes → S → Ret × Bytes × S
  unfolding get_at
  get args memory s = elim (four_i32 args) [
    | none ↦ (invalid, memory, s)
    | some (key, key_len, buf, cap_len) ↦
        get_at memory s (as_u32 buf) (as_u32 cap_len) (read memory (as_u32 key) (as_u32 key_len))
  ]

  unfoldable pub put_answered : Bytes → S × Result StateError (Unit {0}) → Ret × Bytes × S
  put_answered memory (s, answer) = (status_of answer, memory, s)

  -- `put`, once the key and the value have been read
  unfoldable pub put_at :
      Bytes → S → Result EngineError Bytes → Result EngineError Bytes → Ret × Bytes × S
  unfolding put_answered
  put_at memory s (err _) value = (invalid, memory, s)
  put_at memory s (ok key) (err _) = (invalid, memory, s)
  put_at memory s (ok key) (ok value) = put_answered memory (store.put s key value)

  -- `put`
  unfoldable pub put : List Arg → Bytes → S → Ret × Bytes × S
  unfolding put_at
  put args memory s = elim (four_i32 args) [
    | none ↦ (invalid, memory, s)
    | some (key, key_len, val, val_len) ↦
        put_at memory s (read memory (as_u32 key) (as_u32 key_len))
          (read memory (as_u32 val) (as_u32 val_len))
  ]

  unfoldable pub del_at : Bytes → S → Result EngineError Bytes → Ret × Bytes × S
  unfolding put_answered
  del_at memory s (err _) = (invalid, memory, s)
  del_at memory s (ok key) = put_answered memory (store.del s key)

  -- `del`
  unfoldable pub del : List Arg → Bytes → S → Ret × Bytes × S
  unfolding del_at
  del args memory s = elim (two_i32 args) [
    | none ↦ (invalid, memory, s)
    | some (key, key_len) ↦ del_at memory s (read memory (as_u32 key) (as_u32 key_len))
  ]
