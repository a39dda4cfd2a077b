-- ===== src/Host/CoreFns.antt =====
-- crates/host-core/src/core_fns.rs: `log`, `emit`, `error`, the clocks and `rand` of `eio:core`.
-- The batch decoder, the lossy reading of texts, the clock and the entropy are arguments.
pub mod Emitting
pub mod Filling
mod Tests
use eieio.Base.{
  ℕ, zero, suc, ◌+◌, ◌-◌, ◌/◌, ◌%◌, ◌^◌, min, ℤ, pos, Bool, true, false, Option, none, some, List,
  [], ◌∷◌, ◌++◌, ltb, ◌==◌, if◌then◌else◌, Result, ok, err, ◌>>=◌, Bytes, codes, as_u32, length,
}
use eieio.Abi.{ErrorCode, invalid_arg, io, code_value, Level, level_of, Status, decode_status}
use eieio.Host.Engine.{Arg, Ret, EngineError, read, write}
use eieio.Host.Memory.{Limits, accept}

-- The arguments of a call that takes three, or two, `i32`s.
abbrev pub three_i32 : List Arg → Option (ℤ × ℤ × ℤ)
three_i32 (Arg.i32 a ∷ Arg.i32 b ∷ Arg.i32 c ∷ []) = some (a, b, c)
three_i32 _ = none

abbrev pub two_i32 : List Arg → Option (ℤ × ℤ)
two_i32 (Arg.i32 a ∷ Arg.i32 b ∷ []) = some (a, b)
two_i32 _ = none

pub record Emission (B : Type 0) : Type 0 where
  pub port : ℕ
  pub batch : B

pub record LogLine : Type 0 where
  pub level : Level
  pub message : Bytes

pub record Detail : Type 0 where
  pub status : Status
  pub message : Bytes

-- `Shared`: `decode_depth` is that of its budgets, and the clock's two readings are its state.
pub record Shared (B : Type 0) : Type 0 where
  pub limits : Limits
  pub decode_depth : ℕ
  pub outputs : ℕ
  pub unix_ms : ℤ
  pub mono_ms : ℤ
  pub emissions : List (Emission B)
  pub held : ℕ
  pub logs : List LogLine
  pub details : List Detail

-- The text of a log line or of a detail, as `from_utf8_lossy` reads it.
abbrev pub message_of : (Bytes → Bytes) → Bytes → Result EngineError Bytes → Bytes
message_of lossy outside (ok bytes) = lossy bytes
message_of lossy outside (err _) = outside

-- A refusal of the memory is a bad argument.
abbrev pub payload_of : Result EngineError Bytes → Result ErrorCode Bytes
payload_of (ok bytes) = ok bytes
payload_of (err _) = err invalid_arg

module _ {B : Type 0} where
  -- `Core::new`
  pub new : Limits → ℕ → ℕ → ℤ → ℤ → Shared B
  new limits decode_depth outputs unix_ms mono_ms = record {
    limits = limits;
    decode_depth = decode_depth;
    outputs = outputs;
    unix_ms = unix_ms;
    mono_ms = mono_ms;
    emissions = [];
    held = 0;
    logs = [];
    details = [];
  }

  -- `take_emissions`, `take_logs` and `take_details`
  unfoldable pub take_emissions : Shared B → List (Emission B) × Shared B
  take_emissions shared = (shared.emissions, record shared { emissions = []; held = 0 })

  unfoldable pub take_logs : Shared B → List LogLine × Shared B
  take_logs shared = (shared.logs, record shared { logs = [] })

  unfoldable pub take_details : Shared B → List Detail × Shared B
  take_details shared = (shared.details, record shared { details = [] })

  -- `time_unix_ms` and `time_mono_ms`, as `register` answers them
  unfoldable pub time_unix_ms : Shared B → Ret
  time_unix_ms shared = Ret.i64 shared.unix_ms

  unfoldable pub time_mono_ms : Shared B → Ret
  time_mono_ms shared = Ret.i64 shared.mono_ms

  -- `log`
  unfoldable pub log : (Bytes → Bytes) → List Arg → Bytes → Shared B → Ret × Shared B
  log lossy args memory shared = elim (three_i32 args) [
    | none ↦ (Ret.nothing, shared)
    | some (level, ptr, len) ↦ (
      Ret.nothing,
      record shared {
        logs =
            shared.logs
            ++ record {
              level = level_of level;
              message =
                  message_of lossy (codes "<message outside the guest's linear memory>")
                    (read memory (as_u32 ptr) (as_u32 len));
            }
              ∷ [];
      },
    )
  ]

  -- `error`
  unfoldable pub error : (Bytes → Bytes) → List Arg → Bytes → Shared B → Ret × Shared B
  error lossy args memory shared = elim (three_i32 args) [
    | none ↦ (Ret.nothing, shared)
    | some (code, ptr, len) ↦ (
      Ret.nothing,
      record shared {
        details =
            shared.details
            ++ record {
              status = decode_status code;
              message =
                  message_of lossy (codes "<detail outside the guest's linear memory>")
                    (read memory (as_u32 ptr) (as_u32 len));
            }
              ∷ [];
      },
    )
  ]

  -- `Outbound::decode`
  abbrev pub decoded : Option B → Result ErrorCode B
  decoded (some batch) = ok batch
  decoded none = err invalid_arg

  -- The closure of `emit`: what is emitted, or the code of its refusal.
  unfoldable pub emission :
      (Bytes → ℕ → Option B) → ℕ → ℕ → ℕ → Bytes → Shared B → Result ErrorCode (Emission B)
  emission decode port ptr len memory shared = do
    accepted ← accept port len shared.outputs shared.limits shared.held
    bytes ← payload_of (read memory ptr len)
    batch ← decoded (decode bytes shared.decode_depth)
    ok (record { port = accepted; batch = batch })

  -- What becomes of it.
  unfoldable pub enqueue : ℕ → Shared B → Result ErrorCode (Emission B) → Ret × Shared B
  enqueue len shared (ok e) = (
    Ret.i32 (pos 0),
    record shared {
      held = min (shared.held + len) (2 ^ 32 - 1);
      emissions = shared.emissions ++ e ∷ [];
    },
  )
  enqueue len shared (err code) = (Ret.i32 (code_value code), shared)

  -- `emit`, once its arguments are read
  unfoldable pub emit_words :
      (Bytes → ℕ → Option B) → Bytes → Shared B → Option (ℤ × ℤ × ℤ) → Ret × Shared B
  unfolding enqueue
  emit_words decode memory shared none = (Ret.i32 (code_value invalid_arg), shared)
  emit_words decode memory shared (some (port, ptr, len)) =
      enqueue (as_u32 len) shared
        (emission decode (as_u32 port) (as_u32 ptr) (as_u32 len) memory shared)

  -- `emit`
  unfoldable pub emit : (Bytes → ℕ → Option B) → List Arg → Bytes → Shared B → Ret × Shared B
  unfolding emit_words
  emit decode args memory shared = emit_words decode memory shared (three_i32 args)

-- The `Entropy` trait: the bytes that fill a buffer of that length.
pub record Entropy (R : Type 0) : Type 0 where
  pub fill : R → ℕ → R × Result (Unit {0}) Bytes

abbrev pub chunk_size : ℕ
chunk_size = 4096

module _ {R : Type 0} (entropy : Entropy R) where
  -- What a call of `rand` leaves: its answer, the guest's memory and the source.
  abbrev pub Filled : Type 0
  Filled = ℤ × Bytes × R

  -- One chunk, once it is written,
  unfoldable pub rand_wrote :
      (R → Bytes → Option Filled) → Bytes → R → Result EngineError Bytes → Option Filled
  rand_wrote go_on memory r (err _) = some (code_value invalid_arg, memory, r)
  rand_wrote go_on memory r (ok memory') = go_on r memory'

  -- and once its bytes are drawn.
  unfoldable pub rand_drew :
      (R → Bytes → Option Filled) → Bytes → ℕ → R × Result (Unit {0}) Bytes → Option Filled
  unfolding rand_wrote
  rand_drew go_on memory at (r, err _) = some (code_value io, memory, r)
  rand_drew go_on memory at (r, ok chunk) = rand_wrote go_on memory r (write memory at chunk)

  -- The loop of `rand` from `written` on; `none`: the fuel ran out.
  unfoldable pub rand_loop : ℕ → ℕ → ℕ → ℕ → R → Bytes → Option Filled
  unfolding rand_drew
  rand_loop zero buf len written r memory = none
  rand_loop (suc fuel) buf len written r memory =
      let taken = min chunk_size (len - written) in
      let chunk =
        rand_drew (rand_loop fuel buf len (written + taken)) memory ((buf + written) % 2 ^ 32)
          (entropy.fill r taken) in
      if ltb written len then chunk else some (pos 0, memory, r)

  -- The body of `rand` on its two words: the last byte of the range is read first.
  unfoldable pub rand_probed : ℕ → ℕ → ℕ → R → Bytes → Result EngineError Bytes → Option Filled
  rand_probed fuel buf len r memory (err _) = some (code_value invalid_arg, memory, r)
  rand_probed fuel buf len r memory (ok _) = rand_loop fuel buf len 0 r memory

  unfoldable pub rand_words : ℕ → ℕ → ℕ → R → Bytes → Option Filled
  unfolding rand_probed
  rand_words fuel buf len r memory =
      let last = buf + len - 1 in
      if len == 0
      then some (pos 0, memory, r)
      else if ltb (2 ^ 32 - 1) last
      then some (code_value invalid_arg, memory, r)
      else rand_probed fuel buf len r memory (read memory last 1)

  -- `rand`
  unfoldable pub rand : ℕ → List Arg → R → Bytes → Option Filled
  unfolding rand_words
  rand fuel args r memory = elim (two_i32 args) [
    | none ↦ some (code_value invalid_arg, memory, r)
    | some (buf, len) ↦ rand_words fuel (as_u32 buf) (as_u32 len) r memory
  ]
