-- ===== src/Host/Memory.antt =====
-- crates/host-core/src/memory.rs (with `Limits` of descriptor.rs and the `Engine` trait of
-- engine.rs): payloads into the guest, the refusals of an emission, and the guest's out-buffers.
pub mod Fill
use eieio.Base.{
  ℕ, zero, suc, ◌+◌, ◌-◌, ◌/◌, ◌%◌, ◌^◌, min, ℤ, pos, Bool, true, false, not, ◌&&◌, Option, none,
  some, List, [], ◌∷◌, ◌++◌, ltb, leb, ◌==◌, if◌then◌else◌, Result, ok, err, ◌>>=◌, Bytes, codes,
  length, as_u32, as_i32,
}
use eieio.Abi.{ErrorCode, invalid_arg, limit, code_value, Status, decode_status, alloc_align}
use eieio.Host.Engine.{
  Trap, TrapKind, EngineError, out_of_bounds, duplicate_import, engine_failed, write,
}
use eieio.Host.Router.{port_err}

pub record Limits : Type 0 where
  pub max_payload : ℕ
  pub max_batch : ℕ
  pub max_emission_bytes : Option ℕ

-- The `Engine` trait, the guest behind it included: a call may change the guest.
pub record Engine (E : Type 0) : Type 0 where
  pub call : E → Bytes → List ℤ → E × Result Trap ℤ
  pub has_export : E → Bytes → Bool
  pub write : E → ℕ → Bytes → Result EngineError E

-- `alloc`, `exports::required` and `exports::optional`
abbrev pub alloc_export : Bytes
alloc_export = codes "eio_alloc"

-- A number in decimal, as `{}` prints it; the fuel is one more than the number of digits.
unfoldable pub decimal_on : ℕ → ℕ → Bytes → Bytes
decimal_on zero n printed = printed
decimal_on (suc fuel) n printed =
    let more = decimal_on fuel (n / 10) ((48 + n % 10) ∷ printed) in
    if ltb n 10 then (48 + n) ∷ printed else more

unfoldable pub decimal : ℕ → Bytes
unfolding decimal_on
decimal n = decimal_on (suc n) n []

-- `Display` of `EngineError`
unfoldable pub describe : EngineError → Bytes
unfolding decimal
describe (out_of_bounds ptr len) =
    codes "guest memory range ("
    ++ decimal ptr
    ++ codes ", "
    ++ decimal len
    ++ codes ") lies outside linear memory"
describe (duplicate_import namespace name) =
    codes "host function " ++ namespace ++ codes " " ++ name ++ codes " is already registered"
describe (engine_failed detail) = codes "engine error: " ++ detail

-- `Trap::from`
unfoldable pub trap_of : EngineError → Trap
unfolding describe
trap_of e = record { kind = TrapKind.engine; detail = describe e }

pub data DeliveryFailure : Type 0 where
  refused : DeliveryFailure
  dead : Trap → DeliveryFailure

pub record Inbound : Type 0 where
  pub ptr : ℕ
  pub len : ℕ

-- Zero is a refusal, and a pointer that is not 8-byte aligned is a lie.
unfoldable pub check_alloc : ℤ → Result Trap (Option ℕ)
check_alloc raw =
    let ptr = as_u32 raw in
    if ptr == 0
    then ok none
    else if not (ptr % alloc_align == 0)
    then err (record {
      kind = TrapKind.engine;
      detail = codes "eio_alloc returned a pointer that is not 8-byte aligned (ABI §9.6)";
    })
    else ok (some ptr)

module _ {E : Type 0} (engine : Engine E) where
  -- The rest of `Inbound::write`, once the bytes have been offered to the memory,
  unfoldable pub landed : E → ℕ → ℕ → Result EngineError E → E × Result DeliveryFailure Inbound
  landed e ptr len (err failure) = (e, err (dead (trap_of failure)))
  landed e ptr len (ok e') = (e', ok (record { ptr = ptr; len = len }))

  -- once the allocator's answer has been checked,
  unfoldable pub place : E → Bytes → Result Trap (Option ℕ) → E × Result DeliveryFailure Inbound
  unfolding landed
  place e bytes (err trap) = (e, err (dead trap))
  place e bytes (ok none) = (e, err refused)
  place e bytes (ok (some ptr)) = landed e ptr (length bytes) (engine.write e ptr bytes)

  -- and once the allocator has answered.
  unfoldable pub allocated : Bytes → E × Result Trap ℤ → E × Result DeliveryFailure Inbound
  unfolding place
  allocated bytes (e, err trap) = (e, err (dead trap))
  allocated bytes (e, ok raw) = place e bytes (check_alloc raw)

  -- `Inbound::write`
  unfoldable pub inbound_write : E → Bytes → E × Result DeliveryFailure Inbound
  unfolding allocated
  inbound_write e bytes =
      if ltb (2 ^ 32 - 1) (length bytes)
      then (e, err refused)
      else allocated bytes (engine.call e alloc_export (as_i32 (length bytes) ∷ []))

  unfoldable pub answered : E × Result Trap ℤ → E × Result DeliveryFailure Status
  answered (e, err trap) = (e, err (dead trap))
  answered (e, ok raw) = (e, ok (decode_status raw))

  -- `Inbound::call`, its trap as the callers' `map_err(DeliveryFailure::Dead)` reads it
  unfoldable pub inbound_call :
      Bytes → List ℤ → E × Result DeliveryFailure Inbound → E × Result DeliveryFailure Status
  unfolding answered
  inbound_call export leading (e, err failure) = (e, err failure)
  inbound_call export leading (e, ok payload) =
      answered (engine.call e export (leading ++ as_i32 payload.ptr ∷ as_i32 payload.len ∷ []))

  -- What `configure`, `process_signals` and `on_http` run in their scope: `Inbound::write`, and then
  -- the call with the payload.
  unfoldable pub deliver : E → Bytes → Bytes → List ℤ → E × Result DeliveryFailure Status
  unfolding inbound_write inbound_call
  deliver e bytes export leading = inbound_call export leading (inbound_write e bytes)

-- The room that the queue has left: the sum saturates.
unfoldable pub accept_budget : Option ℕ → ℕ → ℕ → ℕ → Result ErrorCode ℕ
accept_budget none port len held = ok port
accept_budget (some budget) port len held =
    if ltb budget (min (held + len) (2 ^ 32 - 1)) then err limit else ok port

-- `Outbound::accept`: the port, then the length, then the room.
unfoldable pub accept : ℕ → ℕ → ℕ → Limits → ℕ → Result ErrorCode ℕ
unfolding accept_budget
accept port len outputs limits held =
    if not (port == port_err) && leb outputs port
    then err invalid_arg
    else if ltb limits.max_payload len
    then err limit
    else accept_budget limits.max_emission_bytes port len held

-- A size that does not fit the return value is an error code.
unfoldable pub required_size : ℕ → ℤ
required_size len = if ltb (2 ^ 31 - 1) len then code_value limit else as_i32 len

-- What `fill` makes of the write.
unfoldable pub filled : Bytes → ℕ → Result EngineError Bytes → Bytes × ℤ
filled memory len (ok memory') = (memory', as_i32 len)
filled memory len (err failure) = (memory, code_value invalid_arg)

-- `OutBuffer::fill`: the memory after it, and what the guest sees.
unfoldable pub fill : Bytes → ℕ → ℕ → Bytes → Bytes × ℤ
unfolding required_size filled
fill memory buf cap bytes =
    if ltb (2 ^ 32 - 1) (length bytes)
    then (memory, code_value limit)
    else if ltb cap (length bytes)
    then (memory, required_size (length bytes))
    else filled memory (length bytes) (write memory buf bytes)
