-- ===== src/Host/Instance.antt =====
-- crates/host-core/src/instance.rs: the lifecycle of an instance. Its states are types, as in the
-- source. The engine is an argument; the state of the property context is shared with the host
-- functions that the engine calls, so the engine's guest is a pair of the two.
pub mod Delivers
pub mod Driven
pub mod Started
mod Tests
use eieio.Base.{
  ℕ, suc, ◌+◌, ◌-◌, ◌^◌, min, ℤ, Bool, true, false, Option, none, some, List, [], ◌∷◌, ◌++◌, ltb,
  leb, if◌then◌else◌, Result, ok, err, Bytes, codes, length, as_i32, as_u32,
}
use eieio.Abi.{ErrorCode, limit, Status, is_ok, decode_status}
use eieio.Host.Engine.{Trap, TrapKind}
use eieio.Host.Memory.{Engine, Limits, DeliveryFailure, deliver}
use eieio.Host.Prop.{Batch, State, opened, closed}
use eieio.Host.Router.{Descriptor}

-- `exports::required` and `exports::optional`
abbrev pub configure_export : Bytes
configure_export = codes "eio_configure"

abbrev pub start_export : Bytes
start_export = codes "eio_start"

abbrev pub stop_export : Bytes
stop_export = codes "eio_stop"

abbrev pub process_signals_export : Bytes
process_signals_export = codes "eio_process_signals"

abbrev pub on_timer_export : Bytes
on_timer_export = codes "eio_on_timer"

abbrev pub on_gpio_export : Bytes
on_gpio_export = codes "eio_on_gpio"

abbrev pub on_http_export : Bytes
on_http_export = codes "eio_on_http"

-- `required::ALL`
abbrev pub required_exports : List Bytes
required_exports =
    codes "eio_abi_version"
    ∷ codes "eio_alloc"
    ∷ codes "eio_free"
    ∷ configure_export
    ∷ start_export
    ∷ stop_export
    ∷ process_signals_export
    ∷ []

pub data Outcome (T : Type 0) : Type 0 where
  live : T → Status → Outcome T
  dead : Trap → Outcome T

-- `Refusal`: why the host does not deliver a batch.
pub data Refusal : Type 0 where
  unknown_port : ℕ → ℕ → Refusal
  batch : ℕ → ℕ → Refusal
  payload : ℕ → ℕ → Refusal

-- The properties' state and the guest, as one world.
abbrev pub World : Type 0 → Type 0
World E = State × E

pub record Live (E : Type 0) : Type 0 where
  pub world : World E
  pub instance_id : Bytes
  pub inputs : ℕ
  pub limits : Limits
  pub errors : ℕ

pub record Configured (E : Type 0) : Type 0 where
  pub inner : Live E

pub record Running (E : Type 0) : Type 0 where
  pub inner : Live E

pub record Stopped (E : Type 0) : Type 0 where
  pub inner : Live E

pub data Configuring (E : Type 0) : Type 0 where
  configured : Configured E → Configuring E
  rejected : ErrorCode → Configuring E
  dead : Trap → Configuring E

pub data Starting (E : Type 0) : Type 0 where
  running : Running E → Starting E
  refused : Configured E → ErrorCode → Starting E
  dead : Trap → Starting E

pub data Delivering (E : Type 0) : Type 0 where
  delivered : Running E → Status → Delivering E
  refused : Running E → Refusal → Delivering E
  dead : Trap → Delivering E

abbrev pub as_running : {E : Type 0} → Live E → Running E
as_running inner = record { inner = inner }

-- `missing_export`
unfoldable pub missing_export : Bytes → Trap
missing_export export = record {
  kind = TrapKind.engine;
  detail = codes "the guest does not export " ++ export;
}

module _ {E : Type 0} where
  -- `Live::count`: an error is counted, and the count saturates.
  unfoldable pub count : Live E → Status → Live E
  count inner status =
      if is_ok status then inner else record inner { errors = min (inner.errors + 1) (2 ^ 32 - 1) }

  -- `Live::in_scope`, which is `PropContext::during`: the scope is closed however the call ends.
  unfoldable pub in_scope {ℓ} :
      {T : Type ℓ} → Live E → Option Batch → (World E → World E × T) → Live E × T
  in_scope inner signals call =
      let (world, result) = call (opened signals inner.world.0, inner.world.1) in
      (record inner { world = (closed world.0, world.1) }, result)

  -- `Live::accept`
  unfoldable pub accept : Live E → ℕ → Batch → Result Refusal (Unit {0})
  accept inner input_port signals =
      if leb inner.inputs input_port
      then err (unknown_port input_port inner.inputs)
      else if ltb inner.limits.max_batch (length signals)
      then err (batch (length signals) inner.limits.max_batch)
      else ok tt

  -- `Live::accept_payload`
  unfoldable pub accept_payload : Live E → Bytes → Result Refusal (Unit {0})
  accept_payload inner bytes =
      if ltb inner.limits.max_payload (length bytes)
      then err (payload (length bytes) inner.limits.max_payload)
      else ok tt

  -- What a payload's delivery comes to: a refusal of the guest is `ERR_LIMIT`, and counted.
  unfoldable pub counted : Live E × Result DeliveryFailure Status → Live E × Result Trap Status
  unfolding count
  counted (inner, ok status) = (count inner status, ok status)
  counted (inner, err DeliveryFailure.refused) =
      (count inner (Status.failed limit), ok (Status.failed limit))
  counted (inner, err (DeliveryFailure.dead trap)) = (inner, err trap)

  -- What a call without a payload comes to.
  unfoldable pub decoded : Live E × Result Trap ℤ → Live E × Result Trap Status
  unfolding count
  decoded (inner, ok raw) = (count inner (decode_status raw), ok (decode_status raw))
  decoded (inner, err trap) = (inner, err trap)

  abbrev pub to_running : Live E × Result Trap Status → Outcome (Running E)
  to_running (inner, ok status) = live (as_running inner) status
  to_running (inner, err trap) = Outcome.dead trap

module _ {E : Type 0} (engine : Engine (World E)) where
  -- `Live::call`
  unfoldable pub call : Live E → Bytes → List ℤ → Live E × Result Trap Status
  unfolding in_scope decoded
  call inner export args = decoded (in_scope inner none (λ world. engine.call world export args))

  -- The scope in which a payload is written and handed over.
  unfoldable pub delivering :
      Live E → Option Batch → Bytes → Bytes → List ℤ → Live E × Result DeliveryFailure Status
  unfolding in_scope
  delivering inner signals bytes export leading =
      in_scope inner signals (λ world. deliver engine world bytes export leading)

  -- `Configured::configure`, of a descriptor with its limits and its encoding
  abbrev pub configuring : Live E × Result DeliveryFailure Status → Configuring E
  configuring (inner, ok Status.ok) = configured (record { inner = inner })
  configuring (inner, ok (Status.failed code)) = rejected code
  configuring (inner, err DeliveryFailure.refused) = rejected limit
  configuring (inner, err (DeliveryFailure.dead trap)) = Configuring.dead trap

  unfoldable pub configure : World E → Descriptor → Limits → Bytes → Configuring E
  unfolding delivering
  configure world descriptor limits cbor =
      let inner : Live E = record {
        world = world;
        instance_id = descriptor.instance_id;
        inputs = length descriptor.inputs;
        limits = limits;
        errors = 0;
      } in
      configuring (delivering inner none cbor configure_export [])

  -- `Configured::start`
  abbrev pub starting : Live E × Result Trap Status → Starting E
  starting (inner, ok Status.ok) = running (as_running inner)
  starting (inner, ok (Status.failed code)) = Starting.refused (record { inner = inner }) code
  starting (inner, err trap) = Starting.dead trap

  unfoldable pub start : Configured E → Starting E
  unfolding call
  start c = starting (call c.inner start_export [])

  -- `Running::process_signals`; `to_cbor` is the batch's encoder.
  abbrev pub as_delivered : Live E × Result Trap Status → Delivering E
  as_delivered (inner, ok status) = delivered (as_running inner) status
  as_delivered (inner, err trap) = Delivering.dead trap

  abbrev pub unless_refused : Running E → Result Refusal (Unit {0}) → Delivering E → Delivering E
  unless_refused r (err refusal) rest = Delivering.refused r refusal
  unless_refused r (ok _) rest = rest

  unfoldable pub process_signals : (Batch → Bytes) → Running E → ℕ → Batch → Delivering E
  unfolding accept accept_payload delivering counted
  process_signals to_cbor r input_port signals =
      unless_refused r (accept r.inner input_port signals) (
        unless_refused r (accept_payload r.inner (to_cbor signals)) (
          as_delivered (
            counted (
              delivering r.inner (some signals) (to_cbor signals) process_signals_export
                (as_i32 input_port ∷ [])))))

  -- `Running::call_optional`
  unfoldable pub call_optional : Running E → Bytes → List ℤ → Outcome (Running E)
  unfolding call missing_export
  call_optional r export args =
      if engine.has_export r.inner.world export
      then to_running (call r.inner export args)
      else Outcome.dead (missing_export export)

  unfoldable pub on_timer : Running E → ℕ → Outcome (Running E)
  unfolding call_optional
  on_timer r timer_id = call_optional r on_timer_export (as_i32 timer_id ∷ [])

  unfoldable pub on_gpio : Running E → ℕ → ℤ → Outcome (Running E)
  unfolding call_optional
  on_gpio r watch_id value = call_optional r on_gpio_export (as_i32 watch_id ∷ value ∷ [])

  unfoldable pub on_http : Running E → ℕ → ℤ → Bytes → Outcome (Running E)
  unfolding delivering counted missing_export
  on_http r req_id status_code body =
      if engine.has_export r.inner.world on_http_export
      then to_running
          (counted (delivering r.inner none body on_http_export (as_i32 req_id ∷ status_code ∷ [])))
      else Outcome.dead (missing_export on_http_export)

  -- `Running::stop`
  abbrev pub stopping : Live E × Result Trap Status → Outcome (Stopped E)
  stopping (inner, ok status) = live (record { inner = inner }) status
  stopping (inner, err trap) = Outcome.dead trap

  unfoldable pub stop : Running E → Outcome (Stopped E)
  unfolding call
  stop r = stopping (call r.inner stop_export [])

  -- `check_required_exports`: the exports that are missing
  unfoldable pub missing_exports : World E → List Bytes → List Bytes
  missing_exports world [] = []
  missing_exports world (export ∷ exports) =
      let rest = missing_exports world exports in
      if engine.has_export world export then rest else export ∷ rest

  unfoldable pub check_required_exports : World E → List Bytes
  unfolding missing_exports
  check_required_exports world = missing_exports world required_exports
