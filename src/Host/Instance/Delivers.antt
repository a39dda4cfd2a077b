-- ===== src/Host/Instance/Delivers.antt =====
-- About `process_signals` of crates/host-core/src/instance.rs.
use eieio.Base.{
  ℕ, ◌+◌, ◌-◌, ◌^◌, ◌≤◌, ◌<◌, min, ◌≡◌, refl, ap, false, Option, none, some, [], ◌∷◌, arith, leb,
  ltb, if-splits, Result, ok, err, Bytes, length, as_i32, if◌then◌else◌,
}
use eieio.Abi.{limit, Status, is_ok}
use eieio.Host.Engine.{Trap}
use eieio.Host.Memory.{Engine, DeliveryFailure, deliver}
use eieio.Host.Prop.{Batch, State, opened, closed}
use eieio.Host.Instance.{
  Live, Running, World, Refusal, unknown_port, batch, payload, Delivering, delivered, refused, dead,
  process_signals_export, count, in_scope, accept, accept_payload, counted, delivering,
  as_delivered, unless_refused, process_signals,
}

-- The count of errors after a status: one more for an error, and at most 2^32 - 1.
abbrev pub errors_after : ℕ → Status → ℕ
errors_after errors status = if is_ok status then errors else min (errors + 1) (2 ^ 32 - 1)

-- No property is answered, and no signal is kept.
pub record IsClosed (state : State) : Type 0 where
  pub no_signals : state.signals ≡ none
  pub shut : state.is_open ≡ false
  pub no_cache : state.cache ≡ []

-- An instance after a callback that reported a status.
pub record After {E : Type 0} (before after : Live E) (status : Status) : Type 0 where
  pub same_id : after.instance_id ≡ before.instance_id
  pub same_inputs : after.inputs ≡ before.inputs
  pub same_limits : after.limits ≡ before.limits
  pub counts : after.errors ≡ errors_after before.errors status
  pub scope_closed : IsClosed after.world.0

closed-IsClosed : (state : State) → IsClosed (closed state)
unfolding closed
closed-IsClosed state = record { no_signals = refl; shut = refl; no_cache = refl }

-- A status that is reported: the guest's, or `ERR_LIMIT` for a payload that it would not take.
abbrev pub Reports : Result DeliveryFailure Status → Status → Type 0
Reports (ok said) status = status ≡ said
Reports (err DeliveryFailure.refused) status = status ≡ Status.failed limit
Reports (err (DeliveryFailure.dead trap)) status = ⊥

module _ {E : Type 0} where
  pub count-After :
      (before inner : Live E) (status : Status)
      → After before inner Status.ok
      → After before (count inner status) status
  unfolding count
  count-After before inner Status.ok after = after
  count-After before inner (Status.failed code) after = record {
    same_id = after.same_id;
    same_inputs = after.same_inputs;
    same_limits = after.same_limits;
    counts = ap (λ n. min (n + 1) (2 ^ 32 - 1)) after.counts;
    scope_closed = after.scope_closed;
  }

  pub in_scope-After {ℓ} :
      {T : Type ℓ} (inner : Live E) (signals : Option Batch) (run : World E → World E × T)
      → After inner (in_scope inner signals run).0 Status.ok
  unfolding in_scope
  in_scope-After inner signals run = record {
    same_id = refl;
    same_inputs = refl;
    same_limits = refl;
    counts = refl;
    scope_closed = closed-IsClosed _;
  }

  -- What a call with a payload leaves: a trap, or the instance with the status.
  abbrev pub Settles : Live E → Live E × Result Trap Status → Type 0
  Settles before (inner, ok status) = After before inner status
  Settles before (inner, err trap) = Unit {0}

  pub counted-Settles :
      (before : Live E) (r : Live E × Result DeliveryFailure Status)
      → After before r.0 Status.ok
      → Settles before (counted r)
  unfolding counted
  counted-Settles before (inner, ok status) after = count-After before inner status after
  counted-Settles before (inner, err DeliveryFailure.refused) after =
      count-After before inner (Status.failed limit) after
  counted-Settles before (inner, err (DeliveryFailure.dead trap)) after = tt

module _ {E : Type 0} (engine : Engine (World E)) (to_cbor : Batch → Bytes) (r : Running E)
    (input_port : ℕ) (signals : Batch) where
  -- What the guest does with the batch: it runs in a scope that has exactly this batch.
  abbrev pub handed : World E × Result DeliveryFailure Status
  handed =
      deliver engine (opened (some signals) r.inner.world.0, r.inner.world.1) (to_cbor signals)
        process_signals_export (as_i32 input_port ∷ [])

  pub record Within : Type 0 where
    pub declared : input_port < r.inner.inputs
    pub batch_fits : length signals ≤ r.inner.limits.max_batch
    pub payload_fits : length (to_cbor signals) ≤ r.inner.limits.max_payload

  -- Why a batch is refused.
  abbrev pub Because : Refusal → Type 0
  Because (unknown_port port inputs) =
      (port ≡ input_port) × (inputs ≡ r.inner.inputs) × (r.inner.inputs ≤ input_port)
  Because (batch found most) =
      (found ≡ length signals) × (most ≡ r.inner.limits.max_batch) × (most < found)
  Because (payload found most) =
      (found ≡ length (to_cbor signals)) × (most ≡ r.inner.limits.max_payload) × (most < found)

  -- What may be said of the outcome, with what the guest did.
  abbrev pub Delivers : World E × Result DeliveryFailure Status → Delivering E → Type 0
  Delivers guest (refused r' refusal) = (r' ≡ r) × Because refusal
  Delivers guest (delivered r' status) =
      Within
      × Reports guest.1 status
      × After r.inner r'.inner status
      × (r'.inner.world ≡ (closed guest.0.0, guest.0.1))
  Delivers guest (dead trap) = Within × (guest.1 ≡ err (DeliveryFailure.dead trap))

  abbrev Accepts : Result Refusal (Unit {0}) → Type 0
  Accepts (err refusal) = Because refusal
  Accepts (ok _) = (input_port < r.inner.inputs) × (length signals ≤ r.inner.limits.max_batch)

  abbrev AcceptsPayload : Result Refusal (Unit {0}) → Type 0
  AcceptsPayload (err refusal) = Because refusal
  AcceptsPayload (ok _) = length (to_cbor signals) ≤ r.inner.limits.max_payload

  accept-Accepts : Accepts (accept r.inner input_port signals)
  unfolding accept
  accept-Accepts =
      if-splits Accepts (leb r.inner.inputs input_port) _ _ (λ over. (refl, refl, ground arith))
        λ known.
          if-splits Accepts (ltb r.inner.limits.max_batch (length signals)) _ _
            (λ over. (refl, refl, ground arith)) λ fits. (ground arith, ground arith)

  accept_payload-AcceptsPayload : AcceptsPayload (accept_payload r.inner (to_cbor signals))
  unfolding accept_payload
  accept_payload-AcceptsPayload =
      if-splits AcceptsPayload (ltb r.inner.limits.max_payload (length (to_cbor signals))) _ _
        (λ over. (refl, refl, ground arith)) λ fits. ground arith

  -- The instance once the scope is closed.
  abbrev left : World E → Live E
  left world = record r.inner { world = (closed world.0, world.1) }

  guest-Delivers :
      (guest : World E × Result DeliveryFailure Status)
      → Within
      → After r.inner (left guest.0) Status.ok
      → Delivers guest (as_delivered engine (counted (left guest.0, guest.1)))
  unfolding counted
  guest-Delivers (world, ok Status.ok) within after = (within, refl, after, refl)
  guest-Delivers (world, ok (Status.failed code)) within after =
      (within, refl, count-After r.inner (left world) (Status.failed code) after, refl)
  guest-Delivers (world, err DeliveryFailure.refused) within after =
      (within, refl, count-After r.inner (left world) (Status.failed limit) after, refl)
  guest-Delivers (world, err (DeliveryFailure.dead trap)) within after = (within, refl)

  payload-Delivers :
      (rest : Delivering E) (checked : Result Refusal (Unit {0}))
      → AcceptsPayload checked
      → (length (to_cbor signals) ≤ r.inner.limits.max_payload → Delivers handed rest)
      → Delivers handed (unless_refused engine r checked rest)
  payload-Delivers rest (err refusal) because later = (refl, because)
  payload-Delivers rest (ok _) fits later = later fits

  batch-Delivers :
      (rest : Delivering E) (checked : Result Refusal (Unit {0}))
      → Accepts checked
      → ((input_port < r.inner.inputs) × (length signals ≤ r.inner.limits.max_batch)
          → Delivers handed rest)
      → Delivers handed (unless_refused engine r checked rest)
  batch-Delivers rest (err refusal) because later = (refl, because)
  batch-Delivers rest (ok _) fits later = later fits

-- A batch for a running instance. Either the host refuses it, for a port, a number of signals or a
-- number of bytes beyond what the instance was promised, and says which; then the instance is as it
-- was, its guest, its errors and its properties' state included. Or it lies within all three, and the
-- guest was handed exactly its encoding, with its signals in the scope of the properties: the status
-- is the guest's, or `ERR_LIMIT` if it would not take the payload; an error is counted, the scope is
-- closed again and the rest of the instance is as it was. Or the guest died of that, and only of that.
pub process_signals-Delivers :
    {E : Type 0} (engine : Engine (World E)) (to_cbor : Batch → Bytes) (r : Running E)
    (input_port : ℕ) (signals : Batch)
    → Delivers engine to_cbor r input_port signals
        (handed engine to_cbor r input_port signals)
        (process_signals engine to_cbor r input_port signals)
unfolding process_signals delivering in_scope
process_signals-Delivers engine to_cbor r input_port signals =
    batch-Delivers engine to_cbor r input_port signals _ (accept r.inner input_port signals)
      (accept-Accepts engine to_cbor r input_port signals)
      λ known.
        payload-Delivers engine to_cbor r input_port signals _
          (accept_payload r.inner (to_cbor signals))
          (accept_payload-AcceptsPayload engine to_cbor r input_port signals)
          λ fits.
            guest-Delivers engine to_cbor r input_port signals
              (handed engine to_cbor r input_port signals)
              (record { declared = known.0; batch_fits = known.1; payload_fits = fits })
              (in_scope-After r.inner (some signals) (λ world.
                deliver engine world (to_cbor signals) process_signals_export
                  (as_i32 input_port ∷ [])))
