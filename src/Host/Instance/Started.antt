-- ===== src/Host/Instance/Started.antt =====
-- About an instance from its configuration on (crates/host-core/src/instance.rs).
use mathlib.Core.Option.{some-injective}
use eieio.Base.{
  ◌-◌, ◌^◌, min, ◌≡◌, refl, ◌∙◌, ap, subst, Option, none, some, List, [], arith, Result, ok, err,
  Bytes, length,
}
use eieio.Abi.{Status}
use eieio.Host.Engine.{Trap}
use eieio.Host.Memory.{Engine, Limits, DeliveryFailure, deliver}
use eieio.Host.Prop.{Batch}
use eieio.Host.Router.{Descriptor}
use eieio.Host.Instance.{
  Live, Running, World, Configured, Configuring, configured, configuring, configure, Starting,
  running, starting, start, in_scope, decoded, call, delivering, configure_export, start_export,
}
use eieio.Host.Instance.Delivers.{After, IsClosed, in_scope-After, Settles}
use eieio.Host.Instance.Driven.{Callback, failures, drive, Lives, drive-Lives, decoded-Settles}

module _ {E : Type 0} (engine : Engine (World E)) (to_cbor : Batch → Bytes) where
  -- A life from its configuration on: `none` is an instance that is gone.
  abbrev pub LivesFrom : Descriptor → Limits → Option (Running E) → List Status → Type 0
  LivesFrom descriptor limits none reported = Unit {0}
  LivesFrom descriptor limits (some r) reported =
      (r.inner.errors ≡ min (failures reported) (2 ^ 32 - 1))
      × (r.inner.instance_id ≡ descriptor.instance_id)
      × (r.inner.inputs ≡ length descriptor.inputs)
      × (r.inner.limits ≡ limits)
      × IsClosed r.inner.world.0

  -- An instance that has not been called since it was configured.
  abbrev IsFresh : Descriptor → Limits → Live E → Type 0
  IsFresh descriptor limits inner =
      (inner.errors ≡ 0)
      × (inner.instance_id ≡ descriptor.instance_id)
      × (inner.inputs ≡ length descriptor.inputs)
      × (inner.limits ≡ limits)
      × IsClosed inner.world.0

  After-IsFresh :
      (descriptor : Descriptor) (limits : Limits) (before after : Live E)
      → After before after Status.ok
      → before.errors ≡ 0
      → before.instance_id ≡ descriptor.instance_id
      → before.inputs ≡ length descriptor.inputs
      → before.limits ≡ limits
      → IsFresh descriptor limits after
  After-IsFresh descriptor limits before after a none_yet id inputs same = (
    a.counts ∙ none_yet,
    a.same_id ∙ id,
    a.same_inputs ∙ inputs,
    a.same_limits ∙ same,
    a.scope_closed,
  )

  abbrev configured_inner : Configuring E → Option (Live E)
  configured_inner (configured c) = some c.inner
  configured_inner (Configuring.rejected code) = none
  configured_inner (Configuring.dead trap) = none

  abbrev running_inner : Starting E → Option (Live E)
  running_inner (running r) = some r.inner
  running_inner (Starting.refused c code) = none
  running_inner (Starting.dead trap) = none

  configuring-IsFresh :
      (descriptor : Descriptor) (limits : Limits) (r : Live E × Result DeliveryFailure Status)
      (c : Configured E)
      → IsFresh descriptor limits r.0
      → configuring engine r ≡ configured c
      → IsFresh descriptor limits c.inner
  configuring-IsFresh descriptor limits (inner, ok Status.ok) c h is =
      subst (IsFresh descriptor limits) (some-injective _ _ (ap configured_inner is)) h
  configuring-IsFresh descriptor limits (inner, ok (Status.failed code)) c h is =
      absurd (ground arith)
  configuring-IsFresh descriptor limits (inner, err DeliveryFailure.refused) c h is =
      absurd (ground arith)
  configuring-IsFresh descriptor limits (inner, err (DeliveryFailure.dead trap)) c h is =
      absurd (ground arith)

  starting-IsFresh :
      (descriptor : Descriptor) (limits : Limits) (before : Live E)
      (o : Live E × Result Trap Status) (r : Running E)
      → IsFresh descriptor limits before
      → Settles before o
      → starting engine o ≡ running r
      → IsFresh descriptor limits r.inner
  starting-IsFresh descriptor limits before (inner, ok Status.ok) r
        (zero_errors, id, inputs, same, shut) after is =
      subst (IsFresh descriptor limits) (some-injective _ _ (ap running_inner is))
        (After-IsFresh descriptor limits before inner after zero_errors id inputs same)
  starting-IsFresh descriptor limits before (inner, ok (Status.failed code)) r fresh after is =
      absurd (ground arith)
  starting-IsFresh descriptor limits before (inner, err trap) r fresh after is =
      absurd (ground arith)

  configure-IsFresh :
      (world : World E) (descriptor : Descriptor) (limits : Limits) (cbor : Bytes)
      (c : Configured E)
      → configure engine world descriptor limits cbor ≡ configured c
      → IsFresh descriptor limits c.inner
  unfolding configure delivering
  configure-IsFresh world descriptor limits cbor c is =
      let inner : Live E = record {
        world = world;
        instance_id = descriptor.instance_id;
        inputs = length descriptor.inputs;
        limits = limits;
        errors = 0;
      } in
      let run = λ (world : World E). deliver engine world cbor configure_export [] in
      configuring-IsFresh descriptor limits (in_scope inner none run) c
        (After-IsFresh descriptor limits inner (in_scope inner none run).0
          (in_scope-After inner none run) refl refl refl refl)
        is

  start-IsFresh :
      (descriptor : Descriptor) (limits : Limits) (c : Configured E) (r : Running E)
      → IsFresh descriptor limits c.inner
      → start engine c ≡ running r
      → IsFresh descriptor limits r.inner
  unfolding start call
  start-IsFresh descriptor limits c r fresh is =
      let run = λ (world : World E). engine.call world start_export [] in
      starting-IsFresh descriptor limits c.inner (decoded (in_scope c.inner none run)) r fresh
        (decoded-Settles engine to_cbor c.inner (in_scope c.inner none run)
          (in_scope-After c.inner none run))
        is

  fresh-LivesFrom :
      (descriptor : Descriptor) (limits : Limits) (before : Live E) (left : Option (Running E))
      (reported : List Status)
      → IsFresh descriptor limits before
      → Lives engine to_cbor before left reported
      → LivesFrom descriptor limits left reported
  fresh-LivesFrom descriptor limits before none reported fresh lives = tt
  fresh-LivesFrom descriptor limits before (some r) reported (zero_errors, id, inputs, same, shut)
        lives =
      (
        omega (arith, lives.counts),
        lives.same_id ∙ id,
        lives.same_inputs ∙ inputs,
        lives.same_limits ∙ same,
        lives.scope_closed,
      )

-- An instance that accepted its configuration and started, and then any sequence of batches, timers,
-- line changes and responses: for as long as it is alive, its error count is the number of statuses
-- reported since that were not ok, up to 2^32 - 1; batches that the host refused count for nothing. Its
-- name, its inputs and its limits are those of its configuration, and between two callbacks no
-- property can be asked for.
pub drive-LivesFrom :
    {E : Type 0} (engine : Engine (World E)) (to_cbor : Batch → Bytes) (world : World E)
    (descriptor : Descriptor) (limits : Limits) (cbor : Bytes) (c : Configured E) (r : Running E)
    (callbacks : List Callback)
    → configure engine world descriptor limits cbor ≡ configured c
    → start engine c ≡ running r
    → LivesFrom engine to_cbor descriptor limits
        (drive engine to_cbor callbacks r).instance_left
        (drive engine to_cbor callbacks r).reported
drive-LivesFrom engine to_cbor world descriptor limits cbor c r callbacks accepted started =
    let fresh =
      start-IsFresh engine to_cbor descriptor limits c r
        (configure-IsFresh engine to_cbor world descriptor limits cbor c accepted) started in
    fresh-LivesFrom engine to_cbor descriptor limits r.inner _ _ fresh
      (drive-Lives engine to_cbor callbacks r (fresh.4, omega (arith, fresh.0)))
