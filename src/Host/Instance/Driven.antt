-- ===== src/Host/Instance/Driven.antt =====
-- About a running instance over its whole life (crates/host-core/src/instance.rs).
use eieio.Base.{
  ℕ, suc, ◌+◌, ◌-◌, ◌^◌, ◌<◌, min, ◌≡◌, refl, ◌∙◌, ℤ, Option, none, some, List, [], ◌∷◌, arith,
  if-splits, Result, ok, err, Bytes, as_i32,
}
use eieio.Abi.{Status, decode_status}
use eieio.Host.Engine.{Trap}
use eieio.Host.Memory.{Engine, deliver}
use eieio.Host.Prop.{Batch}
use eieio.Host.Instance.{
  Live, Running, World, Outcome, live, Delivering, delivered, refused, in_scope, decoded,
  delivering, call, call_optional, on_timer, on_gpio, on_http, process_signals, to_running,
  on_http_export, start,
}
use eieio.Host.Instance.Delivers.{
  After, IsClosed, errors_after, in_scope-After, count-After, counted-Settles, Settles,
  process_signals-Delivers, Delivers, handed,
}

-- What a driver asks of a running instance.
pub data Callback : Type 0 where
  signals : ℕ → Batch → Callback
  timer : ℕ → Callback
  gpio : ℕ → ℤ → Callback
  http : ℕ → ℤ → Bytes → Callback

-- The statuses that were reported, and the instance if it is alive.
pub record Life (E : Type 0) : Type 0 where
  pub instance_left : Option (Running E)
  pub reported : List Status

abbrev pub failures : List Status → ℕ
failures [] = 0
failures (Status.ok ∷ statuses) = failures statuses
failures (Status.failed code ∷ statuses) = suc (failures statuses)

module _ {E : Type 0} (engine : Engine (World E)) (to_cbor : Batch → Bytes) where
  abbrev pub lives_on : (Running E → Life E) → Outcome (Running E) → Life E
  lives_on rest (live r status) = record {
    instance_left = (rest r).instance_left;
    reported = status ∷ (rest r).reported;
  }
  lives_on rest (Outcome.dead trap) = record { instance_left = none; reported = [] }

  -- A batch that the host refuses reports no status.
  abbrev pub delivered_on : (Running E → Life E) → Delivering E → Life E
  delivered_on rest (delivered r status) = record {
    instance_left = (rest r).instance_left;
    reported = status ∷ (rest r).reported;
  }
  delivered_on rest (refused r refusal) = rest r
  delivered_on rest (Delivering.dead trap) = record { instance_left = none; reported = [] }

  abbrev pub drive : List Callback → Running E → Life E
  drive [] r = record { instance_left = some r; reported = [] }
  drive (signals port batch ∷ cs) r =
      delivered_on (drive cs) (process_signals engine to_cbor r port batch)
  drive (timer id ∷ cs) r = lives_on (drive cs) (on_timer engine r id)
  drive (gpio id value ∷ cs) r = lives_on (drive cs) (on_gpio engine r id value)
  drive (http id status body ∷ cs) r = lives_on (drive cs) (on_http engine r id status body)

  -- The instance of a life that is not over, against how it began.
  pub record Accounts (before after : Live E) (reported : List Status) : Type 0 where
    pub same_id : after.instance_id ≡ before.instance_id
    pub same_limits : after.limits ≡ before.limits
    pub same_inputs : after.inputs ≡ before.inputs
    pub counts : after.errors ≡ min (before.errors + failures reported) (2 ^ 32 - 1)
    pub scope_closed : IsClosed after.world.0

  abbrev pub Lives : Live E → Option (Running E) → List Status → Type 0
  Lives before none reported = Unit {0}
  Lives before (some r) reported = Accounts before r.inner reported

  counts_on :
      (start between end : ℕ) (status : Status) (reported : List Status)
      → between ≡ errors_after start status
      → end ≡ min (between + failures reported) (2 ^ 32 - 1)
      → end ≡ min (start + failures (status ∷ reported)) (2 ^ 32 - 1)
  counts_on start between end Status.ok reported a b = omega arith
  counts_on start between end (Status.failed code) reported a b = omega arith

  After-Accounts :
      (before between after : Live E) (status : Status) (reported : List Status)
      → After before between status
      → Accounts between after reported
      → Accounts before after (status ∷ reported)
  After-Accounts before between after status reported a b = record {
    same_id = b.same_id ∙ a.same_id;
    same_limits = b.same_limits ∙ a.same_limits;
    same_inputs = b.same_inputs ∙ a.same_inputs;
    counts = counts_on before.errors between.errors after.errors status reported a.counts b.counts;
    scope_closed = b.scope_closed;
  }

  pub decoded-Settles :
      (before : Live E) (r : Live E × Result Trap ℤ)
      → After before r.0 Status.ok
      → Settles before (decoded r)
  unfolding decoded
  decoded-Settles before (inner, ok raw) after = count-After before inner (decode_status raw) after
  decoded-Settles before (inner, err trap) after = tt

  pub report-Lives :
      (before between : Live E) (status : Status) (left : Option (Running E))
      (reported : List Status)
      → After before between status
      → Lives between left reported
      → Lives before left (status ∷ reported)
  report-Lives before between status none reported a b = tt
  report-Lives before between status (some r) reported a b =
      After-Accounts before between r.inner status reported a b

  abbrev pub IsSound : Live E → Type 0
  IsSound inner = IsClosed inner.world.0 × (inner.errors < 2 ^ 32)

  After-IsSound :
      (before after : Live E) (status : Status)
      → After before after status
      → IsSound before
      → IsSound after
  After-IsSound before after Status.ok a sound = (a.scope_closed, rw a.counts sound.1)
  After-IsSound before after (Status.failed code) a sound =
      (a.scope_closed, omega (arith, a.counts))

  -- What is known of an outcome.
  abbrev Reported : Live E → Outcome (Running E) → Type 0
  Reported before (live r status) = After before r.inner status
  Reported before (Outcome.dead trap) = Unit {0}

  to_running-Reported :
      (before : Live E) (r : Live E × Result Trap Status)
      → Settles before r
      → Reported before (to_running r)
  to_running-Reported before (inner, ok status) h = h
  to_running-Reported before (inner, err trap) h = tt

  call_optional-Reported :
      (r : Running E) (export : Bytes) (args : List ℤ)
      → Reported r.inner (call_optional engine r export args)
  unfolding call_optional call in_scope
  call_optional-Reported r export args =
      if-splits (Reported r.inner) (engine.has_export r.inner.world export) _ _
        (λ known. to_running-Reported r.inner _ (
          decoded-Settles r.inner _
            (in_scope-After r.inner none (λ world. engine.call world export args))))
        (λ missing. tt)

  on_timer-Reported : (r : Running E) (id : ℕ) → Reported r.inner (on_timer engine r id)
  unfolding on_timer
  on_timer-Reported r id = call_optional-Reported r _ _

  on_gpio-Reported :
      (r : Running E) (id : ℕ) (value : ℤ) → Reported r.inner (on_gpio engine r id value)
  unfolding on_gpio
  on_gpio-Reported r id value = call_optional-Reported r _ _

  on_http-Reported :
      (r : Running E) (id : ℕ) (status : ℤ) (body : Bytes)
      → Reported r.inner (on_http engine r id status body)
  unfolding on_http delivering in_scope
  on_http-Reported r id status body =
      if-splits (Reported r.inner) (engine.has_export r.inner.world on_http_export) _ _
        (λ known. to_running-Reported r.inner _ (
          counted-Settles r.inner _ (
            in_scope-After r.inner none
              (λ world. deliver engine world body on_http_export (as_i32 id ∷ status ∷ [])))))
        (λ missing. tt)

  abbrev pub LivesOn : Live E → Life E → Type 0
  LivesOn before life = Lives before life.instance_left life.reported

  lives_on-Lives :
      (before : Live E) (rest : Running E → Life E) (o : Outcome (Running E))
      → Reported before o
      → IsSound before
      → ((r : Running E) → IsSound r.inner → LivesOn r.inner (rest r))
      → LivesOn before (lives_on rest o)
  lives_on-Lives before rest (Outcome.dead trap) h sound later = tt
  lives_on-Lives before rest (live r status) h sound later =
      report-Lives before r.inner status (rest r).instance_left (rest r).reported h
        (later r (After-IsSound before r.inner status h sound))

  delivered_on-Lives :
      (r : Running E) (port : ℕ) (batch : Batch) (rest : Running E → Life E) (o : Delivering E)
      → Delivers engine to_cbor r port batch (handed engine to_cbor r port batch) o
      → IsSound r.inner
      → ((r : Running E) → IsSound r.inner → LivesOn r.inner (rest r))
      → LivesOn r.inner (delivered_on rest o)
  delivered_on-Lives r port batch rest (Delivering.dead trap) h sound later = tt
  delivered_on-Lives r port batch rest (refused r' refusal) h sound later = rw h.0 (later r sound)
  delivered_on-Lives r port batch rest (delivered r' status) h sound later =
      report-Lives r.inner r'.inner status (rest r').instance_left (rest r').reported h.2
        (later r' (After-IsSound r.inner r'.inner status h.2 sound))

  pub drive-Lives :
      (cs : List Callback) (r : Running E) → IsSound r.inner → LivesOn r.inner (drive cs r)
  drive-Lives [] r sound = record {
    same_id = refl;
    same_limits = refl;
    same_inputs = refl;
    counts = omega (arith, sound.1);
    scope_closed = sound.0;
  }
  drive-Lives (signals port batch ∷ cs) r sound =
      delivered_on-Lives r port batch (drive cs) _
        (process_signals-Delivers engine to_cbor r port batch) sound (drive-Lives cs)
  drive-Lives (timer id ∷ cs) r sound =
      lives_on-Lives r.inner (drive cs) _ (on_timer-Reported r id) sound (drive-Lives cs)
  drive-Lives (gpio id value ∷ cs) r sound =
      lives_on-Lives r.inner (drive cs) _ (on_gpio-Reported r id value) sound (drive-Lives cs)
  drive-Lives (http id status body ∷ cs) r sound =
      lives_on-Lives r.inner (drive cs) _ (on_http-Reported r id status body) sound (drive-Lives cs)
