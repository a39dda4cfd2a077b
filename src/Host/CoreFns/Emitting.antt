-- ===== src/Host/CoreFns/Emitting.antt =====
-- About `emit` and `take_emissions` (crates/host-core/src/core_fns.rs), one call after another.
use eieio.Base.{
  ℕ, ◌+◌, ◌-◌, ◌^◌, ◌≤◌, ◌<◌, min, ◌≡◌, refl, ◌⊎◌, inl, inr, ap, ℤ, Option, none, some, List, [],
  ◌∷◌, ◌++◌, arith, Result, ok, err, >>=-splits, ok-injective, Bytes, length, as_u32, Bool-cases,
  ◌==◌,
}
use eieio.Abi.{ErrorCode}
use eieio.Host.Engine.{Arg, EngineError, read}
use eieio.Host.Engine.Linear.{length-read}
use eieio.Host.Memory.{Limits, accept, accept_budget}
use eieio.Host.Router.{port_err}
use eieio.Host.CoreFns.{
  Emission, Shared, new, emission, enqueue, emit, emit_words, take_emissions, three_i32, payload_of,
  decoded,
}

-- A guest's calls of `emit`, each with the memory it finds, and the host's drains between them.
pub data Event : Type 0 where
  emits : List Arg → Bytes → Event
  drains : Event

-- A port that the instance declares, or the error port
abbrev pub IsPort : ℕ → ℕ → Type 0
IsPort outputs port = (port ≡ port_err) ⊎ (port < outputs)

abbrev pub IsBudgeted : Option ℕ → ℕ → Type 0
IsBudgeted none held = Unit {0}
IsBudgeted (some budget) held = held ≤ budget

module _ {B : Type 0} (decode : Bytes → ℕ → Option B) (limits : Limits) (depth outputs : ℕ) where
  abbrev pub step : Shared B → Event → Shared B
  step shared (emits args memory) = (emit decode args memory shared).1
  step shared drains = (take_emissions shared).1

  abbrev pub run : Shared B → List Event → Shared B
  run shared [] = shared
  run shared (e ∷ events) = run (step shared e) events

  -- The queue, emission by emission: each is what a payload decodes to, within the published limit
  -- and for a port of the instance. The index counts the bytes of the payloads.
  pub data Backed : List (Emission B) → ℕ → Type 0 where
    empty : Backed [] 0
    pushed :
        {es : List (Emission B)} {total : ℕ} (e : Emission B) (payload : Bytes)
        → Backed es total
        → IsPort outputs e.port
        → length payload ≤ limits.max_payload
        → decode payload depth ≡ some e.batch
        → (all_es : List (Emission B)) (sum : ℕ) → all_es ≡ es ++ e ∷ []
        → sum ≡ total + length payload
        → Backed all_es sum

  pub record Holds (shared : Shared B) : Type 0 where
    pub same_limits : shared.limits ≡ limits
    pub same_depth : shared.decode_depth ≡ depth
    pub same_outputs : shared.outputs ≡ outputs
    pub total : ℕ
    pub backed : Backed shared.emissions total
    pub counted : shared.held ≡ min total (2 ^ 32 - 1)
    pub budgeted : IsBudgeted limits.max_emission_bytes shared.held

  has_room :
      (budget : Option ℕ) (port len held p : ℕ)
      → accept_budget budget port len held ≡ ok p
      → (p ≡ port) × IsBudgeted budget (min (held + len) (2 ^ 32 - 1))
  unfolding accept_budget
  has_room none port len held p h = (ground arith, tt)
  has_room (some budget) port len held p h = ground arith

  is_port : (port len held p : ℕ) → accept port len outputs limits held ≡ ok p → IsPort outputs port
  unfolding accept
  is_port port len held p h = elim (Bool-cases (port == port_err)) [
    | inl special ↦ inl (ground arith)
    | inr other ↦ inr (ground arith)
  ]

  fits :
      (port len held p : ℕ)
      → accept port len outputs limits held ≡ ok p
      → (len ≤ limits.max_payload) × (accept_budget limits.max_emission_bytes port len held ≡ ok p)
  unfolding accept
  fits port len held p h = (ground arith, ground arith)

  zero-IsBudgeted : (budget : Option ℕ) → IsBudgeted budget 0
  zero-IsBudgeted none = tt
  zero-IsBudgeted (some budget) = omega arith

  -- What an emission that was agreed to says of its port, its payload and its batch.
  abbrev Agreed : Shared B → ℕ → Emission B → Type 0
  Agreed shared len e =
      (payload : Bytes) × (length payload ≡ len)
      × IsPort outputs e.port
      × (len ≤ limits.max_payload)
      × (decode payload depth ≡ some e.batch)
      × IsBudgeted limits.max_emission_bytes (min (shared.held + len) (2 ^ 32 - 1))

  decoded-some : (o : Option B) (batch : B) → decoded o ≡ ok batch → o ≡ some batch
  decoded-some none batch h = absurd (ground arith)
  decoded-some (some b) batch h = ap some (ok-injective h)

  payload-ok :
      (r : Result EngineError Bytes) (bytes : Bytes) → payload_of r ≡ ok bytes → r ≡ ok bytes
  payload-ok (ok b) bytes h = ap ok (ok-injective h)
  payload-ok (err e) bytes h = absurd (ground arith)

  emission-Agreed :
      (shared : Shared B) (port ptr len : ℕ) (memory : Bytes) (e : Emission B)
      → Holds shared
      → emission decode port ptr len memory shared ≡ ok e
      → Agreed shared len e
  unfolding emission
  emission-Agreed shared port ptr len memory e holds h =
      let (p, h1, rest) =
        >>=-splits (accept port len shared.outputs shared.limits shared.held) _ h in
      let (payload, h2, rest') = >>=-splits (payload_of (read memory ptr len)) _ rest in
      let (batch, h3, end) = >>=-splits (decoded (decode payload shared.decode_depth)) _ rest' in
      let accepts : accept port len outputs limits shared.held ≡ ok p =
        rw (holds.same_outputs, holds.same_limits) at h1 in
      let decodes : decode payload depth ≡ some batch =
        rw holds.same_depth at (decoded-some (decode payload shared.decode_depth) batch h3) in
      let (short, room) = fits port len shared.held p accepts in
      let (same, budget) = has_room limits.max_emission_bytes port len shared.held p room in
      let is : record { port = p; batch = batch } ≡ e = ok-injective end in
      rw (← is) (
        payload,
        length-read memory ptr len payload (payload-ok (read memory ptr len) payload h2),
        rw same (is_port port len shared.held p accepts),
        short,
        decodes,
        budget,
      )

  -- What `emit` does with it.
  enqueue-Holds :
      (shared : Shared B) (len : ℕ) (r : Result ErrorCode (Emission B))
      → Holds shared
      → ((e : Emission B) → r ≡ ok e → Agreed shared len e)
      → Holds (enqueue len shared r).1
  unfolding enqueue
  enqueue-Holds shared len (err code) holds agreed = holds
  enqueue-Holds shared len (ok e) holds agreed =
      let (payload, sized, port, short, decodes, budget) = agreed e refl in
      record {
        same_limits = holds.same_limits;
        same_depth = holds.same_depth;
        same_outputs = holds.same_outputs;
        total = holds.total + length payload;
        backed =
            pushed e payload holds.backed port (rw sized short) decodes (shared.emissions ++ e ∷ [])
              (holds.total + length payload) refl refl;
        counted = omega (arith, holds.counted, sized);
        budgeted = budget;
      }

  words-Holds :
      (shared : Shared B) (memory : Bytes) (args : Option (ℤ × ℤ × ℤ))
      → Holds shared
      → Holds (emit_words decode memory shared args).1
  unfolding emit_words
  words-Holds shared memory none holds = holds
  words-Holds shared memory (some (port, ptr, len)) holds =
      enqueue-Holds shared (as_u32 len) _ holds
        λ e. emission-Agreed shared (as_u32 port) (as_u32 ptr) (as_u32 len) memory e holds

  step-Holds : (shared : Shared B) (e : Event) → Holds shared → Holds (step shared e)
  unfolding emit take_emissions
  step-Holds shared (emits args memory) holds = words-Holds shared memory (three_i32 args) holds
  step-Holds shared drains holds = record {
    same_limits = holds.same_limits;
    same_depth = holds.same_depth;
    same_outputs = holds.same_outputs;
    total = 0;
    backed = empty;
    counted = refl;
    budgeted = zero-IsBudgeted limits.max_emission_bytes;
  }

  run-Holds : (shared : Shared B) (events : List Event) → Holds shared → Holds (run shared events)
  run-Holds shared [] holds = holds
  run-Holds shared (e ∷ events) holds = run-Holds (step shared e) events (step-Holds shared e holds)

-- After any sequence of a guest's emissions and of the host's drains: everything in the queue is
-- what some payload decodes to, in order, for a port that the instance declares or the error port,
-- from at most `max_payload` bytes; `held` counts the bytes of those payloads, saturated; and where
-- the limits have an emission budget, it is at most the budget.
pub emissions-Holds :
    {B : Type 0} (decode : Bytes → ℕ → Option B) (limits : Limits) (depth outputs : ℕ)
    (unix_ms mono_ms : ℤ) (events : List Event)
    → Holds decode limits depth outputs
        (run decode limits depth outputs (new limits depth outputs unix_ms mono_ms) events)
unfolding new
emissions-Holds decode limits depth outputs unix_ms mono_ms events =
    run-Holds decode limits depth outputs _ events (record {
      same_limits = refl;
      same_depth = refl;
      same_outputs = refl;
      total = 0;
      backed = empty;
      counted = refl;
      budgeted = zero-IsBudgeted decode limits depth outputs limits.max_emission_bytes;
    })
