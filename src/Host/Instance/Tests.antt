-- ===== src/Host/Instance/Tests.antt =====
-- crates/host-core/src/instance.rs with a guest whose memory has sixteen bytes: it allocates at 8, and
-- answers 0 to everything but a timer, which it fails.
use eieio.Base.{
  ℕ, ◌≡◌, refl, pos, negsuc, true, false, none, List, [], ◌∷◌, Result, ok, err, Bytes, codes,
  text_eq, if◌then◌else◌, as_u32,
}
use eieio.Abi.{decode_status}
use eieio.Signal.Value.{end}
use eieio.Host.Engine as Memory
use eieio.Host.Memory.{Engine, Limits, alloc_export, deliver, check_alloc}
use eieio.Host.Prop.{Batch, State, opened, closed}
use eieio.Host.Router.{Descriptor}
use eieio.Host.Instance.{
  World, Live, configured, configure, running, start, call, process_signals, on_timer_export,
}
use eieio.Host.Instance.Delivers.{Delivers, handed, process_signals-Delivers}
use eieio.Host.Instance.Driven.{Callback, signals, timer, drive}
use eieio.Host.Instance.Started.{LivesFrom, drive-LivesFrom}

abbrev with_memory :
    State → Result Memory.EngineError Bytes → Result Memory.EngineError (World Bytes)
with_memory state (ok memory) = ok (state, memory)
with_memory state (err e) = err e

abbrev guest : Engine (World Bytes)
guest = record {
  call = λ world export args. (
    world,
    ok (
        if text_eq export alloc_export
        then pos 8
        else if text_eq export on_timer_export
        then negsuc 7
        else pos 0),
  );
  has_export = λ world export. true;
  write = λ world ptr bytes. with_memory world.0 (Memory.write world.1 ptr bytes);
}

abbrev idle : State
idle = record { signals = none; is_open = false; cache = []; failures = []; evaluations = 0 }

abbrev sixteen : ℕ → Bytes
sixteen at_eight = 0 ∷ 0 ∷ 0 ∷ 0 ∷ 0 ∷ 0 ∷ 0 ∷ 0 ∷ at_eight ∷ 0 ∷ 0 ∷ 0 ∷ 0 ∷ 0 ∷ 0 ∷ 0 ∷ []

abbrev filter : Descriptor
filter = record { instance_id = codes "f"; inputs = codes "in" ∷ []; outputs = codes "out" ∷ [] }

abbrev limits : Limits
limits = record { max_payload = 4; max_batch = 2; max_emission_bytes = none }

abbrev inner : Live Bytes
inner = record {
  world = (idle, sixteen 0xa0);
  instance_id = codes "f";
  inputs = 1;
  limits = limits;
  errors = 0;
}

accepts :
    configure guest (idle, sixteen 0) filter limits (0xa0 ∷ [])
    ≡ configured (record { inner = inner })
unfolding configure deliver check_alloc as_u32 Memory.write text_eq decode_status opened closed
accepts = refl

starts : start guest (record { inner = inner }) ≡ running (record { inner = inner })
unfolding start call text_eq decode_status opened closed
starts = refl

-- An encoder of one byte for each signal.
abbrev to_cbor : Batch → Bytes
to_cbor [] = 0x80 ∷ []
to_cbor (signal ∷ batch) = 0xa0 ∷ to_cbor batch

abbrev callbacks : List Callback
callbacks = timer 3 ∷ signals 0 (end ∷ []) ∷ signals 5 [] ∷ timer 4 ∷ []

drive-LivesFrom_example :
    LivesFrom guest to_cbor filter limits
      (drive guest to_cbor callbacks (record { inner = inner })).instance_left
      (drive guest to_cbor callbacks (record { inner = inner })).reported
drive-LivesFrom_example =
    drive-LivesFrom guest to_cbor (idle, sixteen 0) filter limits (0xa0 ∷ [])
      (record { inner = inner }) (record { inner = inner }) callbacks accepts starts

process_signals-Delivers_example :
    Delivers guest to_cbor
      (record { inner = inner })
      0
      (end ∷ [])
      (handed guest to_cbor (record { inner = inner }) 0 (end ∷ []))
      (process_signals guest to_cbor (record { inner = inner }) 0 (end ∷ []))
process_signals-Delivers_example =
    process_signals-Delivers guest to_cbor (record { inner = inner }) 0 (end ∷ [])
