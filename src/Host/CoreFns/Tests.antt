-- ===== src/Host/CoreFns/Tests.antt =====
-- crates/host-core/src/core_fns.rs on concrete calls.
use eieio.Base.{
  ℕ, zero, suc, ok-injective, ◌≡◌, refl, pos, negsuc, Option, some, [], ◌∷◌, arith, ok, Bytes,
  codes, length, as_i32, as_u32, ap, Bytes,
}
use eieio.Abi.{code_value}
use eieio.Host.Engine.{Arg, Ret, read}
use eieio.Host.Memory.{Limits, accept}
use eieio.Host.CoreFns.{Entropy, new, emission, emit, rand}
use eieio.Host.CoreFns.Emitting.{Event, emits, drains, Holds, run, emissions-Holds}
use eieio.Host.CoreFns.Filling.{FillsWhole, Ends, rand-Ends}

-- Two output ports, a payload of 64 bytes at most, and twelve bytes to a callback.
abbrev limits : Limits
limits = record { max_payload = 64; max_batch = 8; max_emission_bytes = some 12 }

-- A decoder that takes every payload for the batch of its bytes.
abbrev as_bytes : Bytes → ℕ → Option Bytes
as_bytes bytes depth = some bytes

abbrev five : Event
five = emits (Arg.i32 (pos 1) ∷ Arg.i32 (pos 0) ∷ Arg.i32 (pos 5) ∷ []) (codes "hello")

third_refused :
    (emit as_bytes
      (Arg.i32 (pos 1) ∷ Arg.i32 (pos 0) ∷ Arg.i32 (pos 5) ∷ [])
      (codes "hello")
      (run as_bytes limits 16 2 (new limits 16 2 (pos 0) (pos 0)) (five ∷ five ∷ []))).0
    ≡ Ret.i32 (negsuc 4)
unfolding emit emission accept read new as_u32 code_value
third_refused = refl

emissions-Holds_example : Holds as_bytes limits 16 2 (
    run as_bytes limits 16 2
      (new limits 16 2 (pos 0) (pos 0))
      (five ∷ five ∷ five ∷ drains ∷ five ∷ []))
emissions-Holds_example =
    emissions-Holds as_bytes limits 16 2 (pos 0) (pos 0) (five ∷ five ∷ five ∷ drains ∷ five ∷ [])

abbrev sevens : ℕ → Bytes
sevens zero = []
sevens (suc n) = 7 ∷ sevens n

-- A source of sevens.
abbrev lucky : Entropy (Unit {0})
lucky = record { fill = λ r n. (r, ok (sevens n)) }

length-sevens : (n : ℕ) → length (sevens n) ≡ n
length-sevens zero = refl
length-sevens (suc n) = ap suc (length-sevens n)

lucky-FillsWhole : FillsWhole lucky
lucky-FillsWhole r r' n bytes given =
    let same : sevens n ≡ bytes = ok-injective (ap (λ p. p.1) given) in
    rw (← same) (length-sevens n)

rand-Ends_example :
    Ends lucky
      (codes "abcdefgh")
      tt
      2
      4
      (rand lucky 5 (Arg.i32 (as_i32 2) ∷ Arg.i32 (as_i32 4) ∷ []) tt (codes "abcdefgh"))
rand-Ends_example =
    rand-Ends lucky lucky-FillsWhole (codes "abcdefgh") tt 2 4 (omega arith) (omega arith)
      (omega arith)
