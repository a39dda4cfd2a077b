-- ===== src/Host/Memory/Fill.antt =====
-- About `OutBuffer::fill` (crates/host-core/src/memory.rs) as a guest reads its answer.
use eieio.Base.{
  ℕ, ◌+◌, ◌-◌, ◌^◌, ◌≤◌, ◌<◌, ◌≡◌, refl, ◌⊎◌, inl, inr, ℤ, Bytes, length, arith, ltb, Bool-cases,
  as_i32_small, if-splits, pos,
}
use native.Mathlib.Decide.{dec_lt}
use eieio.Abi.{
  limit, invalid_arg, Size, written, required, failed, decode_size, code_value, code_of,
}
use eieio.Host.Engine.{write}
use eieio.Host.Engine.Linear
use eieio.Host.Engine.Linear.{Within, IsMemory, write_within, write_outside}
use eieio.Host.Memory.{fill, filled, required_size}

-- What a guest may conclude from the size it reads.
abbrev pub Answers : Bytes → ℕ → ℕ → Bytes → Bytes → Size → Type 0
Answers memory buf cap bytes memory' (written n) =
    (n ≡ length bytes)
    × (n ≤ cap)
    × Within memory buf n
    × (memory' ≡ Linear.written memory buf bytes)
Answers memory buf cap bytes memory' (required n) =
    (n ≡ length bytes) × (cap < n) × (memory' ≡ memory)
Answers memory buf cap bytes memory' (failed code) =
    (memory' ≡ memory)
    × (((code ≡ limit) × (2 ^ 31 ≤ length bytes))
        ⊎ ((code ≡ invalid_arg) × (length memory < buf + length bytes)))

module _ (memory : Bytes) (buf cap : ℕ) (bytes : Bytes) where
  -- The answer, read with the capacity that was offered.
  abbrev Read : Bytes × ℤ → Type 0
  Read (memory', answer) = Answers memory buf cap bytes memory' (decode_size answer cap)

  too_long : 2 ^ 31 ≤ length bytes → Read (memory, code_value limit)
  unfolding decode_size code_value code_of
  too_long long = (refl, inl (refl, long))

  decode_required :
      cap < length bytes → decode_size (pos (length bytes)) cap ≡ required (length bytes)
  unfolding decode_size
  decode_required short = ground arith

  decode_written :
      length bytes ≤ cap → decode_size (pos (length bytes)) cap ≡ written (length bytes)
  unfolding decode_size
  decode_written fits = ground arith

  asked : cap < length bytes → Read (memory, required_size (length bytes))
  unfolding required_size
  asked short = elim (Bool-cases (ltb (2 ^ 31 - 1) (length bytes))) [
    | inl long ↦ rw long (too_long (ground arith))
    | inr fits ↦
        rw (fits, as_i32_small (length bytes) (ground arith), decode_required short)
          (refl, short, refl)
  ]

  fits_within :
      IsMemory memory
      → cap < 2 ^ 31
      → length bytes ≤ cap
      → Within memory buf (length bytes)
      → Read (filled memory (length bytes) (write memory buf bytes))
  unfolding filled
  fits_within small cap_small fits within =
      rw
        (
          write_within memory buf bytes small within,
          as_i32_small (length bytes) (omega arith),
          decode_written fits,
        )
        (refl, fits, within, refl)

  fits_outside :
      length memory < buf + length bytes
      → Read (filled memory (length bytes) (write memory buf bytes))
  unfolding filled decode_size code_value code_of
  fits_outside outside =
      let (failure, at) = write_outside memory buf bytes outside in
      rw at (refl, inr (refl, outside))

  copied :
      IsMemory memory
      → cap < 2 ^ 31
      → length bytes ≤ cap
      → Read (filled memory (length bytes) (write memory buf bytes))
  copied small cap_small fits = elim (dec_lt (length memory) (buf + length bytes)) [
    | yes outside ↦ fits_outside outside
    | no within ↦ fits_within small cap_small fits (omega arith)
  ]

-- A guest that offers a buffer of less than 2^31 bytes, and reads the answer by the size
-- convention: `Written n` says that the n bytes of the value are in the buffer and that nothing
-- else in its memory has changed, `Required n` that the value has n bytes, more than were offered,
-- and that the memory is untouched, and a failure that the memory is untouched, with `ERR_LIMIT`
-- only for a value of 2^31 bytes or more and `ERR_INVALID_ARG` only for a range outside the memory.
pub fill-Answers :
    (memory : Bytes) (buf cap : ℕ) (bytes : Bytes)
    → IsMemory memory
    → cap < 2 ^ 31
    → Answers memory buf cap bytes
        (fill memory buf cap bytes).0
        (decode_size (fill memory buf cap bytes).1 cap)
unfolding fill
fill-Answers memory buf cap bytes small cap_small =
    if-splits (Read memory buf cap bytes) (ltb (2 ^ 32 - 1) (length bytes)) _ _
      (λ long. too_long memory buf cap bytes (ground arith))
      λ _.
        if-splits (Read memory buf cap bytes) (ltb cap (length bytes)) _ _
          (λ short. asked memory buf cap bytes (ground arith))
          (λ fits. copied memory buf cap bytes small cap_small (ground arith))
