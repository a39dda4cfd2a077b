-- ===== src/Host/Engine.antt =====
-- crates/host-core/src/engine.rs: what crosses the engine boundary, and the range check by which
-- every engine's `Memory` reads and writes (its body is that of crates/daemon/src/engine.rs `View`).
pub mod Linear
use eieio.Base.{
  ℕ, suc, ◌+◌, ◌-◌, ◌^◌, min, ℤ, Bool, true, false, List, [], ◌∷◌, ◌++◌, ltb, if◌then◌else◌, Result,
  ok, err, ◌>>=◌, Bytes, codes, length, take, drop, Option,
}

pub data Arg : Type 0 where
  i32 i64 : ℤ → Arg

pub data Ret : Type 0 where
  nothing : Ret
  i32 i64 : ℤ → Ret

pub data TrapKind : Type 0 where
  trap fuel deadline engine : TrapKind

pub record Trap : Type 0 where
  pub kind : TrapKind
  pub detail : Bytes

pub data EngineError : Type 0 where
  out_of_bounds : ℕ → ℕ → EngineError
  duplicate_import : Bytes → Bytes → EngineError
  engine_failed : Bytes → EngineError

-- `u32::try_from(len).unwrap_or(u32::MAX)`
abbrev pub saturated_u32 : ℕ → ℕ
saturated_u32 len = min len (2 ^ 32 - 1)

-- The range of `len` bytes from `ptr`, if it lies in a memory of that size. The sum is a `u64`.
unfoldable pub memory_range : ℕ → ℕ → ℕ → Result EngineError (ℕ × ℕ)
memory_range memory_len ptr len =
    if ltb (2 ^ 64 - 1) (ptr + len)
    then err (out_of_bounds ptr (saturated_u32 len))
    else if ltb memory_len (ptr + len)
    then err (out_of_bounds ptr (saturated_u32 len))
    else ok (ptr, ptr + len)

-- `Memory::read`: `memory_range(data.len(), ptr, len).map(|r| data[r].to_vec())`
unfoldable pub read : Bytes → ℕ → ℕ → Result EngineError Bytes
unfolding memory_range
read memory ptr len = do
  range ← memory_range (length memory) ptr len
  ok (take (range.1 - range.0) (drop range.0 memory))

-- `Memory::write`: the range, then `self.0[range].copy_from_slice(bytes)`
unfoldable pub write : Bytes → ℕ → Bytes → Result EngineError Bytes
unfolding memory_range
write memory ptr bytes = do
  range ← memory_range (length memory) ptr (length bytes)
  ok (take range.0 memory ++ (bytes ++ drop range.1 memory))
