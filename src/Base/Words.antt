-- ===== src/Base/Words.antt =====
-- `i32` and `u32`: a signed word is the integer it stands for, and the casts between the two wrap.
use Prim.Native.Nat.{ℕ, ◌-◌, ◌%◌, ◌^◌, ◌≤◌, ◌<◌}
use mathlib.Core.Path.{◌≡◌}
use native.Mathlib.Omega.{arith}
use eieio.Base.Tests.{ltb, if◌then◌else◌}
use eieio.Base.Int.{ℤ, pos, negsuc, pos_part, neg_part}

-- The values of an `i32`: at least -2^31 and below 2^31.
abbrev pub IsI32 : ℤ → Type 0
IsI32 n = (pos_part n < 2 ^ 31) × (neg_part n ≤ 2 ^ 31)

abbrev pub IsU32 : ℕ → Type 0
IsU32 n = n < 2 ^ 32

-- `value as u32` of an `i32`
unfoldable pub as_u32 : ℤ → ℕ
as_u32 (pos k) = k % 2 ^ 32
as_u32 (negsuc k) = 2 ^ 32 - 1 - k % 2 ^ 32

-- `value as i32` of a `u32`
unfoldable pub as_i32 : ℕ → ℤ
as_i32 u = if ltb u (2 ^ 31) then pos u else negsuc (2 ^ 32 - 1 - u)

pub as_u32-IsU32 : (n : ℤ) → IsU32 (as_u32 n)
unfolding as_u32
as_u32-IsU32 (pos k) = omega arith
as_u32-IsU32 (negsuc k) = omega arith

pub as_u32-as_i32 : (u : ℕ) → IsU32 u → as_u32 (as_i32 u) ≡ u
unfolding as_u32 as_i32
as_u32-as_i32 u h = ground arith

pub as_i32_small : (u : ℕ) → u < 2 ^ 31 → as_i32 u ≡ pos u
unfolding as_i32
as_i32_small u h = ground arith
