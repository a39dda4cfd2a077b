-- ===== src/Abi/Codes.antt =====
-- About the error codes and the decoders of crates/abi/src/status.rs.
use eieio.Base.{ℕ, ◌≡◌, refl, ℤ, pos, negsuc, ◌<ℤ◌, some, arith}
use eieio.Abi.{
  ErrorCode, invalid_arg, no_signal_context, expr, capability, limit, throttled, not_found, io,
  unsupported, unknown, code_value, code_of, Status, decode_status, Size, decode_size, Handle,
  decode_id,
}

-- The codes that a host or a decoder makes: `unknown` only holds what the table does not assign.
abbrev pub IsAssigned : ErrorCode → Type 0
IsAssigned (unknown code) = code <ℤ negsuc 8
IsAssigned _ = Unit {0}

pub code_of-code_value : (c : ErrorCode) → IsAssigned c → code_of (code_value c) ≡ some c
unfolding code_of code_value
code_of-code_value invalid_arg h = refl
code_of-code_value no_signal_context h = refl
code_of-code_value expr h = refl
code_of-code_value capability h = refl
code_of-code_value limit h = refl
code_of-code_value throttled h = refl
code_of-code_value not_found h = refl
code_of-code_value io h = refl
code_of-code_value unsupported h = refl
code_of-code_value (unknown (pos k)) h = absurd (omega arith)
code_of-code_value (unknown (negsuc k)) h = ground arith

pub code_value-code_of : (v : ℤ) (c : ErrorCode) → code_of v ≡ some c → code_value c ≡ v
unfolding code_of code_value
code_value-code_of (pos k) c h = absurd (ground arith)
code_value-code_of (negsuc k) c h = ground arith

-- A code's number, whichever of the three conventions a guest's or a host's return is read by, is
-- read as that code: the table's nine codes, and `unknown` for a number below -9.
pub decode-code_value :
    (c : ErrorCode) (cap : ℕ)
    → IsAssigned c
    → (decode_status (code_value c) ≡ Status.failed c)
      × (decode_size (code_value c) cap ≡ Size.failed c)
      × (decode_id (code_value c) ≡ Handle.failed c)
unfolding decode_status decode_size decode_id code_of code_value
decode-code_value invalid_arg cap h = (refl, refl, refl)
decode-code_value no_signal_context cap h = (refl, refl, refl)
decode-code_value expr cap h = (refl, refl, refl)
decode-code_value capability cap h = (refl, refl, refl)
decode-code_value limit cap h = (refl, refl, refl)
decode-code_value throttled cap h = (refl, refl, refl)
decode-code_value not_found cap h = (refl, refl, refl)
decode-code_value io cap h = (refl, refl, refl)
decode-code_value unsupported cap h = (refl, refl, refl)
decode-code_value (unknown (pos k)) cap h = absurd (omega arith)
decode-code_value (unknown (negsuc k)) cap h = (ground arith, ground arith, ground arith)
