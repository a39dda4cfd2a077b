-- ===== src/Abi/Tests.antt =====
-- crates/abi/src/status.rs on concrete returns.
use eieio.Base.{◌≡◌, refl, negsuc, pos, arith}
use eieio.Abi.{Status, Size, Handle, unknown, decode_status, decode_size, decode_id, code_value}
use eieio.Abi.Codes.{decode-code_value}

size_larger : decode_size (pos 64) 32 ≡ Size.required 64
unfolding decode_size
size_larger = refl

decode-code_value_example :
    (decode_status (code_value (unknown (negsuc 41))) ≡ Status.failed (unknown (negsuc 41)))
    × (decode_size (code_value (unknown (negsuc 41))) 8 ≡ Size.failed (unknown (negsuc 41)))
    × (decode_id (code_value (unknown (negsuc 41))) ≡ Handle.failed (unknown (negsuc 41)))
decode-code_value_example = decode-code_value (unknown (negsuc 41)) 8 (omega arith)
