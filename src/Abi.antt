-- ===== src/Abi.antt =====
-- crates/abi/src/lib.rs and crates/abi/src/status.rs: the sentinels, the log levels, the error
-- codes and the three conventions by which an `i32` return is read.
mod Tests
pub mod Codes
use eieio.Base.{
  ℕ, ◌+◌, ℤ, pos, negsuc, Bool, true, false, Option, none, some, leb, ◌==◌, if◌then◌else◌,
}

-- `SIGNAL_NONE` and `ALLOC_ALIGN`
abbrev pub signal_none : ℕ
signal_none = 0xffff_ffff

abbrev pub alloc_align : ℕ
alloc_align = 8

pub data Level : Type 0 where
  trace debug info warn error : Level

-- `Level::from_i32`: an unassigned number reads as an error.
unfoldable pub level_of : ℤ → Level
level_of (pos k) =
    if k == 0
    then trace
    else if k == 1
    then debug
    else if k == 2
    then info
    else if k == 3
    then warn
    else error
level_of (negsuc k) = error

pub data ErrorCode : Type 0 where
  invalid_arg no_signal_context expr capability limit throttled not_found io : ErrorCode
  unsupported : ErrorCode
  unknown : ℤ → ErrorCode

-- `ErrorCode::as_i32`: `negsuc k` is -(k + 1).
unfoldable pub code_value : ErrorCode → ℤ
code_value invalid_arg = negsuc 0
code_value no_signal_context = negsuc 1
code_value expr = negsuc 2
code_value capability = negsuc 3
code_value limit = negsuc 4
code_value throttled = negsuc 5
code_value not_found = negsuc 6
code_value io = negsuc 7
code_value unsupported = negsuc 8
code_value (unknown code) = code

-- `ErrorCode::from_i32`
unfoldable pub code_of : ℤ → Option ErrorCode
code_of (pos k) = none
code_of (negsuc k) = some (
    if k == 0
    then invalid_arg
    else if k == 1
    then no_signal_context
    else if k == 2
    then expr
    else if k == 3
    then capability
    else if k == 4
    then limit
    else if k == 5
    then throttled
    else if k == 6
    then not_found
    else if k == 7
    then io
    else if k == 8
    then unsupported
    else unknown (negsuc k))

pub data Status : Type 0 where
  ok : Status
  failed : ErrorCode → Status

-- `Status::decode`: a positive return is an error without a name.
unfoldable pub decode_status : ℤ → Status
unfolding code_of
decode_status (pos k) = if k == 0 then ok else failed (unknown (pos k))
decode_status (negsuc k) = elim (code_of (negsuc k)) [
  | some code ↦ failed code
  | none ↦ failed (unknown (negsuc k))
]

abbrev pub is_ok : Status → Bool
is_ok ok = true
is_ok (failed code) = false

pub data Size : Type 0 where
  written : ℕ → Size
  required : ℕ → Size
  failed : ErrorCode → Size

-- `Size::decode`, against the capacity that was offered
unfoldable pub decode_size : ℤ → ℕ → Size
unfolding code_of
decode_size (negsuc k) cap = elim (code_of (negsuc k)) [
  | some code ↦ Size.failed code
  | none ↦ Size.failed (unknown (negsuc k))
]
decode_size (pos value) cap = if leb value cap then written value else required value

pub data Handle : Type 0 where
  assigned : ℕ → Handle
  failed : ErrorCode → Handle

-- `Id::decode`
unfoldable pub decode_id : ℤ → Handle
unfolding code_of
decode_id (negsuc k) = elim (code_of (negsuc k)) [
  | some code ↦ Handle.failed code
  | none ↦ Handle.failed (unknown (negsuc k))
]
decode_id (pos value) = assigned value
