-- ===== src/Errors/Codes.antt =====
-- src/error.rs: the conversions between exception codes, bytes and errors.
use rs_modbus.Prelude.{ℕ, ◌≡◌, ◌≤◌, ◌↔◌, some, arith}
use rs_modbus.Errors.{ErrorCode, ModbusError, as_u8, try_from}
use rs_modbus.Errors.{get_error_by_code, get_code_by_error}

-- A byte is read as the code `c` exactly when it is the discriminant of `c`.
try_from-as_u8 : (v : ℕ) (c : ErrorCode) → (try_from v ≡ some c) ↔ (as_u8 c ≡ v)
unfolding try_from as_u8
try_from-as_u8 v c = (ground arith, ground arith)

-- Every exception code comes back from the error that stands for it.
get_code_by_error-get_error_by_code : (c : ErrorCode) → get_code_by_error (get_error_by_code c) ≡ c
unfolding get_code_by_error get_error_by_code
get_code_by_error-get_error_by_code c = ground arith

-- The byte of an exception response lies in 1 to 11, whatever the error was.
pub as_u8-get_code_by_error :
    (e : ModbusError) → (1 ≤ as_u8 (get_code_by_error e)) × (as_u8 (get_code_by_error e) ≤ 11)
unfolding as_u8
as_u8-get_code_by_error e = ground arith
