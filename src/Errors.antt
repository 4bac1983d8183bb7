-- ===== src/Errors.antt =====
-- src/error.rs: the exception codes of the protocol and the errors of the library.
pub mod Codes
use Prim.Native.String.{String}
use rs_modbus.Prelude.{ℕ, Option, none, some, ◌==◌, if◌then◌else◌}

pub data ErrorCode : Type 0 where
  illegal_function illegal_data_address illegal_data_value server_device_failure : ErrorCode
  acknowledge server_device_busy memory_parity_error gateway_path_unavailable : ErrorCode
  gateway_target_device_failed_to_respond : ErrorCode

-- The payload of `io` is an error of the standard library; only its identity is kept.
pub data ModbusError : Type 0 where
  crc_check_failed lrc_check_failed insufficient_data invalid_response invalid_data : ModbusError
  invalid_hex t1_5_exceeded incomplete_frame timeout port_not_open : ModbusError
  port_already_open port_destroyed : ModbusError
  modbus_error_code : ℕ → ModbusError
  not_supported illegal_function illegal_data_address illegal_data_value : ModbusError
  server_device_failure : ModbusError
  connection_error : String → ModbusError
  invalid_state : String → ModbusError
  io : ℕ → ModbusError

-- `code as u8`, the discriminants of the enum.
unfoldable pub as_u8 : ErrorCode → ℕ
as_u8 ErrorCode.illegal_function = 0x01
as_u8 ErrorCode.illegal_data_address = 0x02
as_u8 ErrorCode.illegal_data_value = 0x03
as_u8 ErrorCode.server_device_failure = 0x04
as_u8 ErrorCode.acknowledge = 0x05
as_u8 ErrorCode.server_device_busy = 0x06
as_u8 ErrorCode.memory_parity_error = 0x08
as_u8 ErrorCode.gateway_path_unavailable = 0x0a
as_u8 ErrorCode.gateway_target_device_failed_to_respond = 0x0b

unfoldable pub try_from : ℕ → Option ErrorCode
try_from value =
    if value == 0x01
    then some ErrorCode.illegal_function
    else if value == 0x02
    then some ErrorCode.illegal_data_address
    else if value == 0x03
    then some ErrorCode.illegal_data_value
    else if value == 0x04
    then some ErrorCode.server_device_failure
    else if value == 0x05
    then some ErrorCode.acknowledge
    else if value == 0x06
    then some ErrorCode.server_device_busy
    else if value == 0x08
    then some ErrorCode.memory_parity_error
    else if value == 0x0a
    then some ErrorCode.gateway_path_unavailable
    else if value == 0x0b
    then some ErrorCode.gateway_target_device_failed_to_respond
    else none

unfoldable pub get_error_by_code : ErrorCode → ModbusError
unfolding as_u8
get_error_by_code ErrorCode.illegal_function = ModbusError.illegal_function
get_error_by_code ErrorCode.illegal_data_address = ModbusError.illegal_data_address
get_error_by_code ErrorCode.illegal_data_value = ModbusError.illegal_data_value
get_error_by_code ErrorCode.server_device_failure = ModbusError.server_device_failure
get_error_by_code code = modbus_error_code (as_u8 code)

-- `unwrap_or(ServerDeviceFailure)`
abbrev or_failure : Option ErrorCode → ErrorCode
or_failure none = ErrorCode.server_device_failure
or_failure (some code) = code

unfoldable pub get_code_by_error : ModbusError → ErrorCode
unfolding try_from
get_code_by_error ModbusError.illegal_function = ErrorCode.illegal_function
get_code_by_error ModbusError.illegal_data_address = ErrorCode.illegal_data_address
get_code_by_error ModbusError.illegal_data_value = ErrorCode.illegal_data_value
get_code_by_error ModbusError.server_device_failure = ErrorCode.server_device_failure
get_code_by_error (modbus_error_code code) = or_failure (try_from code)
get_code_by_error _ = ErrorCode.server_device_failure
