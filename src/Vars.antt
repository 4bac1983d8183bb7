-- ===== src/Vars.antt =====
-- src/vars.rs: function codes, constants and quantity limits of the protocol.
use rs_modbus.Prelude.{ℕ}

-- The enum `FunctionCode` is used through `as_u8` only: its codes are the numbers themselves.
abbrev pub read_device_identification : ℕ
read_device_identification = 0x2b

abbrev pub exception_offset : ℕ
exception_offset = 0x80

abbrev pub coil_on : ℕ
coil_on = 0xff00

abbrev pub coil_off : ℕ
coil_off = 0x0000

abbrev pub mei_read_device_id : ℕ
mei_read_device_id = 0x0e
