-- ===== src/Slave/Model.antt =====
-- src/slave.rs: the trait `ModbusSlaveModel` and its default methods. A device model is code of the
-- library's user: `S` is the state of all the user's models, and each method may change it.
use rs_modbus.Prelude.{ℕ, ◌+◌, ◌-◌, Option, none, Bool, List, [], ◌∷◌, Bytes, u16}
use rs_modbus.Prelude.{Result, ok, err, bit_and, bit_or}
use rs_modbus.Errors.{ModbusError, server_device_failure}
use rs_modbus.Types.{AddressRange, ServerId}

-- A method that may fail, and that may change the state.
abbrev pub Method : Type 0 → Type 0 → Type 0
Method S A = S → Result ModbusError A × S

-- `?`: go on with the result of a method, or stop at its error.
abbrev pub after : {S A B : Type 0} → Result ModbusError A → (A → Method S B) → Method S B
after (ok a) f s = f a s
after (err e) f s = (err e, s)

pub record ModbusSlaveModel (S : Type 0) : Type 0 where
  pub unit : ℕ
  pub address_range : AddressRange
  pub intercept : ℕ → Bytes → Method S (Option Bytes)
  pub read_coils : ℕ → ℕ → Method S (List Bool)
  pub write_single_coil : ℕ → Bool → Method S (Unit {0})
  pub write_multiple_coils : ℕ → List Bool → Method S (Unit {0})
  pub read_discrete_inputs : ℕ → ℕ → Method S (List Bool)
  pub read_holding_registers : ℕ → ℕ → Method S (List ℕ)
  pub write_single_register : ℕ → ℕ → Method S (Unit {0})
  pub write_multiple_registers : ℕ → List ℕ → Method S (Unit {0})
  pub mask_write_register : ℕ → ℕ → ℕ → Method S (Unit {0})
  pub read_input_registers : ℕ → ℕ → Method S (List ℕ)
  pub report_server_id : Method S ServerId
  -- The map of the source, in the order in which it is iterated.
  pub read_device_identification : Method S (List (ℕ × Bytes))

-- `!mask` on a u16.
abbrev pub not_u16 : ℕ → ℕ
not_u16 mask = 65535 - mask

-- `*regs.first().ok_or(ServerDeviceFailure)?`
abbrev first : List ℕ → Result ModbusError ℕ
first [] = err server_device_failure
first (r ∷ regs) = ok r

unfoldable pub masked : ℕ → ℕ → ℕ → ℕ
masked current and_mask or_mask =
    bit_or (bit_and current and_mask) (bit_and or_mask (not_u16 and_mask))

module _ {S : Type 0} where
  -- The default methods that every reading or writing of a single item has.
  unfoldable pub unsupported : {A : Type 0} → Method S A
  unsupported s = (err ModbusError.illegal_function, s)

  unfoldable pub no_intercept : ℕ → Bytes → Method S (Option Bytes)
  no_intercept fc payload s = (ok none, s)

  -- The default `write_multiple_coils` and `write_multiple_registers`: item by item, up to the
  -- first that fails. `address + i` wraps.
  unfoldable pub write_each :
      {A : Type 0} → (ℕ → A → Method S (Unit {0})) → ℕ → List A → Method S (Unit {0})
  write_each write address [] s = (ok tt, s)
  write_each write address (v ∷ vs) s =
      after (write address v s).0 (λ _. write_each write (u16 (address + 1)) vs)
        (write address v s).1

  -- The default `mask_write_register`: read, combine, write.
  unfoldable pub mask_default :
      (ℕ → ℕ → Method S (List ℕ)) → (ℕ → ℕ → Method S (Unit {0})) → ℕ → ℕ → ℕ → Method S (Unit {0})
  unfolding masked
  mask_default read write address and_mask or_mask s =
      after (read address 1 s).0
        (λ regs. after (first regs) (λ current. write address (masked current and_mask or_mask)))
        (read address 1 s).1
