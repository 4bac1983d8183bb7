-- ===== src/Slave/Writes.antt =====
-- src/slave.rs: the handlers of FC5, FC6, FC15, FC16, FC22 and FC23, which write coils and
-- registers. The locks of FC22 and FC23 order concurrent requests; one request alone is not
-- changed by them.
use rs_modbus.Prelude.{ℕ, zero, suc, ◌+◌, ◌*◌, ◌/◌, ◌%◌, ◌^◌, Bool, not, ◌&&◌, ◌||◌}
use rs_modbus.Prelude.{List, [], ◌∷◌, ◌++◌, Bytes, byte_at, be16, u16, to_be_bytes, length, ok, err}
use rs_modbus.Prelude.{ltb, leb, ◌==◌, if◌then◌else◌, Result}
use rs_modbus.Errors.{ErrorCode, ModbusError, get_error_by_code}
use rs_modbus.Types.{ApplicationDataUnit}
use rs_modbus.Utils.Range.{check_range}
use rs_modbus.Utils.Registers.{pack_registers}
use rs_modbus.Slave.Model.{ModbusSlaveModel}
use rs_modbus.Slave.Reply.{Link, Handler, handled, response_error, response_adu, answer}
use rs_modbus.Slave.Reads.{word_at}

-- `(0..length).map(|i| (data[5 + i / 8] >> (i % 8)) & 1 == 1)`, from coil `i` on.
unfoldable pub coil_values : ℕ → ℕ → Bytes → List Bool
coil_values zero i payload = []
coil_values (suc more) i payload =
    (byte_at payload (5 + i / 8) / 2 ^ (i % 8) % 2 == 1) ∷ coil_values more (i + 1) payload

-- `(0..length).map(|i| from_be_bytes([data[base + i * 2], data[base + 1 + i * 2]]))`, from `i` on.
unfoldable pub register_values : ℕ → ℕ → ℕ → Bytes → List ℕ
register_values zero base i payload = []
register_values (suc more) base i payload =
    be16 (byte_at payload (base + i * 2)) (byte_at payload (base + 1 + i * 2))
    ∷ register_values more base (i + 1) payload

-- `address` and `length`, as the response to FC15 and FC16 repeats them.
abbrev pub echo_payload : ℕ → ℕ → Bytes
echo_payload address n = to_be_bytes address ++ to_be_bytes n

module _ {S : Type 0} (link : Link) (model : ModbusSlaveModel S) where
  unfoldable pub handle_fc5 : ApplicationDataUnit → Handler S
  handle_fc5 adu w =
      if not (length adu.payload == 4)
      then handled (ok tt) w
      else let address = word_at adu.payload 0 in
        let value = word_at adu.payload 2 in
        if not (value == 0x0000) && not (value == 0xff00)
        then response_error link adu (get_error_by_code ErrorCode.illegal_data_value) w
        else if not (check_range (address ∷ []) model.address_range.coils)
        then response_error link adu (get_error_by_code ErrorCode.illegal_data_address) w
        else answer link adu (model.write_single_coil address (value == 0xff00)) (λ _. adu) w

  unfoldable pub handle_fc6 : ApplicationDataUnit → Handler S
  handle_fc6 adu w =
      if not (length adu.payload == 4)
      then handled (ok tt) w
      else let address = word_at adu.payload 0 in
        let value = word_at adu.payload 2 in
        if not (check_range (address ∷ []) model.address_range.holding_registers)
        then response_error link adu (get_error_by_code ErrorCode.illegal_data_address) w
        else answer link adu (model.write_single_register address value) (λ _. adu) w

  unfoldable pub handle_fc15 : ApplicationDataUnit → Handler S
  unfolding coil_values
  handle_fc15 adu w =
      if ltb (length adu.payload) 6 || not (length adu.payload == 5 + byte_at adu.payload 4)
      then handled (ok tt) w
      else let address = word_at adu.payload 0 in
        let n = word_at adu.payload 2 in
        let byte_count = byte_at adu.payload 4 in
        if not (leb 1 n && leb n 0x07b0) || not (byte_count == u16 (n + 7) / 8)
        then response_error link adu (get_error_by_code ErrorCode.illegal_data_value) w
        else if not (check_range (address ∷ u16 (address + n) ∷ []) model.address_range.coils)
        then response_error link adu (get_error_by_code ErrorCode.illegal_data_address) w
        else answer link adu (model.write_multiple_coils address (coil_values n 0 adu.payload))
            (λ _. response_adu adu (echo_payload address n)) w

  unfoldable pub handle_fc16 : ApplicationDataUnit → Handler S
  unfolding register_values
  handle_fc16 adu w =
      if ltb (length adu.payload) 6 || not (length adu.payload == 5 + byte_at adu.payload 4)
      then handled (ok tt) w
      else let address = word_at adu.payload 0 in
        let n = word_at adu.payload 2 in
        let byte_count = byte_at adu.payload 4 in
        if not (leb 1 n && leb n 0x007b) || not (byte_count == u16 (n * 2))
        then response_error link adu (get_error_by_code ErrorCode.illegal_data_value) w
        else if not
            (check_range (address ∷ u16 (address + n) ∷ []) model.address_range.holding_registers)
        then response_error link adu (get_error_by_code ErrorCode.illegal_data_address) w
        else answer link adu
            (model.write_multiple_registers address (register_values n 5 0 adu.payload))
            (λ _. response_adu adu (echo_payload address n)) w

  unfoldable pub handle_fc22 : ApplicationDataUnit → Handler S
  handle_fc22 adu w =
      if not (length adu.payload == 6)
      then handled (ok tt) w
      else let address = word_at adu.payload 0 in
        let and_mask = word_at adu.payload 2 in
        let or_mask = word_at adu.payload 4 in
        if not (check_range (address ∷ []) model.address_range.holding_registers)
        then response_error link adu (get_error_by_code ErrorCode.illegal_data_address) w
        else answer link adu (model.mask_write_register address and_mask or_mask) (λ _. adu) w

  -- What FC23 does once the registers are written.
  unfoldable pub read_after_write :
      ApplicationDataUnit → ℕ → ℕ → Result ModbusError (Unit {0}) → Handler S
  read_after_write adu address n (ok done) w =
      answer link adu (model.read_holding_registers address n)
        (λ registers. response_adu adu (pack_registers registers n)) w
  read_after_write adu address n (err e) w = response_error link adu e w

  unfoldable pub handle_fc23 : ApplicationDataUnit → Handler S
  unfolding register_values read_after_write
  handle_fc23 adu w =
      if ltb (length adu.payload) 10 || not (length adu.payload == 9 + byte_at adu.payload 8)
      then handled (ok tt) w
      else let read_address = word_at adu.payload 0 in
        let read_length = word_at adu.payload 2 in
        let write_address = word_at adu.payload 4 in
        let write_length = word_at adu.payload 6 in
        let byte_count = byte_at adu.payload 8 in
        if not (leb 1 read_length && leb read_length 0x007d)
          || not (leb 1 write_length && leb write_length 0x0079)
          || not (byte_count == u16 (write_length * 2))
        then response_error link adu (get_error_by_code ErrorCode.illegal_data_value) w
        else if not (
            check_range
              (read_address
                ∷ u16 (read_address + read_length)
                ∷ write_address
                ∷ u16 (write_address + write_length)
                ∷ [])
              model.address_range.holding_registers)
        then response_error link adu (get_error_by_code ErrorCode.illegal_data_address) w
        else let written =
            model.write_multiple_registers write_address
              (register_values write_length 9 0 adu.payload) w.state in
          read_after_write adu read_address read_length written.0 (record w { state = written.1 })
