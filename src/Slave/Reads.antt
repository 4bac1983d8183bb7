-- ===== src/Slave/Reads.antt =====
-- src/slave.rs: the handlers of FC1 to FC4, which read coils and registers.
use rs_modbus.Prelude.{ℕ, ◌+◌, not, ◌&&◌, [], ◌∷◌, Bytes, byte_at, be16, u16, length, ok}
use rs_modbus.Prelude.{leb, ◌==◌, if◌then◌else◌}
use rs_modbus.Errors.{ErrorCode, get_error_by_code}
use rs_modbus.Types.{ApplicationDataUnit}
use rs_modbus.Utils.Range.{check_range}
use rs_modbus.Utils.Coils.{pack_coils}
use rs_modbus.Utils.Registers.{pack_registers}
use rs_modbus.Slave.Model.{ModbusSlaveModel}
use rs_modbus.Slave.Reply.{Link, Handler, handled, response_error, response_adu, answer}

-- `from_be_bytes([data[i], data[i + 1]])`
abbrev pub word_at : Bytes → ℕ → ℕ
word_at payload i = be16 (byte_at payload i) (byte_at payload (i + 1))

module _ {S : Type 0} (link : Link) (model : ModbusSlaveModel S) where
  unfoldable pub handle_fc1 : ApplicationDataUnit → Handler S
  handle_fc1 adu w =
      if not (length adu.payload == 4)
      then handled (ok tt) w
      else let address = word_at adu.payload 0 in
        let n = word_at adu.payload 2 in
        if not (leb 1 n && leb n 0x07d0)
        then response_error link adu (get_error_by_code ErrorCode.illegal_data_value) w
        else if not (check_range (address ∷ u16 (address + n) ∷ []) model.address_range.coils)
        then response_error link adu (get_error_by_code ErrorCode.illegal_data_address) w
        else answer link adu (model.read_coils address n)
            (λ coils. response_adu adu (pack_coils coils n)) w

  unfoldable pub handle_fc2 : ApplicationDataUnit → Handler S
  handle_fc2 adu w =
      if not (length adu.payload == 4)
      then handled (ok tt) w
      else let address = word_at adu.payload 0 in
        let n = word_at adu.payload 2 in
        if not (leb 1 n && leb n 0x07d0)
        then response_error link adu (get_error_by_code ErrorCode.illegal_data_value) w
        else if not
            (check_range (address ∷ u16 (address + n) ∷ []) model.address_range.discrete_inputs)
        then response_error link adu (get_error_by_code ErrorCode.illegal_data_address) w
        else answer link adu (model.read_discrete_inputs address n)
            (λ inputs. response_adu adu (pack_coils inputs n)) w

  unfoldable pub handle_fc3 : ApplicationDataUnit → Handler S
  handle_fc3 adu w =
      if not (length adu.payload == 4)
      then handled (ok tt) w
      else let address = word_at adu.payload 0 in
        let n = word_at adu.payload 2 in
        if not (leb 1 n && leb n 0x007d)
        then response_error link adu (get_error_by_code ErrorCode.illegal_data_value) w
        else if not
            (check_range (address ∷ u16 (address + n) ∷ []) model.address_range.holding_registers)
        then response_error link adu (get_error_by_code ErrorCode.illegal_data_address) w
        else answer link adu (model.read_holding_registers address n)
            (λ registers. response_adu adu (pack_registers registers n)) w

  unfoldable pub handle_fc4 : ApplicationDataUnit → Handler S
  handle_fc4 adu w =
      if not (length adu.payload == 4)
      then handled (ok tt) w
      else let address = word_at adu.payload 0 in
        let n = word_at adu.payload 2 in
        if not (leb 1 n && leb n 0x007d)
        then response_error link adu (get_error_by_code ErrorCode.illegal_data_value) w
        else if not
            (check_range (address ∷ u16 (address + n) ∷ []) model.address_range.input_registers)
        then response_error link adu (get_error_by_code ErrorCode.illegal_data_address) w
        else answer link adu (model.read_input_registers address n)
            (λ registers. response_adu adu (pack_registers registers n)) w
