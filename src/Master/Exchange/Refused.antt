-- ===== src/Master/Exchange/Refused.antt =====
-- src/master.rs and src/slave.rs: a read that the server refuses.
use rs_modbus.Prelude.{
  ℕ, ◌+◌, ◌≡◌, refl, ap, ◌∙◌, sym, arith, Option, true, false, ◌&&◌, [], ◌∷◌, ◌++◌,
}
use rs_modbus.Prelude.{err, leb, IsU16, u16, be16-hi-lo}
use rs_modbus.Errors.{ModbusError, get_error_by_code}
use rs_modbus.Types.{ApplicationDataUnit, Framing, new}
use rs_modbus.Utils.Range.{check_range}
use rs_modbus.Session.{run_pre_checks, reject}
use rs_modbus.Slave.Model.{ModbusSlaveModel}
use rs_modbus.Slave.Reply.{
  World, Link, world_of, write_reply, error_adu, response_error, reply, answer, finish,
}
use rs_modbus.Slave.Reads.{handle_fc3}
use rs_modbus.Master.Requests.{read_request, read_holding_registers, check_unit_fc}

module _ {S : Type 0} (link : Link) (model : ModbusSlaveModel S) (w : World S) where
  abbrev read : Option ℕ → ℕ → ℕ → ℕ → ApplicationDataUnit
  read t unit address n = record (read_holding_registers unit address n).adu { transaction = t }

  -- Why a read is refused, and the error that stands for it.
  pub data Refused (address n : ℕ) : ModbusError → Type 0 where
    bad_length : (leb 1 n && leb n 125) ≡ false → Refused address n ModbusError.illegal_data_value
    bad_range :
        (leb 1 n && leb n 125) ≡ true
        → check_range (address ∷ u16 (address + n) ∷ []) model.address_range.holding_registers
          ≡ false
        → Refused address n ModbusError.illegal_data_address
    failed :
        (e : ModbusError) (s : S)
        → (leb 1 n && leb n 125) ≡ true
        → check_range (address ∷ u16 (address + n) ∷ []) model.address_range.holding_registers
          ≡ true
        → model.read_holding_registers address n w.state ≡ (err e, s)
        → Refused address n e

  refused-sent :
      (t : Option ℕ) (unit address n : ℕ) (e : ModbusError)
      → IsU16 address
      → IsU16 n
      → link.broadcast ≡ false
      → Refused address n e
      → (world_of (handle_fc3 link model (read t unit address n) w)).sent
        ≡ w.sent ++ (link.encode (error_adu (read t unit address n) e) ∷ [])
  unfolding handle_fc3 read_holding_registers read_request new response_error reply write_reply
      answer finish get_error_by_code
  refused-sent t unit address n e a b unicast (bad_length l) =
      rw (be16-hi-lo address a, be16-hi-lo n b, l, unicast) refl
  refused-sent t unit address n e a b unicast (bad_range l range) =
      rw (be16-hi-lo address a, be16-hi-lo n b, l, range, unicast) refl
  refused-sent t unit address n e a b unicast (failed x s l range result) =
      rw (be16-hi-lo address a, be16-hi-lo n b, l, range, result, unicast) refl

  -- A read of registers whose count is not from 1 to 125, whose range the model does not allow, or on
  -- which the model fails, is answered, where no broadcast, with one frame: the exception of that
  -- error, with the request's transaction and unit. Whatever the error was, the client rejects a frame
  -- with that answer as an invalid response.
  pub handle_fc3-Refused :
      (t : Option ℕ) (unit address n : ℕ) (e : ModbusError) (f : Framing)
      → IsU16 address
      → IsU16 n
      → link.broadcast ≡ false
      → Refused address n e
      → f.adu ≡ error_adu (read t unit address n) e
      → ((world_of (handle_fc3 link model (read t unit address n) w)).sent
          ≡ w.sent ++ (link.encode f.adu ∷ []))
        × (f.adu.fc ≡ 0x83)
        × (run_pre_checks f (read_holding_registers unit address n).checks
            ≡ reject ModbusError.invalid_response)
  unfolding read_holding_registers read_request new run_pre_checks check_unit_fc
  handle_fc3-Refused t unit address n e f a b unicast refused received = (
    refused-sent t unit address n e a b unicast refused
        ∙ ap (λ adu. w.sent ++ (link.encode adu ∷ [])) (sym received),
    ap (λ adu. adu.fc) received,
    ground (arith, ap (λ adu. adu.fc) received),
  )
