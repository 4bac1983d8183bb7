-- ===== src/Master/Exchange.antt =====
-- src/master.rs and src/slave.rs: a request of the client, the handler that serves it, and the
-- reading of its answer.
pub mod Write
pub mod Identity
pub mod Refused
pub mod Network
use rs_modbus.Prelude.{
  ℕ, zero, suc, ◌+◌, ◌*◌, ◌≤◌, ◌≡◌, refl, ap, ◌∙◌, sym, arith, Option, none, some,
}
use rs_modbus.Prelude.{
  true, false, ◌&&◌, List, [], ◌∷◌, ◌++◌, append_assoc, append-nil, Bytes, ok, ◌==◌, leb, ltb,
  if◌then◌else◌,
}
use rs_modbus.Prelude.{
  ◌>>=◌, ge→ltb, ◌-◌, replicate, ==_self, IsU16, All, u8, u16, hi, lo, be16-hi-lo, byte_at,
  to_be_bytes, length, length-append,
}
use rs_modbus.Types.{ApplicationDataUnit, Framing, new}
use rs_modbus.Utils.Registers.{
  be_bytes, pack_registers, parse_registers, length-be_bytes, parse_registers-pack_registers,
}
use rs_modbus.Utils.Range.{check_range}
use rs_modbus.Session.{run_pre_checks, passed}
use rs_modbus.Slave.Model.{ModbusSlaveModel, Method}
use rs_modbus.Slave.Reply.{
  World, Link, handled, world_of, write_reply, response_adu, reply, answer, finish,
}
use rs_modbus.Slave.Reads.{handle_fc3, word_at}
use rs_modbus.Slave.Writes.{handle_fc16, register_values, echo_payload}
use rs_modbus.Master.Requests.{
  Request, read_request, read_holding_registers, registers_response, response_of, check_unit_fc,
}
use rs_modbus.Master.Requests.{
  check_length, check_byte_count, check_echo, write_multiple_registers, write_many, filled,
  same_bytes,
}

-- An answer of the request's unit and function code, with the count and as many bytes, passes.
read_checks :
    (unit fc address n byte_count : ℕ) (f : Framing) (body : Bytes)
    → f.adu.unit ≡ unit
    → f.adu.fc ≡ fc
    → f.adu.payload ≡ byte_count ∷ body
    → length body ≡ byte_count
    → run_pre_checks f (read_request unit fc address n byte_count).checks ≡ passed
unfolding run_pre_checks read_request check_unit_fc check_length check_byte_count
read_checks unit fc address n byte_count f body u c p l =
    ground (arith, u, c, ap length p, ap (λ xs. byte_at xs 0) p, l)

-- A method that succeeds is answered with what it returns.
pub answer-ok :
    {S A : Type 0} (link : Link) (adu : ApplicationDataUnit) (method : Method S A)
    (build : A → ApplicationDataUnit) (w : World S) (a : A) (s : S)
    → link.broadcast ≡ false
    → method w.state ≡ (ok a, s)
    → answer link adu method build w
      ≡ handled
          (link.respond w.sent (link.encode (build a)))
          (record { state = s; sent = w.sent ++ (link.encode (build a) ∷ []) })
unfolding answer finish reply write_reply
answer-ok link adu method build w a s unicast result = rw (result, unicast)

-- The handler of FC3 reads the registers that the client asks for.
handle_fc3-read :
    {S : Type 0} (link : Link) (model : ModbusSlaveModel S) (w : World S) (t : Option ℕ)
    (unit address n : ℕ)
    → IsU16 address
    → 1 ≤ n
    → n ≤ 125
    → check_range (address ∷ u16 (address + n) ∷ []) model.address_range.holding_registers ≡ true
    → handle_fc3 link model
        (record (read_holding_registers unit address n).adu { transaction = t })
        w
      ≡ answer link
          (record (read_holding_registers unit address n).adu { transaction = t })
          (model.read_holding_registers address n)
          (λ registers.
            response_adu
              (record (read_holding_registers unit address n).adu { transaction = t })
              (pack_registers registers n))
          w
unfolding handle_fc3 read_holding_registers read_request new
handle_fc3-read link model w t unit address n a low high range =
    rw (be16-hi-lo address a, be16-hi-lo n (omega arith), range, in_bounds)
  where
    in_bounds : (leb 1 n && leb n 0x007d) ≡ true
    in_bounds = ground (arith, low, high)

-- The client's request to read `n` registers, from 1 to 125, in a range that the model allows, is
-- served with one frame, where no broadcast, and the model returns `n` registers of 16 bits. The
-- frame with the answer passes all of the client's checks, and the client gets these registers.
pub registers_response-handle_fc3 :
    {S : Type 0} (link : Link) (model : ModbusSlaveModel S) (w : World S) (t : Option ℕ)
    (unit address n : ℕ) (registers : List ℕ) (s : S) (f : Framing)
    → IsU16 address
    → 1 ≤ n
    → n ≤ 125
    → check_range (address ∷ u16 (address + n) ∷ []) model.address_range.holding_registers ≡ true
    → link.broadcast ≡ false
    → model.read_holding_registers address n w.state ≡ (ok registers, s)
    → n ≡ length registers
    → All IsU16 registers
    → f.adu ≡ record (read_holding_registers unit address n).adu {
      transaction = t;
      payload = pack_registers registers n;
    }
    → (world_of (
          handle_fc3 link model
            (record (read_holding_registers unit address n).adu { transaction = t })
            w)).sent
        ≡ w.sent ++ (link.encode f.adu ∷ [])
      × (run_pre_checks f (read_holding_registers unit address n).checks ≡ passed)
      × (registers_response n f ≡ some (response_of f registers))
unfolding read_holding_registers pack_registers read_request new registers_response
registers_response-handle_fc3 link model w t unit address n registers s f a low high range unicast
      result count words received =
    (
      ap (λ h. (world_of h).sent)
            (handle_fc3-read link model w t unit address n a low high range
              ∙ answer-ok link _ _ _ w registers s unicast result)
          ∙ ap (λ adu. w.sent ++ (link.encode adu ∷ [])) (sym received),
      checked,
      parsed,
    )
  where
    checked : run_pre_checks f (read_holding_registers unit address n).checks ≡ passed
    checked =
        read_checks unit 0x03 address n (u16 (n * 2)) f (be_bytes registers)
          (ap (λ adu. adu.unit) received) (ap (λ adu. adu.fc) received)
          (ap (λ adu. adu.payload) received ∙ ap (λ c. c ∷ be_bytes registers) (omega arith))
          (omega (arith, length-be_bytes registers, count))

    parsed : registers_response n f ≡ some (response_of f registers)
    parsed =
        ap (λ (o : Option (List ℕ)). o >>= λ regs. some (response_of f regs))
          (ap (λ adu. parse_registers adu.payload n) received
            ∙ parse_registers-pack_registers registers n count words)
