-- ===== src/Master/Exchange/Write.antt =====
-- src/master.rs and src/slave.rs: the client's FC16 request and the handler that serves it.
use rs_modbus.Prelude.{
  ℕ, zero, suc, ◌+◌, ◌*◌, ◌≤◌, ◌≡◌, refl, ap, ◌∙◌, sym, arith, Option, none, some,
}
use rs_modbus.Prelude.{
  true, false, ◌&&◌, List, [], ◌∷◌, ◌++◌, append_assoc, append-nil, Bytes, Bool, Result, ok, err,
  ◌==◌, leb, ltb, if◌then◌else◌,
}
use rs_modbus.Prelude.{
  ge→ltb, ◌-◌, replicate, ==_self, IsU16, All, u8, u16, hi, lo, be16-hi-lo, byte_at, to_be_bytes,
  length, length-append,
}
use rs_modbus.Types.{ApplicationDataUnit, Framing, new}
use rs_modbus.Utils.Registers.{be_bytes, length-be_bytes}
use rs_modbus.Utils.Range.{check_range}
use rs_modbus.Session.{run_pre_checks, passed}
use rs_modbus.Errors.{ModbusError}
use rs_modbus.Slave.Model.{ModbusSlaveModel, Method}
use rs_modbus.Slave.Reply.{
  World, Link, world_of, response_adu, answer, finish, reply, write_reply, response_error,
  error_adu,
}
use rs_modbus.Slave.Reads.{word_at}
use rs_modbus.Slave.Writes.{handle_fc16, register_values, echo_payload}
use rs_modbus.Master.Requests.{Request, check_unit_fc}
use rs_modbus.Master.Requests.{
  check_length, check_echo, write_multiple_registers, write_many, filled, same_bytes,
}

-- `byte_at` behind a front.
byte_at-append :
    (front : Bytes) (b : ℕ) (rest : Bytes) (i : ℕ)
    → i ≡ length front
    → byte_at (front ++ (b ∷ rest)) i ≡ b
byte_at-append [] b rest i e = rw e
byte_at-append (x ∷ front) b rest zero e = absurd (omega arith)
byte_at-append (x ∷ front) b rest (suc i) e = byte_at-append front b rest i (omega arith)

-- The server reads back the registers that the client has written behind `base` bytes.
register_values-be_bytes :
    (regs : List ℕ) (base i : ℕ) (front : Bytes)
    → length front ≡ base + i * 2
    → All IsU16 regs
    → register_values (length regs) base i (front ++ be_bytes regs) ≡ regs
unfolding register_values be_bytes
register_values-be_bytes [] base i front e h = refl
register_values-be_bytes (r ∷ regs) base i front e (hr, h) = ground (
  arith,
  byte_at-append front (hi r) (lo r ∷ be_bytes regs) (base + i * 2) (sym e),
  ap (λ xs. byte_at xs (base + 1 + i * 2))
      (sym (append_assoc front (hi r ∷ []) (lo r ∷ be_bytes regs))),
  byte_at-append (front ++ (hi r ∷ [])) (lo r) (be_bytes regs) (base + 1 + i * 2)
      (omega (arith, length-append front (hi r ∷ []), e)),
  ap (register_values (length regs) base (i + 1))
      (sym (append_assoc front (hi r ∷ lo r ∷ []) (be_bytes regs))),
  register_values-be_bytes regs base (i + 1) (front ++ (hi r ∷ lo r ∷ []))
      (omega (arith, length-append front (hi r ∷ lo r ∷ []), e)) h,
  be16-hi-lo r hr,
)

filled_exact : (body : Bytes) → filled (length body) body ≡ some body
unfolding filled
filled_exact body =
    ap (λ b. if b then none else some (body ++ replicate (length body - length body) 0))
      (ge→ltb (length body) (length body) (omega arith))
    ∙ ap (λ k. some (body ++ replicate k 0)) none_left
    ∙ ap some (append-nil body)
  where
    none_left : length body - length body ≡ 0
    none_left = omega arith

-- The payload of the client's FC16 request.
abbrev registers_payload : ℕ → List ℕ → Bytes
registers_payload address values =
    to_be_bytes address ++ (to_be_bytes (length values) ++ (length values * 2 ∷ be_bytes values))

-- A request for at most 127 registers is built, without a panic.
write_multiple_registers_lem :
    (unit address : ℕ) (values : List ℕ)
    → length values ≤ 127
    → write_multiple_registers unit address values
      ≡ some (record {
        adu = new unit 0x10 (registers_payload address values);
        checks =
            check_unit_fc unit 0x10
            ∷ check_length 4
            ∷ check_echo (echo_payload address (length values))
            ∷ [];
      })
unfolding write_multiple_registers write_many
write_multiple_registers_lem unit address values high =
    rw (
      small,
      ap (λ (c : ℕ). filled c (be_bytes values)) exact ∙ filled_exact (be_bytes values),
      fits,
    )
  where
    small : u8 (length values * 2) ≡ length values * 2
    small = omega arith

    fits : u16 (length values) ≡ length values
    fits = omega arith

    exact : length values * 2 ≡ length (be_bytes values)
    exact = omega (arith, length-be_bytes values)

-- The branch of FC16 that writes.
handle_fc16-branch :
    {S : Type 0} (link : Link) (model : ModbusSlaveModel S) (adu : ApplicationDataUnit)
    (w : World S) (address n : ℕ) (values : List ℕ)
    → ltb (length adu.payload) 6 ≡ false
    → (length adu.payload == 5 + byte_at adu.payload 4) ≡ true
    → word_at adu.payload 0 ≡ address
    → word_at adu.payload 2 ≡ n
    → (leb 1 n && leb n 0x007b) ≡ true
    → (byte_at adu.payload 4 == u16 (n * 2)) ≡ true
    → check_range (address ∷ u16 (address + n) ∷ []) model.address_range.holding_registers ≡ true
    → register_values n 5 0 adu.payload ≡ values
    → handle_fc16 link model adu w
      ≡ answer link adu
          (model.write_multiple_registers address values)
          (λ _. response_adu adu (echo_payload address n))
          w
unfolding handle_fc16
handle_fc16-branch link model adu w address n values long sized first second bounds count range
      read =
    rw (long, sized, first, second, bounds, count, range, read)

handle_fc16-write :
    {S : Type 0} (link : Link) (model : ModbusSlaveModel S) (w : World S) (t : Option ℕ)
    (unit address : ℕ) (values : List ℕ)
    → IsU16 address
    → 1 ≤ length values
    → length values ≤ 123
    → All IsU16 values
    → check_range
        (address ∷ u16 (address + length values) ∷ [])
        model.address_range.holding_registers
      ≡ true
    → handle_fc16 link model
        (record (new unit 0x10 (registers_payload address values)) { transaction = t })
        w
      ≡ answer link
          (record (new unit 0x10 (registers_payload address values)) { transaction = t })
          (model.write_multiple_registers address values)
          (λ _. record (new unit 0x10 (echo_payload address (length values))) { transaction = t })
          w
unfolding new
handle_fc16-write link model w t unit address values a low high words range =
    handle_fc16-branch link model
      (record (new unit 0x10 (registers_payload address values)) { transaction = t }) w address
      (length values) values (ground (arith, length-be_bytes values, low))
      (ground (arith, length-be_bytes values)) (be16-hi-lo address a)
      (be16-hi-lo (length values) (omega arith)) (ground (arith, low, high)) (ground (arith, high))
      range
      (register_values-be_bytes values 5 0
        (to_be_bytes address ++ (to_be_bytes (length values) ++ (length values * 2 ∷ [])))
        (omega arith) words)

same_bytes_self : (xs : Bytes) → same_bytes xs xs ≡ true
unfolding same_bytes
same_bytes_self [] = refl
same_bytes_self (x ∷ xs) = rw (==_self x, same_bytes_self xs)

-- An answer of the request's unit and function code that repeats `echo` passes.
echo_checks :
    (unit fc : ℕ) (f : Framing) (echo : Bytes)
    → f.adu.unit ≡ unit
    → f.adu.fc ≡ fc
    → f.adu.payload ≡ echo
    → run_pre_checks f (check_unit_fc unit fc ∷ check_length (length echo) ∷ check_echo echo ∷ [])
      ≡ passed
unfolding run_pre_checks check_unit_fc check_length check_echo
echo_checks unit fc f echo u c p =
    ground (arith, u, c, ap length p, ap (λ xs. same_bytes xs echo) p, same_bytes_self echo)

-- What is sent for a request whose method returned `result`: nothing for a broadcast.
abbrev pub written :
    Link
    → ApplicationDataUnit
    → ApplicationDataUnit
    → Bool
    → Result ModbusError (Unit {0})
    → List Bytes
written link request answered true result = []
written link request answered false (ok done) = link.encode answered ∷ []
written link request answered false (err e) = link.encode (error_adu request e) ∷ []

finish-written :
    {S : Type 0} (link : Link) (request answered : ApplicationDataUnit) (b : Bool)
    (result : Result ModbusError (Unit {0})) (w : World S)
    → link.broadcast ≡ b
    → world_of (finish link request (λ (_ : Unit {0}). answered) result w)
      ≡ record w { sent = w.sent ++ written link request answered b result }
unfolding finish response_error reply write_reply
finish-written link request answered true (ok done) w e =
    rw e (ap (λ sent. record w { sent = sent }) (sym (append-nil w.sent)))
finish-written link request answered true (err x) w e =
    rw e (ap (λ sent. record w { sent = sent }) (sym (append-nil w.sent)))
finish-written link request answered false (ok done) w e = rw e refl
finish-written link request answered false (err x) w e = rw e refl

answer-written :
    {S : Type 0} (link : Link) (request answered : ApplicationDataUnit)
    (method : Method S (Unit {0})) (result : Result ModbusError (Unit {0})) (w : World S) (s : S)
    → method w.state ≡ (result, s)
    → world_of (answer link request method (λ _. answered) w)
      ≡ record { state = s; sent = w.sent ++ written link request answered link.broadcast result }
unfolding answer
answer-written link request answered method result w s e =
    rw e (finish-written link request answered link.broadcast result (record w { state = s }) refl)

-- The client's request to write from 1 to 123 registers of 16 bits, in a range that the model
-- allows, is built, and makes the server write exactly these values at this address, for a broadcast
-- too: the state afterwards is the one that the model's write leaves. For a broadcast nothing is
-- sent. Otherwise one frame is sent: the exception of the error where the write fails, and where it
-- succeeds the echo of the address and the count, which passes the client's checks.
pub handle_fc16-write_multiple_registers :
    {S : Type 0} (link : Link) (model : ModbusSlaveModel S) (w : World S) (t : Option ℕ)
    (unit address : ℕ) (values : List ℕ) (result : Result ModbusError (Unit {0})) (s : S)
    (f : Framing)
    → IsU16 address
    → 1 ≤ length values
    → length values ≤ 123
    → All IsU16 values
    → check_range
        (address ∷ u16 (address + length values) ∷ [])
        model.address_range.holding_registers
      ≡ true
    → model.write_multiple_registers address values w.state ≡ (result, s)
    → f.adu ≡ record {
      transaction = t;
      unit = unit;
      fc = 0x10;
      payload = echo_payload address (length values);
    }
    → (r : Request) × (write_multiple_registers unit address values ≡ some r)
      × (world_of (handle_fc16 link model (record r.adu { transaction = t }) w) ≡ record {
        state = s;
        sent =
            w.sent ++ written link (record r.adu { transaction = t }) f.adu link.broadcast result;
      })
      × (run_pre_checks f r.checks ≡ passed)
unfolding new
handle_fc16-write_multiple_registers link model w t unit address values result s f a low high words
      range wrote received =
    (
      _,
      write_multiple_registers_lem unit address values (omega arith),
      ap world_of (handle_fc16-write link model w t unit address values a low high words range)
          ∙ answer-written link
              (record (new unit 0x10 (registers_payload address values)) { transaction = t })
              (record (new unit 0x10 (echo_payload address (length values))) { transaction = t })
              (model.write_multiple_registers address values) result w s wrote
          ∙ ap
              (λ adu. record {
                state = s;
                sent =
                    w.sent
                    ++ written link
                        (record (new unit 0x10 (registers_payload address values)) {
                          transaction = t;
                        })
                        adu link.broadcast result;
              })
              (sym received),
      echo_checks unit 0x10 f (echo_payload address (length values)) (ap (λ adu. adu.unit) received)
          (ap (λ adu. adu.fc) received) (ap (λ adu. adu.payload) received),
    )
