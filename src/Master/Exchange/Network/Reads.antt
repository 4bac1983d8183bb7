-- ===== src/Master/Exchange/Network/Reads.antt =====
-- src/master.rs, src/slave.rs and src/layers/application/tcp.rs: FC3 over a TCP connection.
use rs_modbus.Prelude.{ℕ, ◌+◌, ◌≤◌, ◌≡◌, ◌≢◌, refl, ap, ◌∙◌, arith, none, some, true, false}
use rs_modbus.Prelude.{
  List, [], ◌∷◌, ◌++◌, Bytes, Result, ok, ◌==◌, IsU16, All, u16, length, concat,
}
use rs_modbus.Prelude.HashMap.{HashMap, lookup, nat_eq}
use rs_modbus.Errors.{ModbusError}
use rs_modbus.Types.{ApplicationDataUnit, Framing, ConnectionId, new}
use rs_modbus.Application.Role.{ApplicationProtocol}
use rs_modbus.Application.Tcp.Stream.{wire}
use rs_modbus.Utils.Registers.{pack_registers, length-be_bytes}
use rs_modbus.Utils.Range.{check_range}
use rs_modbus.Session.{tid, MasterSession, handle_frame, verdict, run_pre_checks, passed}
use rs_modbus.Slave.Model.{ModbusSlaveModel}
use rs_modbus.Slave.Reply.{World, Link, handled, response_adu}
use rs_modbus.Slave.Reads.{handle_fc3}
use rs_modbus.Slave.Dispatch.{
  CustomFunctionCode, process_frame, process_models, process_model, intercepted, dispatch, settle,
  models_snapshot,
}
use rs_modbus.Master.Requests.{
  Request, read_request, read_holding_registers, registers_response, response_of,
}
use rs_modbus.Master.Wait.{ModbusMaster, begin_response, awaiting}
use rs_modbus.Master.Transactions.{handle_frame-begin_response}
use rs_modbus.Master.Exchange.{handle_fc3-read, answer-ok, registers_response-handle_fc3}
-- What an application layer makes of the bytes of one message.
use rs_modbus.Master.Exchange.Network.{received, Connection, exchange, exchange_lem}

-- The server's answer to FC3, for a model that does not intercept it.
process_frame-read :
    {S : Type 0} (respond : List Bytes → Bytes → Result ModbusError (Unit {0}))
    (models : HashMap ℕ (ModbusSlaveModel S)) (custom_fcs : HashMap ℕ (CustomFunctionCode S))
    (model : ModbusSlaveModel S) (t unit address n : ℕ) (raw : Bytes) (w : World S)
    (registers : List ℕ) (s1 s2 : S)
    → ((sent : List Bytes) (bytes : Bytes) → respond sent bytes ≡ ok tt)
    → unit ≢ 0
    → lookup unit models ≡ some model
    → IsU16 address
    → 1 ≤ n
    → n ≤ 125
    → check_range (address ∷ u16 (address + n) ∷ []) model.address_range.holding_registers ≡ true
    → model.intercept 0x03 (read_holding_registers unit address n).adu.payload w.state
      ≡ (ok none, s1)
    → model.read_holding_registers address n s1 ≡ (ok registers, s2)
    → process_frame wire respond models custom_fcs
        (record {
          adu = record (read_holding_registers unit address n).adu { transaction = some t };
          raw = raw;
        })
        w
      ≡ record {
        state = s2;
        sent =
            w.sent
            ++ (wire (
                  response_adu
                    (record (read_holding_registers unit address n).adu { transaction = some t })
                    (pack_registers registers n))
                ∷ []);
      }
unfolding process_frame models_snapshot process_models process_model intercepted dispatch settle
    read_holding_registers read_request new
process_frame-read respond models custom_fcs model t unit address n raw w registers s1 s2 accepts
      unicast found a low high range passes result =
    rw (not_zero, found, passes, handled_read) refl
  where
    link : Link
    link = record { encode = wire; respond = respond; broadcast = false }

    adu : ApplicationDataUnit
    adu = record (read_holding_registers unit address n).adu { transaction = some t }

    answered : ApplicationDataUnit
    answered = response_adu adu (pack_registers registers n)

    not_zero : (unit == 0) ≡ false
    not_zero = ground (arith, unicast)

    handled_read :
        handle_fc3 link model adu (record w { state = s1 })
        ≡ handled (ok tt) (record { state = s2; sent = w.sent ++ (wire answered ∷ []) })
    handled_read =
        handle_fc3-read link model (record w { state = s1 }) (some t) unit address n a low high
          range
        ∙ answer-ok link adu (model.read_holding_registers address n)
            (λ regs. response_adu adu (pack_registers regs n)) (record w { state = s1 }) registers
            s2 refl result
        ∙ ap (λ o. handled o (record { state = s2; sent = w.sent ++ (wire answered ∷ []) }))
            (accepts w.sent (wire answered))

module _ {S : Type 0} (net : Connection) (write : Bytes → Result ModbusError (Unit {0}))
    (respond : List Bytes → Bytes → Result ModbusError (Unit {0}))
    (models : HashMap ℕ (ModbusSlaveModel S)) (custom_fcs : HashMap ℕ (CustomFunctionCode S)) where
  -- Over a TCP connection that cuts the bytes of each way anywhere, and whose ends hold nothing, an
  -- open client asks a unit other than 0 for `n` registers, from 1 to 125, in a range that the model
  -- of this unit allows, where the writes succeed, the client's counter is a u16, the model does not
  -- intercept the request, and it returns `n` registers of 16 bits. Then the client's call waits on a
  -- new channel, and the bytes that this call has written make the server answer: the exchange ends
  -- with the model's state, and what is sent to the channel is a frame that passed the checks, from
  -- which the client reads exactly these registers.
  pub exchange_reads :
      (model : ModbusSlaveModel S) (m : ModbusMaster) (unit address n : ℕ) (registers : List ℕ)
      (at_server at_client : HashMap ConnectionId Bytes) (state state1 state2 : S)
      → ((bytes : Bytes) → concat (net.cut_request bytes) ≡ bytes)
      → ((bytes : Bytes) → concat (net.cut_answer bytes) ≡ bytes)
      → ((bytes : Bytes) → write bytes ≡ ok tt)
      → ((sent : List Bytes) (bytes : Bytes) → respond sent bytes ≡ ok tt)
      → lookup net.server_end at_server ≡ none
      → lookup net.client_end at_client ≡ none
      → m.clean_level ≡ 0
      → m.protocol ≡ ApplicationProtocol.tcp
      → IsU16 m.next_tid
      → unit ≢ 0
      → lookup unit models ≡ some model
      → IsU16 address
      → 1 ≤ n
      → n ≤ 125
      → check_range (address ∷ u16 (address + n) ∷ []) model.address_range.holding_registers ≡ true
      → model.intercept 0x03 (read_holding_registers unit address n).adu.payload state
        ≡ (ok none, state1)
      → model.read_holding_registers address n state1 ≡ (ok registers, state2)
      → n ≡ length registers
      → All IsU16 registers
      → (f : Framing) × (session : MasterSession) × ((begin_response wire write
            (read_holding_registers unit address n).adu
            (read_holding_registers unit address n).checks
            (record m { written = [] })).0
          ≡ awaiting (tid m.next_tid) m.session.next_channel)
        × (exchange net write respond models custom_fcs
              (read_holding_registers unit address n)
              m
              (at_server, at_client)
              state
            ≡ some (session, state2))
        × (session.sent ≡ m.session.sent ++ ((m.session.next_channel, ok f) ∷ []))
        × (registers_response n f ≡ some (response_of f registers))
  exchange_reads model m unit address n registers at_server at_client state state1 state2 keeps
        keeps' writes accepts fresh fresh' opened tcp counter unicast found a low high range passes
        result count words =
      (
        f,
        handle_frame f
            (begin_response wire write request.adu request.checks
              (record m { written = [] })).1.session,
        resolved.0,
        exchange_lem net write respond models custom_fcs request m at_server at_client state state2
            answer keeps keeps' writes fresh fresh' opened tcp not_broadcast
            (record { tid = m.next_tid; tid_IsU16 = counter; has_tid = refl; fits = short })
            (record { tid = m.next_tid; tid_IsU16 = counter; has_tid = refl; fits = fits })
            (process_frame-read respond models custom_fcs model m.next_tid unit address n _
              (record { state = state; sent = [] }) registers state1 state2 accepts unicast found a
              low high range passes result),
        resolved.1
            ∙ ap (λ v. m.session.sent ++ ((m.session.next_channel, verdict f v) ∷ [])) read.0,
        read.1,
      )
    where
      request : Request
      request = read_holding_registers unit address n

      answer : ApplicationDataUnit
      answer =
          response_adu (record request.adu { transaction = some m.next_tid })
            (pack_registers registers n)

      f : Framing
      f = received net.client_response net.client_end answer

      not_broadcast : request.adu.unit ≢ 0
      not_broadcast = unfold read_holding_registers read_request new in unicast

      short : length request.adu.payload ≤ 252
      short = unfold read_holding_registers read_request new in omega arith

      fits : length answer.payload ≤ 252
      fits = unfold pack_registers in omega (arith, length-be_bytes registers, count, high)

      resolved :
          ((begin_response wire write request.adu request.checks (record m { written = [] })).0
            ≡ awaiting (tid m.next_tid) m.session.next_channel)
          × ((handle_frame f
                (begin_response wire write request.adu request.checks
                  (record m { written = [] })).1.session).sent
              ≡ m.session.sent
                ++ ((m.session.next_channel, verdict f (run_pre_checks f request.checks)) ∷ []))
      resolved =
          handle_frame-begin_response wire write request.adu request.checks
            (record m { written = [] }) f opened tcp not_broadcast (writes _)
            (unfold received in refl)

      read :
          (run_pre_checks f request.checks ≡ passed)
          × (registers_response n f ≡ some (response_of f registers))
      read =
          let (served, checked, parsed) =
            registers_response-handle_fc3
              (record { encode = wire; respond = respond; broadcast = false }) model
              (record { state = state1; sent = [] }) (some m.next_tid) unit address n registers
              state2 f a low high range refl result count words (unfold received in refl) in
          (checked, parsed)
