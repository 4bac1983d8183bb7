-- ===== src/Master/Exchange/Network.antt =====
-- src/master.rs, src/slave.rs and src/layers/application/tcp.rs: a request of the client that goes
-- over TCP to the server, and the answer that comes back. A connection may cut the bytes anywhere.
pub mod Reads
use rs_modbus.Prelude.{
  ℕ, Bool, ◌+◌, ◌≤◌, ◌≡◌, ◌≢◌, refl, ap, ◌∙◌, sym, arith, Option, none, some, true, false, ◌>>=◌,
}
use rs_modbus.Prelude.{
  List, [], ◌∷◌, ◌++◌, append-nil, Bytes, Result, ok, ◌==◌, IsU16, All, u16, be16-hi-lo, length,
  concat,
}
use rs_modbus.Prelude.HashMap.{HashMap, lookup, nat_eq}
use rs_modbus.Errors.{ModbusError}
use rs_modbus.Types.{
  ApplicationDataUnit, Framing, Event, framing, framing_error, ConnectionId, ResponseFn, new,
}
use rs_modbus.Application.Role.{ApplicationProtocol}
use rs_modbus.Application.Tcp.{frame_adu, frame_event, flush}
use rs_modbus.Application.Tcp.Stream.{Sendable, wire, wire-header, process_stream, feed, events}
use rs_modbus.Utils.Registers.{pack_registers, length-be_bytes}
use rs_modbus.Utils.Range.{check_range}
use rs_modbus.Session.{
  tid, MasterSession, handle_frame, handle_error, verdict, run_pre_checks, passed,
}
use rs_modbus.Slave.Model.{ModbusSlaveModel}
use rs_modbus.Slave.Reply.{World, Link, handled, response_adu}
use rs_modbus.Slave.Reads.{handle_fc3}
use rs_modbus.Slave.Dispatch.{
  CustomFunctionCode, process_frame, process_models, process_model, intercepted, dispatch, settle,
  models_snapshot,
}
use rs_modbus.Master.Requests.{
  Request, read_request, read_holding_registers, registers_response, response_of,
}
use rs_modbus.Master.Wait.{ModbusMaster, begin_response, awaiting}
use rs_modbus.Master.Transactions.{begin_tcp}
use rs_modbus.Master.Exchange.{handle_fc3-read, answer-ok, registers_response-handle_fc3}

-- What an application layer makes of the bytes of one message.
unfoldable pub received : ResponseFn → ConnectionId → ApplicationDataUnit → Framing
received r c adu = record { adu = adu; raw = wire adu; response = r; connection = c }

frame_adu-wire : (adu : ApplicationDataUnit) → Sendable adu → frame_adu (wire adu) ≡ adu
unfolding frame_adu
frame_adu-wire adu s =
    ap frame_adu (wire-header adu s) ∙ ground (arith, be16-hi-lo s.tid s.tid_IsU16, s.has_tid)

frame_event-wire :
    (r : ResponseFn) (c : ConnectionId) (adu : ApplicationDataUnit)
    → Sendable adu
    → events r c (adu ∷ []) ≡ framing (received r c adu) ∷ []
unfolding frame_event received
frame_event-wire r c adu s = rw (frame_adu-wire adu s) refl

-- One message over a connection that holds nothing.
feed-wire :
    (r : ResponseFn) (c : ConnectionId) (m : HashMap ConnectionId Bytes) (chunks : List Bytes)
    (adu : ApplicationDataUnit)
    → lookup c m ≡ none
    → Sendable adu
    → concat chunks ≡ wire adu
    → (m' : HashMap ConnectionId Bytes) × (feed r c m chunks
        ≡ some (framing (received r c adu) ∷ [], m'))
feed-wire r c m chunks adu fresh s whole =
    let f =
      process_stream r c m chunks (adu ∷ []) fresh (s, tt) (whole ∙ sym (append-nil (wire adu))) in
    (f.buffers, f.runs ∙ ap (λ es. some (es, f.buffers)) (frame_event-wire r c adu s))

-- The server takes the frames of one connection from its queue, in order. It does not listen to the
-- errors of the framing.
unfoldable pub serve :
    {S : Type 0}
    → (List Bytes → Bytes → Result ModbusError (Unit {0}))
    → HashMap ℕ (ModbusSlaveModel S)
    → HashMap ℕ (CustomFunctionCode S)
    → List Event
    → World S
    → World S
unfolding process_frame
serve respond models custom_fcs [] w = w
serve respond models custom_fcs (framing f ∷ more) w =
    serve respond models custom_fcs more
      (process_frame wire respond models custom_fcs (record { adu = f.adu; raw = f.raw }) w)
serve respond models custom_fcs (framing_error e ∷ more) w = serve respond models custom_fcs more w

-- The client's session takes the frames and the errors from its two channels.
unfoldable pub receive_events : List Event → MasterSession → MasterSession
unfolding handle_frame handle_error
receive_events [] s = s
receive_events (framing f ∷ more) s = receive_events more (handle_frame f s)
receive_events (framing_error e ∷ more) s = receive_events more (handle_error e s)

-- A connection between the client and the server: the ends, and how each way cuts the bytes.
pub record Connection : Type 0 where
  pub server_response : ResponseFn
  pub server_end : ConnectionId
  pub client_response : ResponseFn
  pub client_end : ConnectionId
  pub cut_request : Bytes → List Bytes
  pub cut_answer : Bytes → List Bytes

-- The bytes that the server has written are framed at the client.
unfoldable pub come_back :
    {S : Type 0}
    → Connection
    → HashMap ConnectionId Bytes
    → World S
    → MasterSession
    → Option (MasterSession × S)
unfolding feed receive_events
come_back net at_client w session = do
  (answered, at_client') ←
      feed net.client_response net.client_end at_client (net.cut_answer (concat w.sent))
  some (receive_events answered session, w.state)

-- The client's `wait_response` empties the buffers of its application layer, unless `concurrent`.
abbrev pub flushed : Bool → HashMap ConnectionId Bytes → HashMap ConnectionId Bytes
flushed true buffers = buffers
flushed false buffers = flush buffers

-- What the call has written is framed and served at the server.
unfoldable pub exchange :
    {S : Type 0}
    → Connection
    → (Bytes → Result ModbusError (Unit {0}))
    → (List Bytes → Bytes → Result ModbusError (Unit {0}))
    → HashMap ℕ (ModbusSlaveModel S)
    → HashMap ℕ (CustomFunctionCode S)
    → Request
    → ModbusMaster
    → HashMap ConnectionId Bytes × HashMap ConnectionId Bytes
    → S
    → Option (MasterSession × S)
unfolding feed serve begin_response come_back flush
exchange net write respond models custom_fcs request m (at_server, at_client) state =
    let issued = begin_response wire write request.adu request.checks (record m { written = [] }) in
    do
      (asked, at_server') ←
          feed net.server_response net.server_end at_server
            (net.cut_request (concat issued.1.written))
      come_back net (flushed m.concurrent at_client)
          (serve respond models custom_fcs asked (record { state = state; sent = [] }))
          issued.1.session

lookup-flushed :
    (b : Bool) (c : ConnectionId) (m : HashMap ConnectionId Bytes)
    → lookup c m ≡ none
    → lookup c (flushed b m) ≡ none
unfolding flush lookup
lookup-flushed true c m e = e
lookup-flushed false c m e = refl

module _ {S : Type 0} (net : Connection) (write : Bytes → Result ModbusError (Unit {0}))
    (respond : List Bytes → Bytes → Result ModbusError (Unit {0}))
    (models : HashMap ℕ (ModbusSlaveModel S)) (custom_fcs : HashMap ℕ (CustomFunctionCode S)) where
  -- One request that is served with one answer.
  pub exchange_lem :
      (request : Request) (m : ModbusMaster) (at_server at_client : HashMap ConnectionId Bytes)
      (state state' : S) (answer : ApplicationDataUnit)
      → ((bytes : Bytes) → concat (net.cut_request bytes) ≡ bytes)
      → ((bytes : Bytes) → concat (net.cut_answer bytes) ≡ bytes)
      → ((bytes : Bytes) → write bytes ≡ ok tt)
      → lookup net.server_end at_server ≡ none
      → lookup net.client_end at_client ≡ none
      → m.clean_level ≡ 0
      → m.protocol ≡ ApplicationProtocol.tcp
      → request.adu.unit ≢ 0
      → Sendable (record request.adu { transaction = some m.next_tid })
      → Sendable answer
      → process_frame wire respond models custom_fcs
          (record {
            adu = record request.adu { transaction = some m.next_tid };
            raw = wire (record request.adu { transaction = some m.next_tid });
          })
          (record { state = state; sent = [] })
        ≡ record { state = state'; sent = wire answer ∷ [] }
      → exchange net write respond models custom_fcs request m (at_server, at_client) state
        ≡ some (
          handle_frame
              (received net.client_response net.client_end answer)
              (begin_response wire write request.adu request.checks
                (record m { written = [] })).1.session,
          state',
        )
  unfolding exchange serve received come_back receive_events
  exchange_lem request m at_server at_client state state' answer keeps keeps' writes fresh fresh'
        opened tcp unicast s s' served =
      let written : (begin_response wire write request.adu request.checks
            (record m { written = [] })).1.written
          ≡ wire (record request.adu { transaction = some m.next_tid }) ∷ [] =
        ap (λ b. b.1.written)
          (begin_tcp wire write request.adu request.checks (record m { written = [] }) opened tcp
            (ground (arith, unicast)) (writes _)) in
      let (m1, asked) =
        feed-wire net.server_response net.server_end at_server
          (net.cut_request (
            concat
              (begin_response wire write request.adu request.checks
                (record m { written = [] })).1.written))
          (record request.adu { transaction = some m.next_tid }) fresh s
          (keeps _ ∙ ap concat written ∙ append-nil _) in
      let (m2, answered) =
        feed-wire net.client_response net.client_end (flushed m.concurrent at_client)
          (net.cut_answer (concat (wire answer ∷ []))) answer
          (lookup-flushed m.concurrent net.client_end at_client fresh') s'
          (keeps' _ ∙ append-nil (wire answer)) in
      rw (asked, served, answered) refl
