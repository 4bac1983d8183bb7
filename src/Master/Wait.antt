-- ===== src/Master/Wait.antt =====
-- src/master.rs: the state of a master and `wait_response`. The wait is two steps: what it does up
-- to the wait, and what it makes of the outcome. Between them the session changes by other calls.
use rs_modbus.Prelude.{
  ℕ, ◌+◌, Option, none, some, Bool, true, false, not, ◌&&◌, List, [], ◌∷◌, ◌++◌, Bytes,
}
use rs_modbus.Prelude.{Result, ok, err, leb, ◌==◌, if◌then◌else◌}
use rs_modbus.Errors.{ModbusError}
use rs_modbus.Types.{ApplicationDataUnit, Framing}
use rs_modbus.Application.Role.{ApplicationProtocol}
use rs_modbus.Session.{
  PreCheck, pass, fail, WaiterKey, tid, fifo, MasterSession, start, stop, stop_all,
}

-- `written` has the bytes of each call of the physical layer's `write`, whatever its outcome.
pub record ModbusMaster : Type 0 where
  pub concurrent : Bool
  pub protocol : ApplicationProtocol
  pub session : MasterSession
  pub next_tid : ℕ
  pub clean_level : ℕ
  pub written : List Bytes

-- The ID, and the master with the next one.
unfoldable pub allocate_tid : ModbusMaster → ℕ × ModbusMaster
allocate_tid m =
    (m.next_tid, record m { next_tid = if m.next_tid == 65535 then 1 else m.next_tid + 1 })

unfoldable pub clean : ℕ → ModbusMaster → ModbusMaster
clean level m =
    if m.clean_level == 2 then m else if m.clean_level == 1 && level == 1 then m else record m {
      session =
          stop_all
            (ModbusError.invalid_state (if level == 2 then "Master destroyed" else "Master closed"))
            m.session;
      clean_level = level;
    }

-- `open`, `close` and `destroy`, with the outcome of the physical layer.
unfoldable pub open_master :
    Result ModbusError (Unit {0}) → ModbusMaster → Result ModbusError (Unit {0}) × ModbusMaster
open_master physical m =
    if m.clean_level == 2
    then (err ModbusError.port_destroyed, m)
    else (physical, record m { clean_level = 0; next_tid = 1 })

unfoldable pub close :
    Result ModbusError (Unit {0}) → ModbusMaster → Result ModbusError (Unit {0}) × ModbusMaster
unfolding clean
close physical m = if m.clean_level == 2 then (ok tt, m) else (physical, clean 1 m)

unfoldable pub destroy : ModbusMaster → ModbusMaster
unfolding clean
destroy m = if m.clean_level == 2 then m else clean 2 m

abbrev pub is_tcp : ApplicationProtocol → Bool
is_tcp ApplicationProtocol.tcp = true
is_tcp ApplicationProtocol.rtu = false
is_tcp ApplicationProtocol.ascii = false

-- The check that is put before the others where the request has a transaction ID.
abbrev pub same_tid : Option ℕ → ℕ → Bool
same_tid none t = false
same_tid (some u) t = u == t

unfoldable pub check_tid : ℕ → PreCheck
check_tid t f = if same_tid f.adu.transaction t then pass else fail ModbusError.invalid_response

abbrev pub final_checks : WaiterKey → List PreCheck → List PreCheck
final_checks (tid t) checks = check_tid t ∷ checks
final_checks fifo checks = checks

-- What a call to `wait_response` comes to before it waits: the receiver and the key of its waiter.
pub data Issued : Type 0 where
  refused : ModbusError → Issued
  unanswered : Issued
  awaiting : WaiterKey → ℕ → Issued

-- The session after `start` and the write of `bytes`; the write's outcome is given.
unfoldable pub arm :
    WaiterKey
    → List PreCheck
    → Bool
    → Bytes
    → Result ModbusError (Unit {0})
    → ModbusMaster
    → Issued × ModbusMaster
unfolding start stop
arm key checks broadcast bytes (err e) m = (
  refused e,
  record m {
    session = stop key (start key (final_checks key checks) m.session);
    written = m.written ++ (bytes ∷ []);
  },
)
arm key checks true bytes (ok done) m = (
  unanswered,
  record m {
    session = stop key (start key (final_checks key checks) m.session);
    written = m.written ++ (bytes ∷ []);
  },
)
arm key checks false bytes (ok done) m = (
  awaiting key m.session.next_channel,
  record m {
    session = start key (final_checks key checks) m.session;
    written = m.written ++ (bytes ∷ []);
  },
)

-- The application layer's state is its own: `flush` of it is called here unless `concurrent`.
unfoldable pub begin_response :
    (ApplicationDataUnit → Bytes)
    → (Bytes → Result ModbusError (Unit {0}))
    → ApplicationDataUnit
    → List PreCheck
    → ModbusMaster
    → Issued × ModbusMaster
unfolding arm allocate_tid
begin_response encode write request checks m =
    if leb 1 m.clean_level
    then (refused (ModbusError.invalid_state "Master closed"), m)
    else if is_tcp m.protocol && not (request.unit == 0)
    then (let (t, m') = allocate_tid m in
        let bytes = encode (record request { transaction = some t }) in
        arm (tid t) checks (request.unit == 0) bytes (write bytes) m')
    else arm fifo checks (request.unit == 0) (encode request) (write (encode request)) m

-- What the wait for the channel ends with.
pub data Reception : Type 0 where
  delivered : Result ModbusError Framing → Reception
  dropped : Reception
  elapsed : Reception

unfoldable pub end_response :
    WaiterKey → Reception → ModbusMaster → Result ModbusError (Option Framing) × ModbusMaster
end_response key (delivered (ok frame)) m = (ok (some frame), m)
end_response key (delivered (err e)) m = (err e, m)
end_response key dropped m =
    (err (ModbusError.invalid_state "master session was cleared while waiting"), m)
end_response key elapsed m = (err ModbusError.timeout, record m { session = stop key m.session })
