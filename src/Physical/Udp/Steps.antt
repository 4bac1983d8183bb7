-- ===== src/Physical/Udp/Steps.antt =====
-- src/layers/physical/udp.rs: the calls and the receiving task, step by step.
use Prim.Native.String.{String}
use rs_modbus.Prelude.{
  ℕ, ◌+◌, ◌≡◌, Option, none, some, Bool, true, false, not, ◌||◌, List, [], ◌∷◌, if◌then◌else◌,
  Result, err,
}
use rs_modbus.Errors.{ModbusError}
use rs_modbus.Physical.Tasks.{Taken, continue_with}
use rs_modbus.Physical.Udp.{
  SocketAddr, RecvPhase, receiving, broken, leaving, RecvTask, Opening, entering, guarded, marked,
  bound, stored, emptied, placed, shown, spawned, Closing, aborting, unbinding, draining,
  UdpPhysicalLayer, IdleTimer, build, set_local_addr, filter_of, abort_recv, receive_from, expire,
  drain_connections,
}

-- The address that `open` binds to: the one it is given, or that of the layer, or a default.
abbrev or_addr : Option String → String → String
or_addr none text = text
or_addr (some text) other = text

pub bind_addr : Option String → UdpPhysicalLayer → String
bind_addr options s =
    or_addr options (or_addr s.local_addr (if s.is_server then "[::]:502" else "0.0.0.0:0"))

-- The next step of `open`, and what is left of it; the outcome of `bind` is given.
unfoldable pub open_step : Bool → Opening → UdpPhysicalLayer → UdpPhysicalLayer × Option Opening
open_step binds entering s = if s.is_open || s.is_opening then (s, none) else (s, some guarded)
open_step binds guarded s = (record s { is_opening = true }, some marked)
open_step true marked s = (s, some bound)
open_step false marked s = (record s { is_opening = false }, none)
open_step binds bound s = (record s { socket = true }, some stored)
open_step binds stored s = (record s { connections = [] }, some emptied)
open_step binds emptied s = (
  record s {
    next_task = s.next_task + 1;
    recv_tasks =
        record { handle = s.next_task; remote_filter = filter_of s; phase = receiving }
        ∷ s.recv_tasks;
  },
  some (spawned s.next_task),
)
open_step binds (spawned handle) s = (record s { recv_task = some handle }, some placed)
open_step binds placed s = (record s { is_open = true; opened = s.opened + 1 }, some shown)
open_step binds shown s = (record s { is_opening = false }, none)

-- What a receiving task meets at the socket.
pub data Datagram : Type 0 where
  datagram : SocketAddr → Datagram
  failure : Datagram

-- The gate behind the loop of a receiving task.
unfoldable pub leave_loop : RecvTask → UdpPhysicalLayer → UdpPhysicalLayer × Option RecvTask
leave_loop t s =
    if s.is_open
    then (record s { is_open = false }, some (record t { phase = leaving }))
    else (s, none)

-- The next step of a receiving task, and what is left of it.
unfoldable pub recv_step :
    RecvPhase → Datagram → RecvTask → UdpPhysicalLayer → UdpPhysicalLayer × Option RecvTask
unfolding receive_from drain_connections leave_loop
recv_step receiving (datagram rinfo) t s = (receive_from t.remote_filter rinfo s, some t)
recv_step receiving failure t s = (s, some (record t { phase = broken }))
recv_step broken d t s = leave_loop t s
recv_step leaving d t s = (drain_connections s, none)

-- The gate of `close`, and its next step.
unfoldable pub begin_close : UdpPhysicalLayer → UdpPhysicalLayer
begin_close s =
    if s.is_open then record s { is_open = false; closing = aborting ∷ s.closing } else s

unfoldable pub close_step : Closing → UdpPhysicalLayer → UdpPhysicalLayer × Option Closing
unfolding drain_connections
close_step aborting s = (
  record s { recv_task = none; recv_tasks = abort_recv s.recv_task s.recv_tasks },
  some unbinding,
)
close_step unbinding s = (record s { socket = false }, some draining)
close_step draining s = (drain_connections s, none)

abbrev write_remote :
    Result ModbusError (Unit {0})
    → Option (String × Option SocketAddr)
    → Bool
    → Result ModbusError (Unit {0})
write_remote sent (some remote) is_server = sent
write_remote sent none true = err (ModbusError.connection_error "No remote address for server")
write_remote sent none false =
    err (ModbusError.connection_error "No remote address configured for client")

-- `write`, with the outcome of `send_to`: the layer at its guard, and at the lock of the socket. The
-- outcome `none` is the panic of `unwrap`.
pub write :
    Result ModbusError (Unit {0})
    → UdpPhysicalLayer
    → UdpPhysicalLayer
    → Option (Result ModbusError (Unit {0}))
write sent before s =
    if not before.is_open
    then some (err ModbusError.port_not_open)
    else if s.socket
    then some (write_remote sent s.remote_addr s.is_server)
    else none

-- A call or a task is taken from those under way, makes a step, and goes on or not.
pub data Step (s : UdpPhysicalLayer) : UdpPhysicalLayer → Type 0 where
  open_begins : s.is_destroyed ≡ false → Step s (record s { opening = entering ∷ s.opening })
  opens :
      (binds : Bool) (o : Opening) (others : List Opening)
      → Taken o s.opening others
      → Step s (record (open_step binds o s).0 {
        opening = continue_with (open_step binds o s).1 others;
      })
  receives :
      (d : Datagram) (t : RecvTask) (others : List RecvTask)
      → Taken t s.recv_tasks others
      → Step s (record (recv_step t.phase d t s).0 {
        recv_tasks = continue_with (recv_step t.phase d t s).1 others;
      })
  expires :
      (t : IdleTimer) (others : List IdleTimer)
      → Taken t s.timers others
      → Step s (expire t (record s { timers = others }))
  close_begins : Step s (begin_close s)
  closes :
      (c : Closing) (others : List Closing)
      → Taken c s.closing others
      → Step s (record (close_step c s).0 { closing = continue_with (close_step c s).1 others })
  addressed : (text : String) → Step s (set_local_addr text s)
  destroys : Step s (record s { is_destroyed = true })

-- The states of a layer, from a new one on.
pub data Reachable : UdpPhysicalLayer → Type 0 where
  initial :
      (is_server : Bool) (remote : Option (String × Option SocketAddr)) (idle_timeout_ms : ℕ)
      → Reachable (build is_server remote idle_timeout_ms)
  next : (s s' : UdpPhysicalLayer) → Reachable s → Step s s' → Reachable s'
