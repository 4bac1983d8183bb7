-- ===== src/Physical/Udp.antt =====
-- src/layers/physical/udp.rs: the peers of a UDP socket, their idle timers and the close events. The
-- calls of the user, the receiving tasks and the timers interleave: a step is what one of them does
-- between two awaits. What the socket does is a choice of the step.
pub mod Address
pub use Address.*
pub mod Steps
pub mod Counts
pub mod Peers
pub mod Once
pub mod Allowed
pub mod Filter
use Prim.Native.String.{String}
use rs_modbus.Prelude.{
  ℕ, ◌+◌, ◌≡◌, Option, none, some, Bool, true, false, not, ◌&&◌, ◌||◌, List, [], ◌∷◌, ◌++◌,
  if◌then◌else◌, ◌==◌, ◌↔◌, ltb, Result, ok, err, Bytes, arith, ==_iff,
}
use rs_modbus.Prelude.HashMap.{HashMap, Eq, lookup, insert, remove}
use rs_modbus.Errors.{ModbusError}
use rs_modbus.Types.{ConnectionId}
use rs_modbus.Physical.Tasks.{Taken}

-- A timer task is known by a number; its `JoinHandle` is that number.
pub record RemoteEntry : Type 0 where
  pub conn : ConnectionId
  pub idle_timer : Option ℕ

-- The task that sleeps, and then evicts the entry of `addr` if it is still that of `conn`.
pub record IdleTimer : Type 0 where
  pub handle : ℕ
  pub addr : SocketAddr
  pub conn : ConnectionId

-- A receiving task: in its loop, behind it, or past its gate.
pub data RecvPhase : Type 0 where
  receiving broken leaving : RecvPhase

pub record RecvTask : Type 0 where
  pub handle : ℕ
  pub remote_filter : Option SocketAddr
  pub phase : RecvPhase

-- Where a call of `open` stands: before its second guard, past it, and behind each of its writes.
pub data Opening : Type 0 where
  entering guarded marked bound stored emptied placed shown : Opening
  spawned : ℕ → Opening

-- Where a call of `close` stands, that has found the layer open.
pub data Closing : Type 0 where
  aborting unbinding draining : Closing

-- A data event that was sent, without its bytes: the peer, which the reply closure writes to, and
-- its connection.
pub record Received : Type 0 where
  pub addr : SocketAddr
  pub connection : ConnectionId

-- `remote_addr` is the text and, where it is an address, what it is parsed to. From `opening` on:
-- the calls and tasks that are under way, the next connection id and task number, the events that
-- were sent, and the number of the calls of `open` that have opened the layer.
pub record UdpPhysicalLayer : Type 0 where
  pub socket : Bool
  pub is_open : Bool
  pub is_opening : Bool
  pub is_destroyed : Bool
  pub local_addr : Option String
  pub remote_addr : Option (String × Option SocketAddr)
  pub is_server : Bool
  pub idle_timeout_ms : ℕ
  pub connections : HashMap SocketAddr RemoteEntry
  pub recv_task : Option ℕ
  pub opening : List Opening
  pub closing : List Closing
  pub recv_tasks : List RecvTask
  pub timers : List IdleTimer
  pub next_id : ConnectionId
  pub next_task : ℕ
  pub received : List Received
  pub connection_closes : List ConnectionId
  pub closes : ℕ
  pub opened : ℕ

abbrev pub build : Bool → Option (String × Option SocketAddr) → ℕ → UdpPhysicalLayer
build is_server remote_addr idle_timeout_ms = record {
  socket = false;
  is_open = false;
  is_opening = false;
  is_destroyed = false;
  local_addr = none;
  remote_addr = remote_addr;
  is_server = is_server;
  idle_timeout_ms = idle_timeout_ms;
  connections = [];
  recv_task = none;
  opening = [];
  closing = [];
  recv_tasks = [];
  timers = [];
  next_id = 0;
  next_task = 0;
  received = [];
  connection_closes = [];
  closes = 0;
  opened = 0;
}

-- `UdpPhysicalLayerOptions::default`
abbrev pub default_idle_timeout_ms : ℕ
default_idle_timeout_ms = 30000

abbrev pub new_server : UdpPhysicalLayer
new_server = build true none default_idle_timeout_ms

abbrev pub new_server_with_options : ℕ → UdpPhysicalLayer
new_server_with_options idle_timeout_ms = build true none idle_timeout_ms

abbrev pub new_client : String × Option SocketAddr → UdpPhysicalLayer
new_client remote = build false (some remote) default_idle_timeout_ms

abbrev pub new_client_with_options : String × Option SocketAddr → ℕ → UdpPhysicalLayer
new_client_with_options remote idle_timeout_ms = build false (some remote) idle_timeout_ms

unfoldable pub set_local_addr : String → UdpPhysicalLayer → UdpPhysicalLayer
set_local_addr text s = record s { local_addr = some text }

abbrev parsed_remote : Option (String × Option SocketAddr) → Option SocketAddr
parsed_remote none = none
parsed_remote (some (text, remote)) = remote

abbrev pub filter_of : UdpPhysicalLayer → Option SocketAddr
filter_of s = if s.is_server then none else parsed_remote s.remote_addr

-- Tasks are added and aborted.
abbrev pub abort_timer : Option ℕ → List IdleTimer → List IdleTimer
abort_timer none ts = ts
abort_timer (some h) [] = []
abort_timer (some h) (t ∷ ts) =
    let rest = abort_timer (some h) ts in if t.handle == h then rest else t ∷ rest

abbrev pub abort_recv : Option ℕ → List RecvTask → List RecvTask
abort_recv none ts = ts
abort_recv (some h) [] = []
abort_recv (some h) (t ∷ ts) =
    let rest = abort_recv (some h) ts in if t.handle == h then rest else t ∷ rest

-- The entry of an address: the one it has, or a new one.
unfoldable pub or_new_entry :
    SocketAddr → Option RemoteEntry → UdpPhysicalLayer → RemoteEntry × UdpPhysicalLayer
or_new_entry rinfo (some entry) s = (entry, s)
or_new_entry rinfo none s = (
  record { conn = s.next_id; idle_timer = none },
  record s {
    next_id = s.next_id + 1;
    connections = insert rinfo (record { conn = s.next_id; idle_timer = none }) s.connections;
  },
)

-- A server replaces the timer of the entry.
unfoldable pub arm_idle : SocketAddr → RemoteEntry → UdpPhysicalLayer → UdpPhysicalLayer
arm_idle rinfo entry s =
    if s.is_server && ltb 0 s.idle_timeout_ms
    then record s {
      timers =
          record { handle = s.next_task; addr = rinfo; conn = entry.conn }
          ∷ abort_timer entry.idle_timer s.timers;
      next_task = s.next_task + 1;
      connections = insert rinfo (record entry { idle_timer = some s.next_task }) s.connections;
    }
    else s

unfoldable pub ensure_entry : SocketAddr → UdpPhysicalLayer → ConnectionId × UdpPhysicalLayer
unfolding or_new_entry arm_idle
ensure_entry rinfo s =
    let (entry, s') = or_new_entry rinfo (lookup rinfo s.connections) s in
    (entry.conn, arm_idle rinfo entry s')

-- A datagram of `rinfo` for a receiving task.
unfoldable pub receive_from : Option SocketAddr → SocketAddr → UdpPhysicalLayer → UdpPhysicalLayer
unfolding ensure_entry
receive_from remote_filter rinfo s =
    if not (accepts remote_filter rinfo)
    then s
    else let (conn, s') = ensure_entry rinfo s in
      record s' { received = record { addr = rinfo; connection = conn } ∷ s'.received }

-- A timer that is not aborted evicts the entry it was made for.
unfoldable pub evicted : IdleTimer → Option RemoteEntry → UdpPhysicalLayer → UdpPhysicalLayer
evicted t none s = s
evicted t (some e) s =
    if e.conn == t.conn
    then record s {
      connections = remove t.addr s.connections;
      connection_closes = t.conn ∷ s.connection_closes;
    }
    else s

unfoldable pub expire : IdleTimer → UdpPhysicalLayer → UdpPhysicalLayer
unfolding evicted
expire t s = evicted t (lookup t.addr s.connections) s

-- `drain`: each entry's timer is aborted and its close announced, then that of the layer.
abbrev pub conns : HashMap SocketAddr RemoteEntry → List ConnectionId
conns [] = []
conns ((rinfo, e) ∷ m) = e.conn ∷ conns m

abbrev pub abort_timers : HashMap SocketAddr RemoteEntry → List IdleTimer → List IdleTimer
abort_timers [] ts = ts
abort_timers ((rinfo, e) ∷ m) ts = abort_timers m (abort_timer e.idle_timer ts)

unfoldable pub drain_connections : UdpPhysicalLayer → UdpPhysicalLayer
drain_connections s = record s {
  connections = [];
  timers = abort_timers s.connections s.timers;
  connection_closes = conns s.connections ++ s.connection_closes;
  closes = s.closes + 1;
}
