-- ===== src/Physical/TcpClient.antt =====
-- src/layers/physical/tcp_client.rs: one connection, its reading task and the close events. The calls
-- of the user and the reading tasks interleave: a step is what one of them does between two awaits.
-- What the socket does is a choice of the step.
pub mod Gate
use Prim.Native.String.{String}
use rs_modbus.Prelude.{
  ℕ, ◌+◌, ◌≡◌, Option, none, some, Bool, true, false, not, ◌||◌, List, [], ◌∷◌, if◌then◌else◌, ◌==◌,
  Result, ok, err, Bytes,
}
use rs_modbus.Errors.{ModbusError}
use rs_modbus.Types.{ConnectionId}
use rs_modbus.Physical.Tasks.{Taken, continue_with}

-- A reading task: in its loop, or behind it.
pub record ReadTask : Type 0 where
  pub handle : ℕ
  pub conn : ConnectionId
  pub has_ended : Bool

-- Where a call of `open` stands: before its second guard, past it, and behind each of its writes.
pub data Opening : Type 0 where
  entering guarded marked connected halved placed shown : Opening
  named : ConnectionId → Opening
  spawned : ℕ → Opening

-- Where a call of `close` stands, that has found the layer open.
pub data Closing : Type 0 where
  aborting halving announcing : Closing

-- From `opening` on: the calls and tasks that are under way, the next connection id and task number,
-- the data events (the chunk and its connection), the close events, and the number of the calls of
-- `open` that have opened the layer.
pub record TcpClientPhysicalLayer : Type 0 where
  pub write_half : Bool
  pub is_open : Bool
  pub is_opening : Bool
  pub is_destroyed : Bool
  pub addr : Option String
  pub connection_id : Option ConnectionId
  pub read_task : Option ℕ
  pub opening : List Opening
  pub closing : List Closing
  pub read_tasks : List ReadTask
  pub next_id : ConnectionId
  pub next_task : ℕ
  pub received : List (Bytes × ConnectionId)
  pub connection_closes : List ConnectionId
  pub closes : ℕ
  pub opened : ℕ

abbrev pub new_layer : TcpClientPhysicalLayer
new_layer = record {
  write_half = false;
  is_open = false;
  is_opening = false;
  is_destroyed = false;
  addr = none;
  connection_id = none;
  read_task = none;
  opening = [];
  closing = [];
  read_tasks = [];
  next_id = 0;
  next_task = 0;
  received = [];
  connection_closes = [];
  closes = 0;
  opened = 0;
}

unfoldable pub set_addr : String → TcpClientPhysicalLayer → TcpClientPhysicalLayer
set_addr text s = record s { addr = some text }

-- The address that `open` connects to: the one it is given, or that of the layer, or a default.
abbrev or_addr : Option String → String → String
or_addr none text = text
or_addr (some text) other = text

pub connect_addr : Option String → TcpClientPhysicalLayer → String
connect_addr options s = or_addr options (or_addr s.addr "127.0.0.1:502")

-- The next step of `open`, and what is left of it; the outcome of `connect` is given.
unfoldable pub open_step :
    Bool → Opening → TcpClientPhysicalLayer → TcpClientPhysicalLayer × Option Opening
open_step connects entering s = if s.is_open || s.is_opening then (s, none) else (s, some guarded)
open_step connects guarded s = (record s { is_opening = true }, some marked)
open_step true marked s = (s, some connected)
open_step false marked s = (record s { is_opening = false }, none)
open_step connects connected s = (record s { write_half = true }, some halved)
open_step connects halved s =
    (record s { connection_id = some s.next_id; next_id = s.next_id + 1 }, some (named s.next_id))
open_step connects (named c) s = (
  record s {
    next_task = s.next_task + 1;
    read_tasks = record { handle = s.next_task; conn = c; has_ended = false } ∷ s.read_tasks;
  },
  some (spawned s.next_task),
)
open_step connects (spawned handle) s = (record s { read_task = some handle }, some placed)
open_step connects placed s = (record s { is_open = true; opened = s.opened + 1 }, some shown)
open_step connects shown s = (record s { is_opening = false }, none)

-- What a reading task meets at the socket: a chunk, or the end of the stream or an error.
pub data Chunk : Type 0 where
  chunk : Bytes → Chunk
  ended : Chunk

-- The gate behind the loop, and the events: nothing is awaited between them.
unfoldable pub leave_loop : ReadTask → TcpClientPhysicalLayer → TcpClientPhysicalLayer
leave_loop t s =
    if s.is_open
    then record s {
      is_open = false;
      connection_closes = t.conn ∷ s.connection_closes;
      closes = s.closes + 1;
    }
    else s

-- The next step of a reading task, and what is left of it.
unfoldable pub read_step :
    Bool → Chunk → ReadTask → TcpClientPhysicalLayer → TcpClientPhysicalLayer × Option ReadTask
unfolding leave_loop
read_step false (chunk bytes) t s = (record s { received = (bytes, t.conn) ∷ s.received }, some t)
read_step false ended t s = (s, some (record t { has_ended = true }))
read_step true c t s = (leave_loop t s, none)

abbrev pub abort_read : Option ℕ → List ReadTask → List ReadTask
abort_read none ts = ts
abort_read (some h) [] = []
abort_read (some h) (t ∷ ts) =
    let rest = abort_read (some h) ts in if t.handle == h then rest else t ∷ rest

-- The gate of `close`, and its next step.
unfoldable pub begin_close : TcpClientPhysicalLayer → TcpClientPhysicalLayer
begin_close s =
    if s.is_open then record s { is_open = false; closing = aborting ∷ s.closing } else s

abbrev pub announced : Option ConnectionId → List ConnectionId → List ConnectionId
announced none cs = cs
announced (some c) cs = c ∷ cs

unfoldable pub close_step :
    Closing → TcpClientPhysicalLayer → TcpClientPhysicalLayer × Option Closing
close_step aborting s =
    (record s { read_task = none; read_tasks = abort_read s.read_task s.read_tasks }, some halving)
close_step halving s = (record s { write_half = false }, some announcing)
close_step announcing s = (
  record s {
    connection_id = none;
    connection_closes = announced s.connection_id s.connection_closes;
    closes = s.closes + 1;
  },
  none,
)

-- `write`, with the outcome of `write_all`: the layer at its guard, and at the lock of the half.
pub write :
    Result ModbusError (Unit {0})
    → TcpClientPhysicalLayer
    → TcpClientPhysicalLayer
    → Result ModbusError (Unit {0})
write sent before s =
    if not before.is_open
    then err ModbusError.port_not_open
    else if s.write_half
    then sent
    else err ModbusError.port_not_open

-- The reply closure of a data event, with the outcome of `write_all`: without the write half, the
-- reply is dropped.
pub response :
    Result ModbusError (Unit {0}) → TcpClientPhysicalLayer → Result ModbusError (Unit {0})
response sent s = if s.write_half then sent else ok tt

-- A call or a task is taken from those under way, makes a step, and goes on or not.
pub data Step (s : TcpClientPhysicalLayer) : TcpClientPhysicalLayer → Type 0 where
  open_begins : s.is_destroyed ≡ false → Step s (record s { opening = entering ∷ s.opening })
  opens :
      (connects : Bool) (o : Opening) (others : List Opening)
      → Taken o s.opening others
      → Step s (record (open_step connects o s).0 {
        opening = continue_with (open_step connects o s).1 others;
      })
  reads :
      (c : Chunk) (t : ReadTask) (others : List ReadTask)
      → Taken t s.read_tasks others
      → Step s (record (read_step t.has_ended c t s).0 {
        read_tasks = continue_with (read_step t.has_ended c t s).1 others;
      })
  close_begins : Step s (begin_close s)
  closes :
      (c : Closing) (others : List Closing)
      → Taken c s.closing others
      → Step s (record (close_step c s).0 { closing = continue_with (close_step c s).1 others })
  addressed : (text : String) → Step s (set_addr text s)
  destroys : Step s (record s { is_destroyed = true })
