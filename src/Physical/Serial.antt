-- ===== src/Physical/Serial.antt =====
-- src/layers/physical/serial.rs: the port, its reading task and the close events. The calls of the
-- user and the reading tasks interleave: a step is one access to what they share. What the port does
-- is a choice of the step.
pub mod Gate
use rs_modbus.Prelude.{
  ℕ, ◌+◌, ◌≡◌, Option, none, some, Bool, true, false, not, List, [], ◌∷◌, if◌then◌else◌, ◌==◌, ◌||◌,
  Result, ok, err, Bytes,
}
use rs_modbus.Errors.{ModbusError}
use rs_modbus.Types.{ConnectionId}
use rs_modbus.Physical.Tasks.{Taken, continue_with}

-- A reading task: at the test of its loop, at the port, or behind the loop.
pub data ReadPhase : Type 0 where
  testing reading broken : ReadPhase

pub record ReadTask : Type 0 where
  pub handle : ℕ
  pub conn : ConnectionId
  pub phase : ReadPhase

-- Where a call of `open` stands: before it claims `is_opening`, with its claim, and behind each of
-- its writes.
pub data Opening : Type 0 where
  entering claimed guarded cloned written placed shown : Opening
  named : ConnectionId → Opening
  spawned : ℕ → Opening

-- Where a call of `close` stands, that has found the port open; `awaiting` is the end of a task.
pub data Closing : Type 0 where
  dropping taking announcing : Closing
  awaiting : ℕ → Closing

-- From `opening` on: the calls and tasks that are under way, the next connection id and task number,
-- the data events (the chunk and its connection), the close events, and the number of the calls of
-- `open` that have opened the port.
pub record SerialPhysicalLayer : Type 0 where
  pub write_port : Bool
  pub read_task : Option ℕ
  pub is_open : Bool
  pub is_opening : Bool
  pub is_destroyed : Bool
  pub connection_id : Option ConnectionId
  pub opening : List Opening
  pub closing : List Closing
  pub read_tasks : List ReadTask
  pub next_id : ConnectionId
  pub next_task : ℕ
  pub received : List (Bytes × ConnectionId)
  pub connection_closes : List ConnectionId
  pub closes : ℕ
  pub opened : ℕ

abbrev pub new_layer : SerialPhysicalLayer
new_layer = record {
  write_port = false;
  read_task = none;
  is_open = false;
  is_opening = false;
  is_destroyed = false;
  connection_id = none;
  opening = [];
  closing = [];
  read_tasks = [];
  next_id = 0;
  next_task = 0;
  received = [];
  connection_closes = [];
  closes = 0;
  opened = 0;
}

-- The next step of `open`, and what is left of it; whether the port is opened and cloned is given.
unfoldable pub open_step :
    Bool → Opening → SerialPhysicalLayer → SerialPhysicalLayer × Option Opening
open_step works entering s =
    if s.is_opening then (s, none) else (record s { is_opening = true }, some claimed)
open_step works claimed s =
    if s.is_open then (record s { is_opening = false }, none) else (s, some guarded)
open_step true guarded s = (s, some cloned)
open_step false guarded s = (record s { is_opening = false }, none)
open_step works cloned s = (record s { write_port = true }, some written)
open_step works written s =
    (record s { connection_id = some s.next_id; next_id = s.next_id + 1 }, some (named s.next_id))
open_step works (named c) s = (
  record s {
    next_task = s.next_task + 1;
    read_tasks = record { handle = s.next_task; conn = c; phase = testing } ∷ s.read_tasks;
  },
  some (spawned s.next_task),
)
open_step works (spawned handle) s = (record s { read_task = some handle }, some placed)
open_step works placed s = (record s { is_open = true; opened = s.opened + 1 }, some shown)
open_step works shown s = (record s { is_opening = false }, none)

-- What `read` gives: a chunk, no byte or a timeout, or another error.
pub data Reading : Type 0 where
  chunk : Bytes → Reading
  timed_out failed : Reading

-- Behind the loop: `swap`, and the events.
unfoldable pub leave_loop : ReadTask → SerialPhysicalLayer → SerialPhysicalLayer
leave_loop t s =
    if s.is_open
    then record s {
      is_open = false;
      connection_closes = t.conn ∷ s.connection_closes;
      closes = s.closes + 1;
    }
    else s

-- The next step of a reading task, and what is left of it.
unfoldable pub read_step :
    ReadPhase → Reading → ReadTask → SerialPhysicalLayer → SerialPhysicalLayer × Option ReadTask
unfolding leave_loop
read_step testing r t s = (s, some (record t { phase = if s.is_open then reading else broken }))
read_step reading (chunk bytes) t s =
    (record s { received = (bytes, t.conn) ∷ s.received }, some (record t { phase = testing }))
read_step reading timed_out t s = (s, some (record t { phase = testing }))
read_step reading failed t s = (s, some (record t { phase = broken }))
read_step broken r t s = (leave_loop t s, none)

-- The gate of `close`.
unfoldable pub begin_close : SerialPhysicalLayer → SerialPhysicalLayer
begin_close s =
    if s.is_open then record s { is_open = false; closing = dropping ∷ s.closing } else s

abbrev pub announced : Option ConnectionId → List ConnectionId → List ConnectionId
announced none cs = cs
announced (some c) cs = c ∷ cs

abbrev pub is_running : ℕ → List ReadTask → Bool
is_running h [] = false
is_running h (t ∷ ts) = let rest = is_running h ts in t.handle == h || rest

abbrev await_or_announce : Option ℕ → Closing
await_or_announce none = announcing
await_or_announce (some handle) = awaiting handle

-- The next step of `close`; it waits while its task runs.
unfoldable pub close_step : Closing → SerialPhysicalLayer → SerialPhysicalLayer × Option Closing
close_step dropping s = (record s { write_port = false }, some taking)
close_step taking s = (record s { read_task = none }, some (await_or_announce s.read_task))
close_step (awaiting handle) s =
    (s, some (if is_running handle s.read_tasks then awaiting handle else announcing))
close_step announcing s = (
  record s {
    connection_id = none;
    connection_closes = announced s.connection_id s.connection_closes;
    closes = s.closes + 1;
  },
  none,
)

-- `write`, with the outcome of `write_all`: the layer at its guard, and at the lock of the port.
pub write :
    Result ModbusError (Unit {0})
    → SerialPhysicalLayer
    → SerialPhysicalLayer
    → Result ModbusError (Unit {0})
write sent before s =
    if not before.is_open
    then err ModbusError.port_not_open
    else if s.write_port
    then sent
    else err ModbusError.port_not_open

-- The reply closure of a data event, with the outcome of `write_all`.
pub response : Result ModbusError (Unit {0}) → SerialPhysicalLayer → Result ModbusError (Unit {0})
response sent s = if s.write_port then sent else err ModbusError.port_not_open

-- A call or a task is taken from those under way, makes a step, and goes on or not.
pub data Step (s : SerialPhysicalLayer) : SerialPhysicalLayer → Type 0 where
  open_begins : s.is_destroyed ≡ false → Step s (record s { opening = entering ∷ s.opening })
  opens :
      (works : Bool) (o : Opening) (others : List Opening)
      → Taken o s.opening others
      → Step s (record (open_step works o s).0 {
        opening = continue_with (open_step works o s).1 others;
      })
  reads :
      (r : Reading) (t : ReadTask) (others : List ReadTask)
      → Taken t s.read_tasks others
      → Step s (record (read_step t.phase r t s).0 {
        read_tasks = continue_with (read_step t.phase r t s).1 others;
      })
  close_begins : Step s (begin_close s)
  closes :
      (c : Closing) (others : List Closing)
      → Taken c s.closing others
      → Step s (record (close_step c s).0 { closing = continue_with (close_step c s).1 others })
  destroys : Step s (record s { is_destroyed = true })
