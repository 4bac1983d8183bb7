-- ===== src/Physical/TcpServer.antt =====
-- src/layers/physical/tcp_server.rs: the clients of a listening socket, and the close events. The
-- calls of the user, the accept tasks and the read tasks interleave: a step is what one of them does
-- between two awaits. What the sockets do is a choice of the step.
pub mod Once
use Prim.Native.String.{String}
use rs_modbus.Prelude.{
  ℕ, ◌+◌, ◌≡◌, Option, none, some, Bool, true, false, ◌||◌, List, [], ◌∷◌, ◌++◌, if◌then◌else◌,
  ◌==◌,
}
use rs_modbus.Types.{ConnectionId}
use rs_modbus.Physical.Tasks.{Taken, continue_with}

-- Where an accept task stands: at `accept`, with a client whose read task is spawned and that is not
-- in the map yet, or behind its loop.
pub data Accept : Type 0 where
  accepting : Accept
  inserting : ConnectionId → Accept
  broken : Accept

pub record AcceptTask : Type 0 where
  pub handle : ℕ
  pub phase : Accept

-- A read task: in its loop, or behind it.
pub record ReadTask : Type 0 where
  pub client : ConnectionId
  pub has_ended : Bool

-- Where a call of `open` stands: before its second guard, past it, and behind each of its writes.
pub data Opening : Type 0 where
  entering guarded marked published emptied placed shown : Opening
  listening : String → Opening
  spawned : ℕ → Opening

-- Where a call of `close` stands, that has found the layer open.
pub data Closing : Type 0 where
  aborting draining : Closing

-- The keys of the map of the clients are a list. From `opening` on: the calls and tasks that are
-- under way, the next connection id and task number, the close events, and the number of the calls
-- of `open` that have opened the layer.
pub record TcpServerPhysicalLayer : Type 0 where
  pub is_open : Bool
  pub is_opening : Bool
  pub is_destroyed : Bool
  pub addr : Option String
  pub clients : List ConnectionId
  pub accept_task : Option ℕ
  pub opening : List Opening
  pub closing : List Closing
  pub accept_tasks : List AcceptTask
  pub read_tasks : List ReadTask
  pub next_id : ConnectionId
  pub next_task : ℕ
  pub connection_closes : List ConnectionId
  pub closes : ℕ
  pub opened : ℕ

abbrev pub new_layer : TcpServerPhysicalLayer
new_layer = record {
  is_open = false;
  is_opening = false;
  is_destroyed = false;
  addr = none;
  clients = [];
  accept_task = none;
  opening = [];
  closing = [];
  accept_tasks = [];
  read_tasks = [];
  next_id = 0;
  next_task = 0;
  connection_closes = [];
  closes = 0;
  opened = 0;
}

unfoldable pub set_addr : String → TcpServerPhysicalLayer → TcpServerPhysicalLayer
set_addr text s = record s { addr = some text }

unfoldable pub contains : ConnectionId → List ConnectionId → Bool
contains c [] = false
contains c (x ∷ xs) = let rest = contains c xs in x == c || rest

unfoldable pub without : ConnectionId → List ConnectionId → List ConnectionId
without c [] = []
without c (x ∷ xs) = let rest = without c xs in if x == c then rest else x ∷ rest

-- The next step of `open`, and what is left of it; the local address of the listener that `bind`
-- gives, or its failure, is given. The clients of an earlier session are dropped.
unfoldable pub open_step :
    Option String → Opening → TcpServerPhysicalLayer → TcpServerPhysicalLayer × Option Opening
open_step local_addr entering s = if s.is_open || s.is_opening then (s, none) else (s, some guarded)
open_step local_addr guarded s = (record s { is_opening = true }, some marked)
open_step none marked s = (record s { is_opening = false }, none)
open_step (some text) marked s = (s, some (listening text))
open_step local_addr (listening text) s = (record s { addr = some text }, some published)
open_step local_addr published s = (record s { clients = [] }, some emptied)
open_step local_addr emptied s = (
  record s {
    next_task = s.next_task + 1;
    accept_tasks = record { handle = s.next_task; phase = accepting } ∷ s.accept_tasks;
  },
  some (spawned s.next_task),
)
open_step local_addr (spawned handle) s = (record s { accept_task = some handle }, some placed)
open_step local_addr placed s = (record s { is_open = true; opened = s.opened + 1 }, some shown)
open_step local_addr shown s = (record s { is_opening = false }, none)

-- A client connects: its read task is spawned.
unfoldable pub accept : TcpServerPhysicalLayer → TcpServerPhysicalLayer
accept s = record s {
  next_id = s.next_id + 1;
  read_tasks = record { client = s.next_id; has_ended = false } ∷ s.read_tasks;
}

unfoldable pub insert_client : ConnectionId → TcpServerPhysicalLayer → TcpServerPhysicalLayer
insert_client c s = record s { clients = c ∷ without c s.clients }

-- Behind the loop of a read task.
unfoldable pub remove_client : ConnectionId → TcpServerPhysicalLayer → TcpServerPhysicalLayer
unfolding contains without
remove_client c s =
    if contains c s.clients
    then record s { clients = without c s.clients; connection_closes = c ∷ s.connection_closes }
    else s

-- Behind the loop of an accept task.
unfoldable pub accept_exit : TcpServerPhysicalLayer → TcpServerPhysicalLayer
accept_exit s = if s.is_open then record s { is_open = false; closes = s.closes + 1 } else s

-- The next step of an accept task, and what is left of it; whether `accept` gives a client is given.
unfoldable pub accept_step :
    Accept → Bool → AcceptTask → TcpServerPhysicalLayer → TcpServerPhysicalLayer × Option AcceptTask
unfolding accept insert_client accept_exit
accept_step accepting true t s = (accept s, some (record t { phase = inserting s.next_id }))
accept_step accepting false t s = (s, some (record t { phase = broken }))
accept_step (inserting c) connects t s = (insert_client c s, some (record t { phase = accepting }))
accept_step broken connects t s = (accept_exit s, none)

abbrev pub abort_accept : Option ℕ → List AcceptTask → List AcceptTask
abort_accept none ts = ts
abort_accept (some h) [] = []
abort_accept (some h) (t ∷ ts) =
    let rest = abort_accept (some h) ts in if t.handle == h then rest else t ∷ rest

-- The gate of `close`.
unfoldable pub begin_close : TcpServerPhysicalLayer → TcpServerPhysicalLayer
begin_close s =
    if s.is_open then record s { is_open = false; closing = aborting ∷ s.closing } else s

unfoldable pub without_tasks : List ConnectionId → List ReadTask → List ReadTask
unfolding contains
without_tasks clients [] = []
without_tasks clients (t ∷ tasks) =
    let rest = without_tasks clients tasks in if contains t.client clients then rest else t ∷ rest

-- The clients are drained: their tasks are aborted, and each one's close is announced, then that of
-- the layer.
unfoldable pub drain_clients : TcpServerPhysicalLayer → TcpServerPhysicalLayer
unfolding without_tasks
drain_clients s = record s {
  clients = [];
  read_tasks = without_tasks s.clients s.read_tasks;
  connection_closes = s.clients ++ s.connection_closes;
  closes = s.closes + 1;
}

-- The next step of `close`, and what is left of it.
unfoldable pub close_step :
    Closing → TcpServerPhysicalLayer → TcpServerPhysicalLayer × Option Closing
unfolding drain_clients
close_step aborting s = (
  record s { accept_task = none; accept_tasks = abort_accept s.accept_task s.accept_tasks },
  some draining,
)
close_step draining s = (drain_clients s, none)

-- The next step of a read task, in its loop or behind it, and what is left of it.
unfoldable pub read_step :
    Bool → ReadTask → TcpServerPhysicalLayer → TcpServerPhysicalLayer × Option ReadTask
unfolding remove_client
read_step false t s = (s, some (record t { has_ended = true }))
read_step true t s = (remove_client t.client s, none)

-- A call or a task is taken from those under way, makes a step, and goes on or not.
pub data Step (s : TcpServerPhysicalLayer) : TcpServerPhysicalLayer → Type 0 where
  open_begins : s.is_destroyed ≡ false → Step s (record s { opening = entering ∷ s.opening })
  opens :
      (local_addr : Option String) (o : Opening) (others : List Opening)
      → Taken o s.opening others
      → Step s (record (open_step local_addr o s).0 {
        opening = continue_with (open_step local_addr o s).1 others;
      })
  accepts :
      (connects : Bool) (t : AcceptTask) (others : List AcceptTask)
      → Taken t s.accept_tasks others
      → Step s (record (accept_step t.phase connects t s).0 {
        accept_tasks = continue_with (accept_step t.phase connects t s).1 others;
      })
  reads :
      (t : ReadTask) (others : List ReadTask)
      → Taken t s.read_tasks others
      → Step s (record (read_step t.has_ended t s).0 {
        read_tasks = continue_with (read_step t.has_ended t s).1 others;
      })
  close_begins : Step s (begin_close s)
  closes :
      (c : Closing) (others : List Closing)
      → Taken c s.closing others
      → Step s (record (close_step c s).0 { closing = continue_with (close_step c s).1 others })
  addressed : (text : String) → Step s (set_addr text s)
  destroys : Step s (record s { is_destroyed = true })
