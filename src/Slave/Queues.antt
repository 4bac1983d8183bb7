-- ===== src/Slave/Queues.antt =====
-- src/slave.rs: the queues of frames that wait, one for each connection, and the tasks that drain
-- them. A step of a task is what it does between two awaits; the tasks interleave in any order.
pub mod Serial
pub mod View
pub mod Fifo
pub mod Drained
use rs_modbus.Prelude.{
  ℕ, ◌+◌, ◌≡◌, Option, none, some, Bool, true, false, List, [], ◌∷◌, ◌++◌, if◌then◌else◌, ◌==◌,
}
use rs_modbus.Prelude.HashMap.{HashMap, lookup, insert, remove, nat_eq}
use rs_modbus.Types.{FramedDataUnit, ResponseFn, ConnectionId}

abbrev pub Item : Type 0
Item = FramedDataUnit × ResponseFn

pub record QueueEntry : Type 0 where
  pub items : List Item
  pub processing : Bool

abbrev pub Queues : Type 0
Queues = HashMap ConnectionId QueueEntry

-- Where a task that drains a queue stands: before the lock that takes an item, in `process_frame`,
-- or before the lock that removes the empty queue.
pub data Phase : Type 0 where
  taking : Phase
  serving : Item → Phase
  settling : Phase

-- A running `drain_loop`.
pub record Task : Type 0 where
  pub connection : ConnectionId
  pub phase : Phase

-- `entry(connection).or_insert(..)`
abbrev pub or_insert : Option QueueEntry → QueueEntry
or_insert none = record { items = []; processing = false }
or_insert (some entry) = entry

-- The queues afterwards, and whether a task is spawned.
unfoldable pub enqueue : ConnectionId → Item → Queues → Queues × Bool
enqueue connection item queues =
    let entry = or_insert (lookup connection queues) in
    (
      insert connection (record { items = entry.items ++ (item ∷ []); processing = true }) queues,
      if entry.processing then false else true,
    )

-- What the step of a task does, as seen from outside.
pub data Label : Type 0 where
  arrived : ConnectionId → Item → Label
  started : ConnectionId → Item → Label
  finished : ConnectionId → Label
  silent : Label
  peer_closed : ConnectionId → Label
  cleared : Label

-- The result of one step of a task: the task has ended when there is no next phase.
pub record Drain : Type 0 where
  pub queues : Queues
  pub next : Option Phase
  pub label : Label

abbrev pub take_next : ConnectionId → Queues → Bool → List Item → Drain
take_next connection queues p [] = record { queues = queues; next = some settling; label = silent }
take_next connection queues p (item ∷ items) = record {
  queues = insert connection (record { items = items; processing = p }) queues;
  next = some (serving item);
  label = started connection item;
}

abbrev pub settle_queue : ConnectionId → Queues → List Item → Drain
settle_queue connection queues [] = record {
  queues = remove connection queues;
  next = none;
  label = silent;
}
settle_queue connection queues (item ∷ items) = record {
  queues = queues;
  next = some taking;
  label = silent;
}

abbrev pub bail : Queues → Drain
bail queues = record { queues = queues; next = none; label = silent }

-- A step of `drain_loop`.
unfoldable pub drain_step : ConnectionId → Phase → Queues → Drain
drain_step connection taking queues = elim (lookup connection queues) [
  | none ↦ bail queues
  | some entry ↦ take_next connection queues entry.processing entry.items
]
drain_step connection (serving item) queues = record {
  queues = queues;
  next = some taking;
  label = finished connection;
}
drain_step connection settling queues = elim (lookup connection queues) [
  | none ↦ bail queues
  | some entry ↦ settle_queue connection queues entry.items
]

abbrev pub close_entry : ConnectionId → Queues → Option QueueEntry → Queues
close_entry connection queues none = queues
close_entry connection queues (some entry) =
    if entry.processing
    then insert connection (record { items = []; processing = true }) queues
    else remove connection queues

-- The task that reacts to the close of a connection.
unfoldable pub connection_closed : ConnectionId → Queues → Queues
connection_closed connection queues = close_entry connection queues (lookup connection queues)

-- The queues, and the tasks that run.
pub record Server : Type 0 where
  pub queues : Queues
  pub tasks : List Task

abbrev pub continued : ConnectionId → Option Phase → List Task
continued connection none = []
continued connection (some phase) = record { connection = connection; phase = phase } ∷ []

unfoldable pub enqueue_and_drain : ConnectionId → Item → Server → Server
unfolding enqueue
enqueue_and_drain connection item s =
    let (queues, should_spawn) = enqueue connection item s.queues in
    record {
      queues = queues;
      tasks =
          if should_spawn
          then record { connection = connection; phase = taking } ∷ s.tasks
          else s.tasks;
    }

-- A step of the server: a frame arrives, one of the tasks goes on, a connection is closed, or the
-- queues are cleared: by `open`, `clean`, and the close of the physical layer.
pub data Step (s : Server) : Label → Server → Type 0 where
  arrive : (c : ConnectionId) (item : Item) → Step s (arrived c item) (enqueue_and_drain c item s)
  run :
      (before : List Task) (c : ConnectionId) (phase : Phase) (after : List Task)
      → s.tasks ≡ before ++ (record { connection = c; phase = phase } ∷ after)
      → Step s (drain_step c phase s.queues).label (record {
        queues = (drain_step c phase s.queues).queues;
        tasks = before ++ (continued c (drain_step c phase s.queues).next ++ after);
      })
  closes_connection :
      (c : ConnectionId)
      → Step s (peer_closed c) (record { queues = connection_closed c s.queues; tasks = s.tasks })
  clears_queues : Step s cleared (record { queues = []; tasks = s.tasks })
