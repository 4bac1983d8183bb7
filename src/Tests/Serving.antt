-- ===== src/Tests/Serving.antt =====
-- A server with its queues and locks, and the calls of its user.
use rs_modbus.Prelude.{ℕ, ◌≡◌, refl, none, false, [], ◌∷◌, ◌++◌, ok}
use rs_modbus.Prelude.HashMap.{lookup, insert, nat_eq}
use rs_modbus.Slave.Queues.{
  Item, Server, enqueue_and_drain, enqueue, or_insert, taking, started, arrived, Step, arrive, run,
  drain_step, continued,
}
use rs_modbus.Slave.Queues.Serial.{IsSerial, ClearsIdle, drainers, Step-IsSerial}
use rs_modbus.Slave.Queues.View.{FifoStep, seen_by}
use rs_modbus.Slave.Queues.Fifo.{Step-FifoStep}
use rs_modbus.Slave.Queues.Drained.{Drains, IsSerial-Drains}
use rs_modbus.Slave.AddressLock.{Locks, no_locks, enter, enters}
use rs_modbus.Slave.AddressLock.Progress.{Run, Reachable, initial, after, Reachable-Run}
use rs_modbus.Slave.Lifecycle.{
  PhysicalLayer, ModbusSlave, with_options, on_framing, open_slave, load_open, push_frame,
  shut_down, clear_queues,
}
use rs_modbus.Physical.Tasks.{here}
use rs_modbus.Slave.Lifecycle.Quiet
use rs_modbus.Slave.Lifecycle.Quiet.{IsQuiet, loads, pushes, Steps-IsQuiet}
use rs_modbus.Slave.Lifecycle.Reopened.{cycles, cycles-receive}

abbrev item : Item
item = (record { adu = record { transaction = none; unit = 1; fc = 3; payload = [] }; raw = [] }, 0)

abbrev idle : Server
idle = record { queues = []; tasks = [] }

-- One frame waits on connection 7.
abbrev busy : Server
busy = enqueue_and_drain 7 item idle

idle-IsSerial : IsSerial idle
unfolding IsSerial lookup drainers
idle-IsSerial c = refl

Step-IsSerial_example : IsSerial busy
unfolding ClearsIdle
Step-IsSerial_example =
    Step-IsSerial idle busy (arrived 7 item) (arrive 7 item) (λ e. refl) idle-IsSerial

busy-IsSerial : IsSerial busy
unfolding ClearsIdle
busy-IsSerial = Step-IsSerial idle busy (arrived 7 item) (arrive 7 item) (λ e. refl) idle-IsSerial

-- The task takes the frame.
abbrev serving_one : Server
serving_one = record {
  queues = (drain_step 7 taking busy.queues).queues;
  tasks = continued 7 (drain_step 7 taking busy.queues).next ++ [];
}

takes : Step busy (started 7 item) serving_one
unfolding drain_step enqueue_and_drain enqueue lookup insert
takes = run [] 7 taking [] refl

no_clear : ClearsIdle busy (started 7 item)
unfolding ClearsIdle
no_clear e = cc

Step-FifoStep_example : FifoStep 7 (seen_by 7 busy) (seen_by 7 serving_one) (started 7 item)
Step-FifoStep_example =
    Step-FifoStep busy serving_one (started 7 item) 7 takes no_clear busy-IsSerial

-- The queues are cleared while the task serves the frame, and another frame arrives.
two_tasks : drainers 7 (enqueue_and_drain 7 item (record serving_one { queues = [] })).tasks ≡ 2
unfolding drainers drain_step enqueue_and_drain enqueue lookup insert
two_tasks = refl

IsSerial-Drains_example :
    (s' : Server) × Drains 7 busy (seen_by 7 busy).waiting s'
    × (seen_by 7 s' ≡ record { waiting = []; current = none })
    × (drainers 7 s'.tasks ≡ 0)
    × (lookup 7 s'.queues ≡ none)
IsSerial-Drains_example = IsSerial-Drains busy 7 busy-IsSerial

-- Two calls want the same two addresses.
abbrev contested : Locks
contested = enter (1 ∷ 3 ∷ []) (enter (3 ∷ 1 ∷ []) no_locks)

contested-Reachable : Reachable contested
contested-Reachable =
    after (enter (3 ∷ 1 ∷ []) no_locks) contested
      (after no_locks (enter (3 ∷ 1 ∷ []) no_locks) initial (enters (3 ∷ 1 ∷ [])))
      (enters (1 ∷ 3 ∷ []))

Reachable-Run_example : (s' : Locks) × Run contested s' × (s'.calls ≡ [])
Reachable-Run_example = Reachable-Run contested contested-Reachable

-- A physical layer on which every call succeeds.
abbrev wire : PhysicalLayer (Unit {0})
wire = record {
  open_port = λ p. (ok tt, p);
  close = λ p. (ok tt, p);
  destroy = λ p. p;
  is_destroyed = λ p. false;
}

abbrev new_slave : ModbusSlave ℕ ℕ (Unit {0})
new_slave = with_options tt

-- A listening task has found the server open; the server is closed, and the task queues its frame.
abbrev listening : ModbusSlave ℕ ℕ (Unit {0})
listening = load_open 7 item (open_slave wire new_slave).1

abbrev stopping : ModbusSlave ℕ ℕ (Unit {0})
stopping = load_open 8 item (shut_down listening)

abbrev stopped : ModbusSlave ℕ ℕ (Unit {0})
stopped = push_frame 7 item [] (clear_queues stopping)

queues_late : Quiet.Step (clear_queues stopping) stopped
unfolding load_open shut_down open_slave
queues_late = pushes 7 item [] here

Steps-IsQuiet_example : IsQuiet ((7, item) ∷ []) stopped
unfolding load_open open_slave
Steps-IsQuiet_example =
    Steps-IsQuiet listening stopping stopped
      (Quiet.next (shut_down listening) stopping Quiet.here (loads 8 item))
      (Quiet.next (clear_queues stopping) stopped Quiet.here queues_late)

-- It waits in the queue of a server that was closed.
queued_late : (or_insert (lookup 7 stopped.server.queues)).items ≡ item ∷ []
unfolding load_open shut_down open_slave push_frame enqueue_and_drain enqueue lookup insert
queued_late = refl

cycles-receive_example :
    (or_insert (
      lookup 7
        (on_framing 7 item (open_slave wire (cycles wire 1 new_slave)).1).server.queues)).items
    ≡ item ∷ item ∷ []
cycles-receive_example = cycles-receive wire 1 new_slave 7 item refl
