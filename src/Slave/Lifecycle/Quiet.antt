-- ===== src/Slave/Lifecycle/Quiet.antt =====
-- src/slave.rs: a server that is closed or destroyed, until it is opened again. What the calls of the
-- user, the listening tasks and the drain tasks do between two awaits are steps, in any order.
use rs_modbus.Prelude.{ℕ, ◌≡◌, refl, sym, subst, false, List, ◌∷◌, ◌++◌, All}
use rs_modbus.Prelude.HashMap.{lookup, nat_eq}
use rs_modbus.Types.{ConnectionId}
use rs_modbus.Physical.Tasks.{Taken, All-Taken}
use rs_modbus.Slave.Queues.{Item, Phase, Task, drain_step, continued, connection_closed}
use rs_modbus.Slave.Lifecycle.{
  ModbusSlave, add, remove_unit, add_custom_function_code, remove_custom_function_code, shut_down,
  clear_queues, clear_locks, set_level, abort_tasks, load_open, push_frame,
}
use rs_modbus.Slave.Lifecycle.Waiting.{
  IsOneOf, AllWaiting, all_of, waiting-push, waiting-drain_step, waiting-close_entry,
}

-- The steps of a server other than those of `open`: of `clean`, of `close` and `destroy`, of the calls
-- that change the models and the function codes, of a listening task, and of the queues: a drain
-- task goes on, a connection is closed, or the physical layer is.
pub data Step {M F P : Type 0} (s : ModbusSlave M F P) : ModbusSlave M F P → Type 0 where
  shuts : Step s (shut_down s)
  clears : Step s (clear_queues s)
  unlocks : Step s (clear_locks s)
  levels : (level : ℕ) → Step s (set_level level s)
  aborts : Step s (abort_tasks s)
  below : (p : P) → Step s (record s { physical = p })
  adds : (unit : ℕ) (model : M) → Step s (add unit model s)
  removes : (unit : ℕ) → Step s (remove_unit unit s)
  adds_function_code : (fc : ℕ) (cfc : F) → Step s (add_custom_function_code fc cfc s)
  removes_function_code : (fc : ℕ) → Step s (remove_custom_function_code fc s)
  loads : (c : ConnectionId) (item : Item) → Step s (load_open c item s)
  pushes :
      (c : ConnectionId) (item : Item) (others : List (ConnectionId × Item))
      → Taken (c, item) s.pending others
      → Step s (push_frame c item others s)
  drains :
      (before : List Task) (c : ConnectionId) (phase : Phase) (after : List Task)
      → s.server.tasks ≡ before ++ (record { connection = c; phase = phase } ∷ after)
      → Step s (record s {
        server = record {
          queues = (drain_step c phase s.server.queues).queues;
          tasks = before ++ (continued c (drain_step c phase s.server.queues).next ++ after);
        };
      })
  closes_connection :
      (c : ConnectionId)
      → Step s (record s {
        server = record { queues = connection_closed c s.server.queues; tasks = s.server.tasks };
      })

pub data Steps {M F P : Type 0} (s : ModbusSlave M F P) : ModbusSlave M F P → Type 0 where
  here : Steps s s
  next : (s1 s2 : ModbusSlave M F P) → Steps s s1 → Step s1 s2 → Steps s s2

module _ {M F P : Type 0} where
  -- The server is not open, and a listening task holds none but `frames`.
  record IsShut (frames : List (ConnectionId × Item)) (s : ModbusSlave M F P) : Type 0 where
    shut : s.is_open ≡ false
    under_way : All (λ x. IsOneOf x frames) s.pending

  -- Besides, none but `frames` waits in a queue.
  pub record IsQuiet (frames : List (ConnectionId × Item)) (s : ModbusSlave M F P) : Type 0 where
    pub shut : s.is_open ≡ false
    pub under_way : All (λ x. IsOneOf x frames) s.pending
    pub waiting : AllWaiting frames s.server.queues

  module _ (frames : List (ConnectionId × Item)) where
    load_open-pending :
        (c : ConnectionId) (item : Item) (s : ModbusSlave M F P)
        → s.is_open ≡ false
        → load_open c item s ≡ s
    unfolding load_open
    load_open-pending c item s e = rw e

    Step-IsShut : (s s' : ModbusSlave M F P) → Step s s' → IsShut frames s → IsShut frames s'
    unfolding shut_down clear_locks set_level abort_tasks add remove_unit add_custom_function_code
        remove_custom_function_code push_frame
    Step-IsShut s s' shuts h = record { shut = refl; under_way = h.under_way }
    Step-IsShut s s' clears h = record { shut = h.shut; under_way = h.under_way }
    Step-IsShut s s' unlocks h = record { shut = h.shut; under_way = h.under_way }
    Step-IsShut s s' (levels level) h = record { shut = h.shut; under_way = h.under_way }
    Step-IsShut s s' aborts h = record { shut = h.shut; under_way = tt }
    Step-IsShut s s' (below p) h = record { shut = h.shut; under_way = h.under_way }
    Step-IsShut s s' (adds unit model) h = record { shut = h.shut; under_way = h.under_way }
    Step-IsShut s s' (removes unit) h = record { shut = h.shut; under_way = h.under_way }
    Step-IsShut s s' (adds_function_code fc f) h = record { shut = h.shut; under_way = h.under_way }
    Step-IsShut s s' (removes_function_code fc) h = record {
      shut = h.shut;
      under_way = h.under_way;
    }
    Step-IsShut s s' (loads c item) h =
        subst (IsShut frames) (sym (load_open-pending c item s h.shut)) h
    Step-IsShut s s' (pushes c item others taken) h = record {
      shut = h.shut;
      under_way =
          (All-Taken (λ x. IsOneOf x frames) (c, item) s.pending others taken h.under_way).1;
    }
    Step-IsShut s s' (drains before c phase after e) h = record {
      shut = h.shut;
      under_way = h.under_way;
    }
    Step-IsShut s s' (closes_connection c) h = record { shut = h.shut; under_way = h.under_way }

    -- The queues of a server that is shut, through a step.
    Step-waiting :
        (s s' : ModbusSlave M F P)
        → Step s s'
        → IsShut frames s
        → AllWaiting frames s.server.queues
        → AllWaiting frames s'.server.queues
    unfolding shut_down clear_locks set_level abort_tasks add remove_unit add_custom_function_code
        remove_custom_function_code push_frame lookup connection_closed
    Step-waiting s s' shuts h w = w
    Step-waiting s s' clears h w = λ c. tt
    Step-waiting s s' unlocks h w = w
    Step-waiting s s' (levels level) h w = w
    Step-waiting s s' aborts h w = w
    Step-waiting s s' (below p) h w = w
    Step-waiting s s' (adds unit model) h w = w
    Step-waiting s s' (removes unit) h w = w
    Step-waiting s s' (adds_function_code fc f) h w = w
    Step-waiting s s' (removes_function_code fc) h w = w
    Step-waiting s s' (loads c item) h w =
        subst (λ u. AllWaiting frames u.server.queues) (sym (load_open-pending c item s h.shut)) w
    Step-waiting s s' (pushes c item others taken) h w =
        waiting-push frames c item s.server
          (All-Taken (λ x. IsOneOf x frames) (c, item) s.pending others taken h.under_way).0 w
    Step-waiting s s' (drains before c phase after e) h w =
        waiting-drain_step frames c phase s.server.queues w
    Step-waiting s s' (closes_connection c) h w =
        waiting-close_entry frames c s.server.queues (lookup c s.server.queues) w

    Steps-IsShut : (s s' : ModbusSlave M F P) → Steps s s' → IsShut frames s → IsShut frames s'
    Steps-IsShut s s' here h = h
    Steps-IsShut s s' (next s1 s2 steps step) h = Step-IsShut s1 s2 step (Steps-IsShut s s1 steps h)

    Steps-waiting :
        (s s' : ModbusSlave M F P)
        → Steps s s'
        → IsShut frames s
        → AllWaiting frames s.server.queues
        → AllWaiting frames s'.server.queues
    Steps-waiting s s' here h w = w
    Steps-waiting s s' (next s1 s2 steps step) h w =
        Step-waiting s1 s2 step (Steps-IsShut s s1 steps h) (Steps-waiting s s1 steps h w)

  -- For a server that is not concurrent: when `clean` has set `is_open` to false and then, after any
  -- steps, has cleared the queues, the server is not open as long as `open` is not called, and every
  -- frame that waits in a queue is one whose listening task had found the server open before `clean`
  -- began, and was then still waiting for the lock of the queues, whatever else is called and however
  -- the tasks interleave. Where no task was waiting for that lock, no frame is in a queue.
  pub Steps-IsQuiet :
      (s s1 s2 : ModbusSlave M F P)
      → Steps (shut_down s) s1
      → Steps (clear_queues s1) s2
      → IsQuiet s.pending s2
  unfolding shut_down lookup
  Steps-IsQuiet s s1 s2 shutting cleared =
      let shut =
        Steps-IsShut s.pending (shut_down s) s1 shutting
          (record { shut = refl; under_way = all_of s.pending }) in
      let empty = Step-IsShut s.pending s1 (clear_queues s1) clears shut in
      let quiet = Steps-IsShut s.pending (clear_queues s1) s2 cleared empty in
      record {
        shut = quiet.shut;
        under_way = quiet.under_way;
        waiting = Steps-waiting s.pending (clear_queues s1) s2 cleared empty (λ c. tt);
      }
