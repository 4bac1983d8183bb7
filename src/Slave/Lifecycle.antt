-- ===== src/Slave/Lifecycle.antt =====
-- src/slave.rs: the state of `ModbusSlave`, and the calls of its user. The physical layer below is an
-- interface; the models `M` and the custom function codes `F` are the user's.
pub mod Waiting
pub mod Quiet
pub mod Reopened
use rs_modbus.Prelude.{
  ℕ, ◌+◌, ◌≡◌, Option, none, some, Bool, true, false, ◌||◌, ◌&&◌, List, [], ◌∷◌, if◌then◌else◌,
  ◌==◌, Result, ok, err,
}
use rs_modbus.Prelude.HashMap.{HashMap, lookup, insert, remove, nat_eq}
use rs_modbus.Errors.{ModbusError}
use rs_modbus.Types.{ConnectionId}
use rs_modbus.Slave.Queues.{Item, Queues, Server, enqueue_and_drain}
use rs_modbus.Slave.AddressLock.{Locks}

-- What a server uses of `trait PhysicalLayer`.
pub record PhysicalLayer (P : Type 0) : Type 0 where
  pub open_port : P → Result ModbusError (Unit {0}) × P
  pub close : P → Result ModbusError (Unit {0}) × P
  pub destroy : P → P
  pub is_destroyed : P → Bool

-- `framing_tasks` has, for each task that listens for frames, the function codes it was started with;
-- `pending` has the frames whose task has found the server open and waits for the lock of the queues.
pub record ModbusSlave (M F P : Type 0) : Type 0 where
  pub models : HashMap ℕ M
  pub custom_function_codes : HashMap ℕ F
  pub is_open : Bool
  pub clean_level : ℕ
  pub server : Server
  pub address_locks : Locks
  pub framing_tasks : List (HashMap ℕ F)
  pub pending : List (ConnectionId × Item)
  pub physical : P

module _ {M F P : Type 0} where
  abbrev pub with_options : P → ModbusSlave M F P
  with_options physical = record {
    models = [];
    custom_function_codes = [];
    is_open = false;
    clean_level = 0;
    server = record { queues = []; tasks = [] };
    address_locks = record { address_locks = []; next_serial = 0; calls = []; leaving = [] };
    framing_tasks = [];
    pending = [];
    physical = physical;
  }

  unfoldable pub add : ℕ → M → ModbusSlave M F P → ModbusSlave M F P
  add unit model s = record s { models = insert unit model s.models }

  unfoldable pub remove_unit : ℕ → ModbusSlave M F P → ModbusSlave M F P
  remove_unit unit s = record s { models = remove unit s.models }

  unfoldable pub add_custom_function_code : ℕ → F → ModbusSlave M F P → ModbusSlave M F P
  add_custom_function_code fc cfc s = record s {
    custom_function_codes = insert fc cfc s.custom_function_codes;
  }

  unfoldable pub remove_custom_function_code : ℕ → ModbusSlave M F P → ModbusSlave M F P
  remove_custom_function_code fc s = record s {
    custom_function_codes = remove fc s.custom_function_codes;
  }

  -- What `clean` does behind its two early returns, between its awaits.
  unfoldable pub shut_down : ModbusSlave M F P → ModbusSlave M F P
  shut_down s = record s { is_open = false }

  abbrev pub clear_queues : ModbusSlave M F P → ModbusSlave M F P
  clear_queues s = record s { server = record { queues = []; tasks = s.server.tasks } }

  unfoldable pub clear_locks : ModbusSlave M F P → ModbusSlave M F P
  clear_locks s = record s { address_locks = record s.address_locks { address_locks = [] } }

  unfoldable pub set_level : ℕ → ModbusSlave M F P → ModbusSlave M F P
  set_level level s = record s {
    models = if level == 2 then [] else s.models;
    custom_function_codes = if level == 2 then [] else s.custom_function_codes;
    clean_level = level;
  }

  unfoldable pub cleaned : ℕ → ModbusSlave M F P → ModbusSlave M F P
  unfolding shut_down clear_locks set_level
  cleaned level s = set_level level (clear_locks (clear_queues (shut_down s)))

  unfoldable pub clean : ℕ → ModbusSlave M F P → ModbusSlave M F P
  unfolding cleaned
  clean level s =
      if s.clean_level == 2
      then s
      else if s.clean_level == 1 && level == 1
      then s
      else cleaned level s

  -- The two steps of a listening task for a frame, where the server is not concurrent: it tests
  -- `is_open`, and behind the lock of the queues it queues the frame; `others` are still pending.
  unfoldable pub load_open : ConnectionId → Item → ModbusSlave M F P → ModbusSlave M F P
  load_open connection item s =
      if s.is_open then record s { pending = (connection, item) ∷ s.pending } else s

  unfoldable pub push_frame :
      ConnectionId → Item → List (ConnectionId × Item) → ModbusSlave M F P → ModbusSlave M F P
  push_frame connection item others s = record s {
    server = enqueue_and_drain connection item s.server;
    pending = others;
  }

  -- A frame is announced and every listening task makes its two steps, with no other step between.
  abbrev pub listen_each :
      List (HashMap ℕ F) → ConnectionId → Item → ModbusSlave M F P → ModbusSlave M F P
  listen_each [] connection item s = s
  listen_each (task ∷ tasks) connection item s =
      listen_each tasks connection item (
        if s.is_open then push_frame connection item s.pending (load_open connection item s) else s)

  unfoldable pub on_framing : ConnectionId → Item → ModbusSlave M F P → ModbusSlave M F P
  unfolding load_open push_frame
  on_framing connection item s = listen_each s.framing_tasks connection item s

  -- The listening tasks are aborted, wherever they stand.
  unfoldable pub abort_tasks : ModbusSlave M F P → ModbusSlave M F P
  abort_tasks s = record s { framing_tasks = []; pending = [] }

  module _ (physical : PhysicalLayer P) where
    unfoldable pub is_destroyed : ModbusSlave M F P → Bool
    is_destroyed s = s.clean_level == 2 || physical.is_destroyed s.physical

    -- The result and the state of a call.
    unfoldable pub open_slave :
        ModbusSlave M F P → Result ModbusError (Unit {0}) × ModbusSlave M F P
    open_slave s =
        let (result, p) = physical.open_port s.physical in
        (
          result,
          record (clear_queues s) {
            is_open = true;
            clean_level = 0;
            framing_tasks = s.custom_function_codes ∷ s.framing_tasks;
            physical = p;
          },
        )

    -- The rest of `close` and of `destroy`, behind their early return.
    unfoldable pub closing : ModbusSlave M F P → Result ModbusError (Unit {0}) × ModbusSlave M F P
    unfolding clean
    closing s =
        let (result, p) = physical.close s.physical in (result, record (clean 1 s) { physical = p })

    unfoldable pub destroying : ModbusSlave M F P → ModbusSlave M F P
    unfolding clean abort_tasks
    destroying s = record (abort_tasks (clean 2 s)) { physical = physical.destroy s.physical }

    unfoldable pub close : ModbusSlave M F P → Result ModbusError (Unit {0}) × ModbusSlave M F P
    unfolding closing
    close s = if s.clean_level == 2 then (ok tt, s) else closing s

    unfoldable pub destroy : ModbusSlave M F P → ModbusSlave M F P
    unfolding destroying
    destroy s = if s.clean_level == 2 then s else destroying s
