-- ===== src/Session.antt =====
-- src/master_session.rs: the waiters of a master. A oneshot channel is known by a number; what is
-- sent on the channels is kept in order.
pub mod Routing
pub mod Once
use rs_modbus.Prelude.{
  ℕ, suc, ◌+◌, ◌≡◌, refl, ◌↔◌, Option, none, some, Bool, true, false, List, [], ◌∷◌, ◌++◌,
}
use rs_modbus.Prelude.{Result, ok, err, length, ltb, ◌==◌, if◌then◌else◌, ==_iff, arith, not}
use rs_modbus.Prelude.HashMap.{HashMap, Eq, nat_eq, lookup, insert, remove, contains_key}
use rs_modbus.Errors.{ModbusError}
use rs_modbus.Types.{ApplicationDataUnit, Framing}

pub data PreCheckOutcome : Type 0 where
  pass : PreCheckOutcome
  need_length : ℕ → PreCheckOutcome
  fail : ModbusError → PreCheckOutcome
  insufficient_data : PreCheckOutcome

abbrev pub PreCheck : Type 0
PreCheck = Framing → PreCheckOutcome

pub data WaiterKey : Type 0 where
  tid : ℕ → WaiterKey
  fifo : WaiterKey

abbrev pub same_key : WaiterKey → WaiterKey → Bool
same_key (tid a) (tid b) = a == b
same_key (tid a) fifo = false
same_key fifo (tid b) = false
same_key fifo fifo = true

pub same_key_iff : (a b : WaiterKey) → (same_key a b ≡ true) ↔ (a ≡ b)
same_key_iff (tid a) (tid b) = ground (arith, ==_iff a b)
same_key_iff (tid a) fifo = ground arith
same_key_iff fifo (tid b) = ground arith
same_key_iff fifo fifo = ground arith

instance abbrev pub key_eq : Eq WaiterKey
key_eq = record { beq = same_key; beq_iff = same_key_iff }

pub record WaitingState : Type 0 where
  pub pre_check : List PreCheck
  pub sender : ℕ

-- A message on a channel.
abbrev pub Message : Type 0
Message = ℕ × Result ModbusError Framing

-- `next_channel` names the next channel that is made.
pub record MasterSession : Type 0 where
  pub waiters : HashMap WaiterKey WaitingState
  pub next_channel : ℕ
  pub sent : List Message

abbrev pub new_session : MasterSession
new_session = record { waiters = []; next_channel = 0; sent = [] }

-- The receiver of the new channel is `next_channel` before the call.
unfoldable pub start : WaiterKey → List PreCheck → MasterSession → MasterSession
start key pre_check s = record {
  waiters = insert key (record { pre_check = pre_check; sender = s.next_channel }) s.waiters;
  next_channel = s.next_channel + 1;
  sent = s.sent;
}

unfoldable pub stop : WaiterKey → MasterSession → MasterSession
stop key s = record s { waiters = remove key s.waiters }

-- The loop over the drained waiters.
unfoldable pub reject_each : ModbusError → HashMap WaiterKey WaitingState → List Message
reject_each e [] = []
reject_each e ((key, w) ∷ rest) = (w.sender, err e) ∷ reject_each e rest

unfoldable pub stop_all : ModbusError → MasterSession → MasterSession
unfolding reject_each
stop_all e s = record s { waiters = []; sent = s.sent ++ reject_each e s.waiters }

unfoldable pub has : WaiterKey → MasterSession → Bool
has key s = contains_key key s.waiters

pub data CheckResult : Type 0 where
  passed : CheckResult
  reject : ModbusError → CheckResult

unfoldable pub run_pre_checks : Framing → List PreCheck → CheckResult
run_pre_checks frame [] = passed
run_pre_checks frame (check ∷ checks) =
    let rest = run_pre_checks frame checks in
    elim (check frame) [
      | pass ↦ rest
      | need_length n ↦
          (if ltb (length frame.adu.payload) n
            then reject ModbusError.insufficient_data
            else if not (length frame.adu.payload == n)
            then reject ModbusError.invalid_response
            else rest)
      | fail e ↦ reject e
      | insufficient_data ↦ reject ModbusError.insufficient_data
    ]

abbrev pub key_of : Option ℕ → WaiterKey
key_of (some t) = tid t
key_of none = fifo

abbrev pub verdict : Framing → CheckResult → Result ModbusError Framing
verdict frame passed = ok frame
verdict frame (reject e) = err e

-- What is sent to the waiter that is found.
unfoldable pub resolve : Framing → Option WaitingState → List Message
unfolding run_pre_checks
resolve frame none = []
resolve frame (some w) = (w.sender, verdict frame (run_pre_checks frame w.pre_check)) ∷ []

unfoldable pub handle_frame : Framing → MasterSession → MasterSession
unfolding resolve
handle_frame frame s = record s {
  waiters = remove (key_of frame.adu.transaction) s.waiters;
  sent = s.sent ++ resolve frame (lookup (key_of frame.adu.transaction) s.waiters);
}

unfoldable pub handle_error : ModbusError → MasterSession → MasterSession
unfolding stop_all
handle_error e s = stop_all e s
