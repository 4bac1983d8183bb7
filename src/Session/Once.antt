-- ===== src/Session/Once.antt =====
-- src/master_session.rs: no receiver is resolved twice.
use rs_modbus.Prelude.{ℕ, ◌+◌, ◌≤◌, ◌≡◌, refl, arith, List, [], ◌∷◌, ◌++◌}
use rs_modbus.Prelude.{◌==◌, if◌then◌else◌}
use rs_modbus.Prelude.HashMap.{HashMap, lookup, insert, remove}
use rs_modbus.Errors.{ModbusError}
use rs_modbus.Types.{Framing}
use rs_modbus.Session.{
  PreCheck, WaiterKey, key_eq, WaitingState, MasterSession, Message, new_session,
}
use rs_modbus.Session.{
  start, stop, stop_all, reject_each, handle_frame, handle_error, resolve, key_of,
}

-- The calls that a master makes.
pub data Step : MasterSession → MasterSession → Type 0 where
  starts :
      (key : WaiterKey) (checks : List PreCheck) {s : MasterSession} → Step s (start key checks s)
  stops : (key : WaiterKey) {s : MasterSession} → Step s (stop key s)
  stops_all : (e : ModbusError) {s : MasterSession} → Step s (stop_all e s)
  frames : (frame : Framing) {s : MasterSession} → Step s (handle_frame frame s)
  errors : (e : ModbusError) {s : MasterSession} → Step s (handle_error e s)

pub data Reachable : MasterSession → Type 0 where
  initial : Reachable new_session
  step : {s t : MasterSession} → Reachable s → Step s t → Reachable t

-- How often a channel has been sent to, and how many waiters hold its sender.
unfoldable pub times : ℕ → List Message → ℕ
times c [] = 0
times c (m ∷ ms) = (if m.0 == c then 1 else 0) + times c ms

unfoldable pub held : ℕ → HashMap WaiterKey WaitingState → ℕ
held c [] = 0
held c ((key, w) ∷ rest) = (if w.sender == c then 1 else 0) + held c rest

times-append : (c : ℕ) (xs ys : List Message) → times c (xs ++ ys) ≡ times c xs + times c ys
unfolding times
times-append c [] ys = omega arith
times-append c (x ∷ xs) ys = ground (arith, times-append c xs ys)

held-remove :
    (c : ℕ) (k : WaiterKey) (m : HashMap WaiterKey WaitingState) → held c (remove k m) ≤ held c m
unfolding held remove
held-remove c k [] = omega arith
held-remove c k ((key, w) ∷ m) = ground (arith, held-remove c k m)

-- A resolved waiter's sender is no longer held.
times-resolve :
    (c : ℕ) (frame : Framing) (k : WaiterKey) (m : HashMap WaiterKey WaitingState)
    → times c (resolve frame (lookup k m)) + held c (remove k m) ≤ held c m
unfolding times held remove lookup resolve
times-resolve c frame k [] = omega arith
times-resolve c frame k ((key, w) ∷ m) =
    ground (arith, times-resolve c frame k m, held-remove c k m)

times-reject_each :
    (c : ℕ) (e : ModbusError) (m : HashMap WaiterKey WaitingState)
    → times c (reject_each e m) ≡ held c m
unfolding times held reject_each
times-reject_each c e [] = refl
times-reject_each c e ((key, w) ∷ m) = ground (arith, times-reject_each c e m)

-- A channel is sent to, or held, at most once; a channel that is not made yet, never.
IsFresh : MasterSession → Type 0
IsFresh s =
    (c : ℕ)
    → (times c s.sent + held c s.waiters ≤ 1)
      × (s.next_channel ≤ c → times c s.sent + held c s.waiters ≡ 0)

Step-IsFresh : {s t : MasterSession} → Step s t → IsFresh s → IsFresh t
unfolding IsFresh start stop stop_all handle_frame handle_error held insert
Step-IsFresh (starts key checks {s}) h c = ground (arith, h c, held-remove c key s.waiters)
Step-IsFresh (stops key {s}) h c = ground (arith, h c, held-remove c key s.waiters)
Step-IsFresh (stops_all e {s}) h c =
    ground
      (arith, h c, times-append c s.sent (reject_each e s.waiters), times-reject_each c e s.waiters)
Step-IsFresh (frames frame {s}) h c = ground (
  arith,
  h c,
  times-append c s.sent (resolve frame (lookup (key_of frame.adu.transaction) s.waiters)),
  times-resolve c frame (key_of frame.adu.transaction) s.waiters,
)
Step-IsFresh (errors e {s}) h c =
    ground
      (arith, h c, times-append c s.sent (reject_each e s.waiters), times-reject_each c e s.waiters)

Reachable-IsFresh : {s : MasterSession} → Reachable s → IsFresh s
unfolding IsFresh times held
Reachable-IsFresh initial = λ c. ground arith
Reachable-IsFresh (step r t) = Step-IsFresh t (Reachable-IsFresh r)

-- In every session that calls of `start`, `stop`, `stop_all`, `handle_frame` and `handle_error` lead
-- to, each channel has been sent to at most once, and if it has, then no waiter holds its sender.
pub Reachable-once :
    (s : MasterSession) → Reachable s → (c : ℕ) → times c s.sent + held c s.waiters ≤ 1
unfolding IsFresh
Reachable-once s r c = (Reachable-IsFresh r c).0
