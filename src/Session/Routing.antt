-- ===== src/Session/Routing.antt =====
-- src/master_session.rs: a frame reaches the waiter of its transaction, and no other.
use rs_modbus.Prelude.{
  ◌≡◌, refl, ap, ◌∙◌, arith, Option, none, some, Bool, true, false, List, [], ◌∷◌, ◌++◌,
}
use rs_modbus.Prelude.{if◌then◌else◌}
use rs_modbus.Prelude.HashMap.{
  HashMap, lookup, insert, remove, lookup-insert, lookup-insert_self, lookup-remove,
}
use rs_modbus.Types.{Framing}
use rs_modbus.Session.{
  PreCheck, WaiterKey, same_key_iff, key_eq, same_key, WaitingState, MasterSession,
}
use rs_modbus.Session.{start, handle_frame, resolve, key_of, verdict, run_pre_checks}

resolve-branch :
    (frame : Framing) (w : WaitingState) (b : Bool) (o : Option WaitingState)
    → resolve frame (if b then some w else o) ≡ (
        if b
        then (w.sender, verdict frame (run_pre_checks frame w.pre_check)) ∷ []
        else resolve frame o)
unfolding resolve
resolve-branch frame w true o = refl
resolve-branch frame w false o = refl

remains :
    (key k : WaiterKey) (w : WaitingState) (m : HashMap WaiterKey WaitingState)
    → lookup key (remove k (insert key w m)) ≡ (if same_key key k then none else some w)
remains key k w m = ground (
  arith,
  lookup-remove k key (insert key w m),
  lookup-insert_self key w m,
  same_key_iff key k,
  same_key_iff k key,
)

-- Arm a waiter, then let a frame come: with the waiter's key, the new channel gets one message, the
-- frame if it passes the checks and else their error. With another key, whoever waits under that
-- key is answered as if the new waiter were not there, and the new waiter stays armed.
pub handle_frame-start :
    (key : WaiterKey) (checks : List PreCheck) (frame : Framing) (s : MasterSession)
    → (handle_frame frame (start key checks s)).sent
        ≡ s.sent
          ++ (if same_key key (key_of frame.adu.transaction)
              then (s.next_channel, verdict frame (run_pre_checks frame checks)) ∷ []
              else resolve frame (lookup (key_of frame.adu.transaction) s.waiters))
      × (lookup key (handle_frame frame (start key checks s)).waiters ≡ (
          if same_key key (key_of frame.adu.transaction)
          then none
          else some (record { pre_check = checks; sender = s.next_channel })))
unfolding handle_frame start
handle_frame-start key checks frame s = (
  ap (λ w. s.sent ++ resolve frame w) (lookup-insert key (key_of frame.adu.transaction) _ s.waiters)
      ∙ ap (λ ms. s.sent ++ ms)
          (resolve-branch frame (record { pre_check = checks; sender = s.next_channel })
            (same_key key (key_of frame.adu.transaction)) _),
  remains key (key_of frame.adu.transaction) _ s.waiters,
)
