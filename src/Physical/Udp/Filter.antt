-- ===== src/Physical/Udp/Filter.antt =====
-- src/layers/physical/udp.rs: the receiving tasks filter the datagrams of a client.
use rs_modbus.Prelude.{
  ℕ, ◌+◌, ◌≤◌, ◌≡◌, refl, ap, arith, Option, none, some, Bool, true, false, List, [], ◌∷◌, inl, inr,
  All, if◌then◌else◌,
}
use rs_modbus.Types.{ConnectionId}
use rs_modbus.Physical.Udp.{
  addr_eq, Received, SocketAddr, UdpPhysicalLayer, receive_from, accepts, set_local_addr, filter_of,
  conns, RemoteEntry,
}
use rs_modbus.Prelude.HashMap.{lookup}
use rs_modbus.Physical.Tasks.{continue_with, count}
use rs_modbus.Physical.Udp.Peers.{receive_from-received, filter_of-receive_from}
use rs_modbus.Physical.Udp.Allowed.{IsAllowed, All-IsAllowed}
use rs_modbus.Physical.Udp.Once.{Reachable-IsOnce}
use rs_modbus.Prelude.{subst, sym, ◌∙◌, ◌==◌, ◌||◌}
use rs_modbus.Physical.Tasks.{Taken, All-Taken}
use rs_modbus.Physical.Udp.{
  RecvPhase, receiving, broken, leaving, RecvTask, Opening, entering, guarded, marked, bound,
  stored, emptied, placed, shown, spawned, Closing, aborting, unbinding, draining, IdleTimer,
  abort_recv, evicted, expire, drain_connections,
}
use rs_modbus.Physical.Udp.Steps.{
  Datagram, datagram, failure, open_step, recv_step, leave_loop, begin_close, close_step, Step,
  open_begins, opens, receives, expires, close_begins, closes, addressed, destroys, Reachable,
  initial, next,
}

-- Every receiving task filters by the layer's remote address, and every datagram that was passed on
-- has come through this filter.
pub record IsFiltered (s : UdpPhysicalLayer) : Type 0 where
  pub tasks : All (λ t. t.remote_filter ≡ filter_of s) s.recv_tasks
  pub events : All (λ d. accepts (filter_of s) d.addr ≡ true) s.received

passed :
    {f g : Option SocketAddr} {ds es : List Received}
    → f ≡ g
    → ds ≡ es
    → All (λ d. accepts g d.addr ≡ true) es
    → All (λ d. accepts f d.addr ≡ true) ds
passed {f} {g} {ds} {es} same more h =
    subst (λ xs. All (λ d. accepts f d.addr ≡ true) xs) (sym more)
      (subst (λ k. All (λ d. accepts k d.addr ≡ true) es) (sym same) h)

All-abort_recv :
    (f : Option SocketAddr) (h : Option ℕ) (ts : List RecvTask)
    → All (λ t. t.remote_filter ≡ f) ts
    → All (λ t. t.remote_filter ≡ f) (abort_recv h ts)
All-abort_recv f none ts all = all
All-abort_recv f (some h) [] all = tt
All-abort_recv f (some h) (t ∷ ts) (p, all) =
    by_handle (t.handle == h) (All-abort_recv f (some h) ts all)
  where
    by_handle :
        (b : Bool)
        → All (λ t. t.remote_filter ≡ f) (abort_recv (some h) ts)
        → All
            (λ t. t.remote_filter ≡ f)
            (if b then abort_recv (some h) ts else t ∷ abort_recv (some h) ts)
    by_handle true rest = rest
    by_handle false rest = (p, rest)

open_step-IsFiltered :
    (binds : Bool) (o : Opening) (others : List Opening) (s : UdpPhysicalLayer)
    → IsFiltered s
    → IsFiltered
        (record (open_step binds o s).0 { opening = continue_with (open_step binds o s).1 others })
unfolding open_step
open_step-IsFiltered binds entering others s h = by_guard (s.is_open || s.is_opening) refl
  where
    by_guard :
        (b : Bool)
        → (s.is_open || s.is_opening) ≡ b
        → IsFiltered (record (open_step binds entering s).0 {
          opening = continue_with (open_step binds entering s).1 others;
        })
    by_guard true e = rw e (record { tasks = h.tasks; events = h.events })
    by_guard false e = rw e (record { tasks = h.tasks; events = h.events })
open_step-IsFiltered binds guarded others s h = record { tasks = h.tasks; events = h.events }
open_step-IsFiltered true marked others s h = record { tasks = h.tasks; events = h.events }
open_step-IsFiltered false marked others s h = record { tasks = h.tasks; events = h.events }
open_step-IsFiltered binds bound others s h = record { tasks = h.tasks; events = h.events }
open_step-IsFiltered binds stored others s h = record { tasks = h.tasks; events = h.events }
open_step-IsFiltered binds emptied others s h = record {
  tasks = (refl, h.tasks);
  events = h.events;
}
open_step-IsFiltered binds (spawned t) others s h = record { tasks = h.tasks; events = h.events }
open_step-IsFiltered binds placed others s h = record { tasks = h.tasks; events = h.events }
open_step-IsFiltered binds shown others s h = record { tasks = h.tasks; events = h.events }

receive_from-IsFiltered :
    (t : RecvTask) (rinfo : SocketAddr) (others : List RecvTask) (s : UdpPhysicalLayer)
    → t.remote_filter ≡ filter_of s
    → All (λ t. t.remote_filter ≡ filter_of s) others
    → IsFiltered s
    → IsFiltered (record (receive_from t.remote_filter rinfo s) { recv_tasks = t ∷ others })
receive_from-IsFiltered t rinfo others s p ps h = record {
  tasks = subst (λ f. All (λ u. u.remote_filter ≡ f) (t ∷ others)) (sym same) (p, ps);
  events = elim (receive_from-received t.remote_filter rinfo s) [
    | inl unchanged ↦ passed same unchanged h.events
    | inr (accepted, passed_on) ↦
        passed same passed_on (ap (λ f. accepts f rinfo) (sym p) ∙ accepted, h.events)
  ];
}
  where
    same : filter_of (receive_from t.remote_filter rinfo s) ≡ filter_of s
    same = filter_of-receive_from t.remote_filter rinfo s

recv_step-IsFiltered :
    (p : RecvPhase) (d : Datagram) (t : RecvTask) (others : List RecvTask) (s : UdpPhysicalLayer)
    → Taken t s.recv_tasks others
    → IsFiltered s
    → IsFiltered
        (record (recv_step p d t s).0 { recv_tasks = continue_with (recv_step p d t s).1 others })
unfolding recv_step leave_loop drain_connections
recv_step-IsFiltered p d t others s taken h =
    let (mine, theirs) =
      All-Taken (λ t. t.remote_filter ≡ filter_of s) t s.recv_tasks others taken h.tasks in
    by_phase p d mine theirs
  where
    by_open :
        (d : Datagram) (b : Bool)
        → s.is_open ≡ b
        → t.remote_filter ≡ filter_of s
        → All (λ t. t.remote_filter ≡ filter_of s) others
        → IsFiltered (record (recv_step broken d t s).0 {
          recv_tasks = continue_with (recv_step broken d t s).1 others;
        })
    by_open d true o mine theirs = rw o (record { tasks = (mine, theirs); events = h.events })
    by_open d false o mine theirs = rw o (record { tasks = theirs; events = h.events })

    by_phase :
        (p : RecvPhase) (d : Datagram)
        → t.remote_filter ≡ filter_of s
        → All (λ t. t.remote_filter ≡ filter_of s) others
        → IsFiltered (record (recv_step p d t s).0 {
          recv_tasks = continue_with (recv_step p d t s).1 others;
        })
    by_phase receiving (datagram rinfo) mine theirs =
        receive_from-IsFiltered t rinfo others s mine theirs h
    by_phase receiving failure mine theirs = record { tasks = (mine, theirs); events = h.events }
    by_phase broken d mine theirs = by_open d s.is_open refl mine theirs
    by_phase leaving d mine theirs = record { tasks = theirs; events = h.events }

filter_of-expire :
    (t : IdleTimer) (o : Option RemoteEntry) (s : UdpPhysicalLayer)
    → IsFiltered s
    → IsFiltered (evicted t o s)
unfolding evicted
filter_of-expire t none s h = h
filter_of-expire t (some e) s h = by_conn (e.conn == t.conn) refl
  where
    by_conn : (b : Bool) → (e.conn == t.conn) ≡ b → IsFiltered (evicted t (some e) s)
    by_conn true same = rw same (record { tasks = h.tasks; events = h.events })
    by_conn false other = rw other h

begin_close-IsFiltered : (s : UdpPhysicalLayer) → IsFiltered s → IsFiltered (begin_close s)
unfolding begin_close
begin_close-IsFiltered s h = by_open s.is_open refl
  where
    by_open : (b : Bool) → s.is_open ≡ b → IsFiltered (begin_close s)
    by_open true o = rw o (record { tasks = h.tasks; events = h.events })
    by_open false o = rw o (record { tasks = h.tasks; events = h.events })

close_step-IsFiltered :
    (c : Closing) (others : List Closing) (s : UdpPhysicalLayer)
    → IsFiltered s
    → IsFiltered (record (close_step c s).0 { closing = continue_with (close_step c s).1 others })
unfolding close_step drain_connections
close_step-IsFiltered aborting others s h = record {
  tasks = All-abort_recv (filter_of s) s.recv_task s.recv_tasks h.tasks;
  events = h.events;
}
close_step-IsFiltered unbinding others s h = record { tasks = h.tasks; events = h.events }
close_step-IsFiltered draining others s h = record { tasks = h.tasks; events = h.events }

Step-IsFiltered : (s s' : UdpPhysicalLayer) → Step s s' → IsFiltered s → IsFiltered s'
unfolding expire set_local_addr
Step-IsFiltered s s' (open_begins e) h = record { tasks = h.tasks; events = h.events }
Step-IsFiltered s s' (opens binds o others taken) h = open_step-IsFiltered binds o others s h
Step-IsFiltered s s' (receives d t others taken) h =
    recv_step-IsFiltered t.phase d t others s taken h
Step-IsFiltered s s' (expires t others taken) h =
    filter_of-expire t (lookup t.addr s.connections) (record s { timers = others })
      (record { tasks = h.tasks; events = h.events })
Step-IsFiltered s s' close_begins h = begin_close-IsFiltered s h
Step-IsFiltered s s' (closes c others taken) h = close_step-IsFiltered c others s h
Step-IsFiltered s s' (addressed text) h = record { tasks = h.tasks; events = h.events }
Step-IsFiltered s s' destroys h = record { tasks = h.tasks; events = h.events }

Reachable-IsFiltered : (s : UdpPhysicalLayer) → Reachable s → IsFiltered s
Reachable-IsFiltered s (initial is_server remote idle) = record { tasks = tt; events = tt }
Reachable-IsFiltered s (next s0 s1 r st) = Step-IsFiltered s0 s st (Reachable-IsFiltered s0 r)

-- However the calls of the user, the receiving tasks and the idle timers interleave, the close of
-- each peer's connection is announced at most once, and never while the peer is in the map; the
-- close of the layer is announced at most once for each `open` that succeeded; and a client whose
-- remote address is known passes on the datagrams of that address only: of its port, and of its IP
-- unless that is 0.0.0.0 or ::.
pub Reachable-received :
    (s : UdpPhysicalLayer)
    → Reachable s
    → ((c : ConnectionId) → count c s.connection_closes + count c (conns s.connections) ≤ 1)
      × (s.closes ≤ s.opened)
      × All (λ d. IsAllowed s.is_server s.remote_addr d.addr) s.received
Reachable-received s r =
    let h = Reachable-IsOnce s r in
    (h.once, omega (arith, h.gated), All-IsAllowed s s.received (Reachable-IsFiltered s r).events)
