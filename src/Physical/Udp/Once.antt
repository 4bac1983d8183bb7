-- ===== src/Physical/Udp/Once.antt =====
-- src/layers/physical/udp.rs: the numbers of close events.
use rs_modbus.Prelude.{
  ℕ, ◌+◌, ◌≤◌, ◌≡◌, refl, ap, arith, Option, none, some, Bool, true, false, ◌||◌, List, ◌∷◌, ◌==◌,
  length,
}
use rs_modbus.Prelude.HashMap.{lookup, insert, remove, lookup-insert_self}
use rs_modbus.Types.{ConnectionId}
use rs_modbus.Physical.Tasks.{continue_with, Taken, length-Taken, count, count-append}
use rs_modbus.Physical.Udp.{
  set_local_addr, SocketAddr, addr_eq, RemoteEntry, RecvPhase, receiving, broken, leaving, RecvTask,
  Opening, entering, guarded, marked, bound, stored, emptied, placed, shown, spawned, Closing,
  aborting, unbinding, draining, UdpPhysicalLayer, IdleTimer, or_new_entry, arm_idle, ensure_entry,
  receive_from, accepts, evicted, expire, conns, drain_connections,
}
use rs_modbus.Physical.Udp.Steps.{
  Datagram, datagram, failure, open_step, recv_step, leave_loop, begin_close, close_step, Step,
  open_begins, opens, receives, expires, close_begins, closes, addressed, destroys, Reachable,
  initial, next,
}
use rs_modbus.Physical.Udp.Counts.{
  count-remove, count-lookup, as_number, leaving_task, leavings, leavings-Taken,
  leavings-abort_recv,
}
use rs_modbus.Physical.Udp.Peers.{recv_tasks-receive_from}

abbrev places : ConnectionId → UdpPhysicalLayer → ℕ
places c s = count c s.connection_closes + count c (conns s.connections)

-- A connection is in the map, or its close was announced, once; and each close of the layer goes back
-- to an `open`.
pub record IsOnce (s : UdpPhysicalLayer) : Type 0 where
  pub once : (c : ConnectionId) → places c s ≤ 1
  pub fresh : (c : ConnectionId) → s.next_id ≤ c → places c s ≡ 0
  pub gated : s.closes + length s.closing + leavings s.recv_tasks + as_number s.is_open ≤ s.opened

arm_idle-IsOnce :
    (rinfo : SocketAddr) (e : RemoteEntry) (s : UdpPhysicalLayer)
    → lookup rinfo s.connections ≡ some e
    → IsOnce s
    → IsOnce (arm_idle rinfo e s)
unfolding arm_idle insert count
arm_idle-IsOnce rinfo e s found h = record {
  once = λ c. ground (
    arith,
    h.once c,
    count-lookup rinfo e s.connections found,
    count-remove c rinfo s.connections,
  );
  fresh = λ c n. ground (
    arith,
    n,
    h.fresh c,
    count-lookup rinfo e s.connections found,
    count-remove c rinfo s.connections,
  );
  gated = ground (arith, h.gated);
}

or_new_entry-IsOnce :
    (rinfo : SocketAddr) (s : UdpPhysicalLayer)
    → IsOnce s
    → IsOnce (record s {
      next_id = s.next_id + 1;
      connections = insert rinfo (record { conn = s.next_id; idle_timer = none }) s.connections;
    })
unfolding insert count
or_new_entry-IsOnce rinfo s h = record {
  once = λ c. ground (arith, h.once c, h.fresh c, count-remove c rinfo s.connections);
  fresh = λ c n. ground (arith, h.fresh c, n, count-remove c rinfo s.connections);
  gated = h.gated;
}

ensure_entry-IsOnce :
    (rinfo : SocketAddr) (s : UdpPhysicalLayer) → IsOnce s → IsOnce (ensure_entry rinfo s).1
unfolding ensure_entry or_new_entry
ensure_entry-IsOnce rinfo s h = by_entry (lookup rinfo s.connections) refl
  where
    by_entry :
        (o : Option RemoteEntry)
        → lookup rinfo s.connections ≡ o
        → IsOnce (arm_idle rinfo (or_new_entry rinfo o s).0 (or_new_entry rinfo o s).1)
    by_entry (some e) found = arm_idle-IsOnce rinfo e s found h
    by_entry none absent =
        arm_idle-IsOnce rinfo (record { conn = s.next_id; idle_timer = none })
          (record s {
            next_id = s.next_id + 1;
            connections =
                insert rinfo (record { conn = s.next_id; idle_timer = none }) s.connections;
          })
          (lookup-insert_self rinfo (record { conn = s.next_id; idle_timer = none }) s.connections)
          (or_new_entry-IsOnce rinfo s h)

receive_from-IsOnce :
    (filter : Option SocketAddr) (rinfo : SocketAddr) (s : UdpPhysicalLayer)
    → IsOnce s
    → IsOnce (receive_from filter rinfo s)
unfolding receive_from
receive_from-IsOnce filter rinfo s h = by_accepts (accepts filter rinfo) refl
  where
    by_accepts : (b : Bool) → accepts filter rinfo ≡ b → IsOnce (receive_from filter rinfo s)
    by_accepts false e = rw e h
    by_accepts true e =
        let h' = ensure_entry-IsOnce rinfo s h in
        rw e (record { once = h'.once; fresh = h'.fresh; gated = h'.gated })

expire-IsOnce : (t : IdleTimer) (s : UdpPhysicalLayer) → IsOnce s → IsOnce (expire t s)
unfolding expire evicted count
expire-IsOnce t s h = by_entry (lookup t.addr s.connections) refl
  where
    removed :
        (e : RemoteEntry)
        → lookup t.addr s.connections ≡ some e
        → (e.conn == t.conn) ≡ true
        → IsOnce (record s {
          connections = remove t.addr s.connections;
          connection_closes = t.conn ∷ s.connection_closes;
        })
    removed e found same = record {
      once = λ c. ground (
        arith,
        h.once c,
        same,
        count-lookup t.addr e s.connections found,
        count-remove c t.addr s.connections,
      );
      fresh = λ c n. ground (
        arith,
        h.fresh c n,
        same,
        count-lookup t.addr e s.connections found,
        count-remove c t.addr s.connections,
      );
      gated = h.gated;
    }

    by_entry : (o : Option RemoteEntry) → lookup t.addr s.connections ≡ o → IsOnce (evicted t o s)
    by_entry none absent = h
    by_entry (some e) found = by_conn (e.conn == t.conn) refl
      where
        by_conn : (b : Bool) → (e.conn == t.conn) ≡ b → IsOnce (evicted t (some e) s)
        by_conn true same = rw same (removed e found same)
        by_conn false other = rw other h

drain-once : (c : ConnectionId) (s : UdpPhysicalLayer) → places c (drain_connections s) ≡ places c s
unfolding drain_connections count
drain-once c s = omega (arith, count-append c (conns s.connections) s.connection_closes)

drain_connections-IsOnce :
    (s : UdpPhysicalLayer)
    → ((c : ConnectionId) → places c s ≤ 1)
    → ((c : ConnectionId) → s.next_id ≤ c → places c s ≡ 0)
    → 1 + (s.closes + length s.closing + leavings s.recv_tasks + as_number s.is_open) ≤ s.opened
    → IsOnce (drain_connections s)
unfolding drain_connections
drain_connections-IsOnce s once fresh gated = record {
  once = λ c. omega (arith, once c, drain-once c s);
  fresh = λ c n. omega (arith, fresh c n, drain-once c s);
  gated = omega (arith, gated);
}

open_step-IsOnce :
    (binds : Bool) (o : Opening) (others : List Opening) (s : UdpPhysicalLayer)
    → IsOnce s
    → IsOnce
        (record (open_step binds o s).0 { opening = continue_with (open_step binds o s).1 others })
unfolding open_step count
open_step-IsOnce binds entering others s h = by_guard (s.is_open || s.is_opening) refl
  where
    by_guard :
        (b : Bool)
        → (s.is_open || s.is_opening) ≡ b
        → IsOnce (record (open_step binds entering s).0 {
          opening = continue_with (open_step binds entering s).1 others;
        })
    by_guard true e = rw e (record { once = h.once; fresh = h.fresh; gated = h.gated })
    by_guard false e = rw e (record { once = h.once; fresh = h.fresh; gated = h.gated })
open_step-IsOnce binds guarded others s h = record {
  once = h.once;
  fresh = h.fresh;
  gated = h.gated;
}
open_step-IsOnce true marked others s h = record { once = h.once; fresh = h.fresh; gated = h.gated }
open_step-IsOnce false marked others s h = record {
  once = h.once;
  fresh = h.fresh;
  gated = h.gated;
}
open_step-IsOnce binds bound others s h = record { once = h.once; fresh = h.fresh; gated = h.gated }
open_step-IsOnce binds stored others s h = record {
  once = λ c. omega (arith, h.once c);
  fresh = λ c n. omega (arith, h.fresh c n);
  gated = h.gated;
}
open_step-IsOnce binds emptied others s h = record {
  once = h.once;
  fresh = h.fresh;
  gated = omega (arith, h.gated);
}
open_step-IsOnce binds (spawned t) others s h = record {
  once = h.once;
  fresh = h.fresh;
  gated = h.gated;
}
open_step-IsOnce binds placed others s h = record {
  once = h.once;
  fresh = h.fresh;
  gated = ground (arith, h.gated);
}
open_step-IsOnce binds shown others s h = record { once = h.once; fresh = h.fresh; gated = h.gated }

-- The task is `t`, and those of `others` are the rest.
recv_step-IsOnce :
    (p : RecvPhase) (d : Datagram) (t : RecvTask) (others : List RecvTask) (s : UdpPhysicalLayer)
    → t.phase ≡ p
    → Taken t s.recv_tasks others
    → IsOnce s
    → IsOnce
        (record (recv_step p d t s).0 { recv_tasks = continue_with (recv_step p d t s).1 others })
unfolding recv_step leave_loop
recv_step-IsOnce receiving (datagram rinfo) t others s e taken h =
    let h' = receive_from-IsOnce t.remote_filter rinfo s h in
    record {
      once = h'.once;
      fresh = h'.fresh;
      gated = omega (
        arith,
        h'.gated,
        ap leavings (recv_tasks-receive_from t.remote_filter rinfo s),
        leavings-Taken t s.recv_tasks others taken,
      );
    }
recv_step-IsOnce receiving failure t others s e taken h = record {
  once = h.once;
  fresh = h.fresh;
  gated = omega (arith, h.gated, leavings-Taken t s.recv_tasks others taken);
}
recv_step-IsOnce broken d t others s e taken h = by_open s.is_open refl
  where
    by_open :
        (b : Bool)
        → s.is_open ≡ b
        → IsOnce (record (recv_step broken d t s).0 {
          recv_tasks = continue_with (recv_step broken d t s).1 others;
        })
    by_open true o = rw o record {
      once = h.once;
      fresh = h.fresh;
      gated = omega (arith, h.gated, ap as_number o, leavings-Taken t s.recv_tasks others taken);
    }
    by_open false o = rw o record {
      once = h.once;
      fresh = h.fresh;
      gated = omega (arith, h.gated, ap as_number o, leavings-Taken t s.recv_tasks others taken);
    }
recv_step-IsOnce leaving d t others s e taken h =
    drain_connections-IsOnce (record s { recv_tasks = others }) h.once h.fresh
      (omega (arith, h.gated, leavings-Taken t s.recv_tasks others taken, ap leaving_task e))

begin_close-IsOnce : (s : UdpPhysicalLayer) → IsOnce s → IsOnce (begin_close s)
unfolding begin_close
begin_close-IsOnce s h = by_open s.is_open refl
  where
    by_open : (b : Bool) → s.is_open ≡ b → IsOnce (begin_close s)
    by_open true o =
        rw o
          record { once = h.once; fresh = h.fresh; gated = omega (arith, h.gated, ap as_number o) }
    by_open false o =
        rw o
          record { once = h.once; fresh = h.fresh; gated = omega (arith, h.gated, ap as_number o) }

close_step-IsOnce :
    (c : Closing) (others : List Closing) (s : UdpPhysicalLayer)
    → Taken c s.closing others
    → IsOnce s
    → IsOnce (record (close_step c s).0 { closing = continue_with (close_step c s).1 others })
unfolding close_step
close_step-IsOnce aborting others s taken h = record {
  once = h.once;
  fresh = h.fresh;
  gated = omega (
    arith,
    h.gated,
    length-Taken aborting s.closing others taken,
    leavings-abort_recv s.recv_task s.recv_tasks,
  );
}
close_step-IsOnce unbinding others s taken h = record {
  once = h.once;
  fresh = h.fresh;
  gated = omega (arith, h.gated, length-Taken unbinding s.closing others taken);
}
close_step-IsOnce draining others s taken h =
    drain_connections-IsOnce (record s { closing = others }) h.once h.fresh
      (omega (arith, h.gated, length-Taken draining s.closing others taken))

Step-IsOnce : (s s' : UdpPhysicalLayer) → Step s s' → IsOnce s → IsOnce s'
unfolding set_local_addr
Step-IsOnce s s' (open_begins e) h = record { once = h.once; fresh = h.fresh; gated = h.gated }
Step-IsOnce s s' (opens binds o others taken) h = open_step-IsOnce binds o others s h
Step-IsOnce s s' (receives d t others taken) h = recv_step-IsOnce t.phase d t others s refl taken h
Step-IsOnce s s' (expires t others taken) h =
    expire-IsOnce t (record s { timers = others })
      (record { once = h.once; fresh = h.fresh; gated = h.gated })
Step-IsOnce s s' close_begins h = begin_close-IsOnce s h
Step-IsOnce s s' (closes c others taken) h = close_step-IsOnce c others s taken h
Step-IsOnce s s' (addressed text) h = record { once = h.once; fresh = h.fresh; gated = h.gated }
Step-IsOnce s s' destroys h = record { once = h.once; fresh = h.fresh; gated = h.gated }

pub Reachable-IsOnce : (s : UdpPhysicalLayer) → Reachable s → IsOnce s
unfolding count
Reachable-IsOnce s (initial is_server remote idle) = record {
  once = λ c. omega arith;
  fresh = λ c n. omega arith;
  gated = omega arith;
}
Reachable-IsOnce s (next s0 s1 r st) = Step-IsOnce s0 s st (Reachable-IsOnce s0 r)
