-- ===== src/Physical/Udp/Peers.antt =====
-- src/layers/physical/udp.rs: the peers whose datagrams are passed on.
use rs_modbus.Prelude.{
  ◌≡◌, refl, ap, arith, Option, none, some, Bool, true, false, ◌∷◌, ◌⊎◌, inl, inr,
}
use rs_modbus.Prelude.HashMap.{lookup}
use rs_modbus.Physical.Udp.{
  SocketAddr, addr_eq, RemoteEntry, UdpPhysicalLayer, or_new_entry, arm_idle, ensure_entry,
  receive_from, accepts, filter_of,
}

-- What a datagram leaves alone.
record IsFramed (s s' : UdpPhysicalLayer) : Type 0 where
  tasks_same : s'.recv_tasks ≡ s.recv_tasks
  received_same : s'.received ≡ s.received
  filter_same : filter_of s' ≡ filter_of s

or_new_entry-IsFramed :
    (rinfo : SocketAddr) (o : Option RemoteEntry) (s : UdpPhysicalLayer)
    → IsFramed s (or_new_entry rinfo o s).1
unfolding or_new_entry
or_new_entry-IsFramed rinfo none s = record {
  tasks_same = refl;
  received_same = refl;
  filter_same = refl;
}
or_new_entry-IsFramed rinfo (some e) s = record {
  tasks_same = refl;
  received_same = refl;
  filter_same = refl;
}

ensure_entry-IsFramed :
    (rinfo : SocketAddr) (s : UdpPhysicalLayer) → IsFramed s (ensure_entry rinfo s).1
unfolding ensure_entry arm_idle
ensure_entry-IsFramed rinfo s =
    let h = or_new_entry-IsFramed rinfo (lookup rinfo s.connections) s in
    record {
      tasks_same = ground (arith, h.tasks_same);
      received_same = ground (arith, h.received_same);
      filter_same = ground (arith, h.filter_same);
    }

-- An accepted datagram is passed on, and a refused one changes nothing.
pub receive_from-received :
    (filter : Option SocketAddr) (rinfo : SocketAddr) (s : UdpPhysicalLayer)
    → ((receive_from filter rinfo s).received ≡ s.received)
      ⊎ ((accepts filter rinfo ≡ true)
          × ((receive_from filter rinfo s).received
              ≡ record { addr = rinfo; connection = (ensure_entry rinfo s).0 } ∷ s.received))
unfolding receive_from
receive_from-received filter rinfo s = by_accepts (accepts filter rinfo) refl
  where
    by_accepts :
        (b : Bool)
        → accepts filter rinfo ≡ b
        → ((receive_from filter rinfo s).received ≡ s.received)
          ⊎ ((accepts filter rinfo ≡ true)
              × ((receive_from filter rinfo s).received
                  ≡ record { addr = rinfo; connection = (ensure_entry rinfo s).0 } ∷ s.received))
    by_accepts false e = inl (rw e refl)
    by_accepts true e = inr (
      e,
      rw e (
          ap (λ ds. record { addr = rinfo; connection = (ensure_entry rinfo s).0 } ∷ ds)
            (ensure_entry-IsFramed rinfo s).received_same),
    )

pub recv_tasks-receive_from :
    (filter : Option SocketAddr) (rinfo : SocketAddr) (s : UdpPhysicalLayer)
    → (receive_from filter rinfo s).recv_tasks ≡ s.recv_tasks
unfolding receive_from
recv_tasks-receive_from filter rinfo s = ground (arith, (ensure_entry-IsFramed rinfo s).tasks_same)

pub filter_of-receive_from :
    (filter : Option SocketAddr) (rinfo : SocketAddr) (s : UdpPhysicalLayer)
    → filter_of (receive_from filter rinfo s) ≡ filter_of s
unfolding receive_from
filter_of-receive_from filter rinfo s = ground (arith, (ensure_entry-IsFramed rinfo s).filter_same)
