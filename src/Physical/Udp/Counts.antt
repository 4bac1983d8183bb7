-- ===== src/Physical/Udp/Counts.antt =====
-- src/layers/physical/udp.rs: counting the connections and the tasks.
use rs_modbus.Prelude.{
  ℕ, ◌+◌, ◌≤◌, ◌≡◌, refl, arith, Option, none, some, Bool, List, [], ◌∷◌, if◌then◌else◌,
}
use rs_modbus.Prelude.HashMap.{HashMap, lookup, remove}
use rs_modbus.Types.{ConnectionId}
use rs_modbus.Physical.Tasks.{Taken, here, there, count}
use rs_modbus.Physical.Udp.{
  SocketAddr, addr_eq, RemoteEntry, RecvPhase, receiving, broken, leaving, RecvTask, abort_recv,
  conns,
}

pub count-remove :
    (c : ConnectionId) (rinfo : SocketAddr) (m : HashMap SocketAddr RemoteEntry)
    → count c (conns (remove rinfo m)) ≤ count c (conns m)
unfolding count remove
count-remove c rinfo [] = omega arith
count-remove c rinfo ((a, e) ∷ m) = ground (arith, count-remove c rinfo m)

-- The entry that is removed was counted.
pub count-lookup :
    (rinfo : SocketAddr) (e : RemoteEntry) (m : HashMap SocketAddr RemoteEntry)
    → lookup rinfo m ≡ some e
    → 1 + count e.conn (conns (remove rinfo m)) ≤ count e.conn (conns m)
unfolding count remove lookup
count-lookup rinfo e [] h = ground arith
count-lookup rinfo e ((a, d) ∷ m) h =
    ground (arith, h, count-lookup rinfo e m, count-remove e.conn rinfo m)

abbrev pub as_number : Bool → ℕ
as_number b = if b then 1 else 0

-- The calls and tasks that have passed a gate, and have not yet announced the close.
abbrev pub leaving_task : RecvPhase → ℕ
leaving_task receiving = 0
leaving_task broken = 0
leaving_task leaving = 1

abbrev pub leavings : List RecvTask → ℕ
leavings [] = 0
leavings (t ∷ ts) = leaving_task t.phase + leavings ts

pub leavings-Taken :
    (t : RecvTask) (ts others : List RecvTask)
    → Taken t ts others
    → leavings ts ≡ leaving_task t.phase + leavings others
leavings-Taken t ts others here = refl
leavings-Taken t ts others (there h) = omega (arith, leavings-Taken t _ _ h)

pub leavings-abort_recv :
    (h : Option ℕ) (ts : List RecvTask) → leavings (abort_recv h ts) ≤ leavings ts
leavings-abort_recv none ts = omega arith
leavings-abort_recv (some h) [] = omega arith
leavings-abort_recv (some h) (t ∷ ts) = ground (arith, leavings-abort_recv (some h) ts)
