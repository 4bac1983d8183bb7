-- ===== src/Tests/Peers.antt =====
-- A UDP client receives a datagram of its remote address, and is closed.
use rs_modbus.Prelude.{◌+◌, ◌≤◌, refl, some, true, false, [], ◌∷◌, All}
use rs_modbus.Prelude.HashMap.{lookup, insert, remove}
use rs_modbus.Types.{ConnectionId}
use rs_modbus.Physical.Tasks.{here, count}
use rs_modbus.Physical.Udp.{
  v4, SocketAddr, UdpPhysicalLayer, RecvTask, receiving, build, entering, guarded, marked, bound,
  stored, emptied, spawned, placed, shown, aborting, unbinding, draining, receive_from,
  ensure_entry, or_new_entry, arm_idle, drain_connections,
}
use rs_modbus.Physical.Udp.Steps.{
  datagram, open_step, recv_step, begin_close, close_step, open_begins, opens, receives,
  close_begins, closes, Step, Reachable, initial, next,
}
use rs_modbus.Physical.Udp.Allowed.{IsAllowed}
use rs_modbus.Physical.Udp.Filter.{Reachable-received}

abbrev server : SocketAddr
server = record { ip = v4 3232235777; port = 502; scope = 0 }

abbrev fresh_client : UdpPhysicalLayer
fresh_client = build false (some ("192.168.0.1:502", some server)) 30000

abbrev receiving_task : RecvTask
receiving_task = record { handle = 0; remote_filter = some server; phase = receiving }

abbrev left_over : UdpPhysicalLayer
left_over = record fresh_client {
  next_id = 1;
  next_task = 1;
  received = record { addr = server; connection = 0 } ∷ [];
  connection_closes = 0 ∷ [];
  closes = 1;
  opened = 1;
}

infixl 20 ◌▷◌
abbrev ◌▷◌ : {s s' : UdpPhysicalLayer} → Reachable s → Step s s' → Reachable s'
◌▷◌ {s} {s'} r st = next s s' r st

left_over-Reachable : Reachable left_over
unfolding open_step recv_step begin_close close_step receive_from ensure_entry or_new_entry arm_idle
    drain_connections lookup insert remove
left_over-Reachable =
    initial false (some ("192.168.0.1:502", some server)) 30000
    ▷ open_begins refl
    ▷ opens true entering [] here
    ▷ opens true guarded [] here
    ▷ opens true marked [] here
    ▷ opens true bound [] here
    ▷ opens true stored [] here
    ▷ opens true emptied [] here
    ▷ opens true (spawned 0) [] here
    ▷ opens true placed [] here
    ▷ opens true shown [] here
    ▷ receives (datagram server) receiving_task [] here
    ▷ close_begins
    ▷ closes aborting [] here
    ▷ closes unbinding [] here
    ▷ closes draining [] here

Reachable-received_example :
    ((c : ConnectionId) → count c (0 ∷ []) + count c [] ≤ 1)
    × (1 ≤ 1)
    × All (λ d. IsAllowed false (some ("192.168.0.1:502", some server)) d.addr) left_over.received
Reachable-received_example = Reachable-received left_over left_over-Reachable
