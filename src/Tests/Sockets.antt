-- ===== src/Tests/Sockets.antt =====
-- A client connects to a listening socket, and the layer is closed.
use rs_modbus.Prelude.{◌+◌, ◌≤◌, refl, some, true, [], ◌∷◌}
use rs_modbus.Types.{ConnectionId}
use rs_modbus.Physical.Tasks.{here, count}
use rs_modbus.Physical.TcpServer.{
  accepting, inserting, TcpServerPhysicalLayer, new_layer, entering, guarded, marked, listening,
  published, emptied, spawned, placed, shown, aborting, draining, contains, without, open_step,
  accept, insert_client, accept_step, begin_close, drain_clients, without_tasks, close_step,
  open_begins, opens, accepts, close_begins, closes, Step,
}
use rs_modbus.Physical.TcpServer.Once.{Reachable, initial, next, Reachable-closes}

abbrev shut : TcpServerPhysicalLayer
shut = record new_layer {
  addr = some "[::]:502";
  next_id = 1;
  next_task = 1;
  connection_closes = 0 ∷ [];
  closes = 1;
  opened = 1;
}

infixl 20 ◌▷◌
abbrev ◌▷◌ : {s s' : TcpServerPhysicalLayer} → Reachable s → Step s s' → Reachable s'
◌▷◌ {s} {s'} r st = next s s' r st

shut-Reachable : Reachable shut
unfolding contains without open_step accept insert_client accept_step begin_close drain_clients
    without_tasks close_step
shut-Reachable =
    initial
    ▷ open_begins refl
    ▷ opens (some "[::]:502") entering [] here
    ▷ opens (some "[::]:502") guarded [] here
    ▷ opens (some "[::]:502") marked [] here
    ▷ opens (some "[::]:502") (listening "[::]:502") [] here
    ▷ opens (some "[::]:502") published [] here
    ▷ opens (some "[::]:502") emptied [] here
    ▷ opens (some "[::]:502") (spawned 0) [] here
    ▷ opens (some "[::]:502") placed [] here
    ▷ opens (some "[::]:502") shown [] here
    ▷ accepts true (record { handle = 0; phase = accepting }) [] here
    ▷ accepts true (record { handle = 0; phase = inserting 0 }) [] here
    ▷ close_begins
    ▷ closes aborting [] here
    ▷ closes draining [] here

Reachable-closes_example : ((c : ConnectionId) → count c (0 ∷ []) + count c [] ≤ 1) × (1 ≤ 1)
Reachable-closes_example = Reachable-closes shut shut-Reachable
