-- ===== src/Tests/Ports.antt =====
-- A TCP client whose peer closes the connection, and a serial port whose reading task sees the port
-- before it is marked as open.
use rs_modbus.Prelude.{◌≤◌, refl, some, true, false, [], ◌∷◌, length}
use rs_modbus.Physical.Tasks.{here}
use rs_modbus.Physical.TcpClient.{
  TcpClientPhysicalLayer, new_layer, entering, guarded, marked, connected, halved, named, spawned,
  placed, shown, chunk, ended, open_step, read_step, leave_loop, Step, open_begins, opens, reads,
}
use rs_modbus.Physical.TcpClient.Gate.{Reachable, initial, next, Reachable-gated}

infixl 20 ◌▷◌
abbrev ◌▷◌ : {s s' : TcpClientPhysicalLayer} → Reachable s → Step s s' → Reachable s'
◌▷◌ {s} {s'} r st = next s s' r st

abbrev closed_by_peer : TcpClientPhysicalLayer
closed_by_peer = record new_layer {
  write_half = true;
  connection_id = some 0;
  read_task = some 0;
  next_id = 1;
  next_task = 1;
  received = (7 ∷ [], 0) ∷ [];
  connection_closes = 0 ∷ [];
  closes = 1;
  opened = 1;
}

closed_by_peer-Reachable : Reachable closed_by_peer
unfolding open_step read_step leave_loop
closed_by_peer-Reachable =
    initial
    ▷ open_begins refl
    ▷ opens true entering [] here
    ▷ opens true guarded [] here
    ▷ opens true marked [] here
    ▷ opens true connected [] here
    ▷ opens true halved [] here
    ▷ opens true (named 0) [] here
    ▷ opens true (spawned 0) [] here
    ▷ opens true placed [] here
    ▷ opens true shown [] here
    ▷ reads (chunk (7 ∷ [])) (record { handle = 0; conn = 0; has_ended = false }) [] here
    ▷ reads ended (record { handle = 0; conn = 0; has_ended = false }) [] here
    ▷ reads ended (record { handle = 0; conn = 0; has_ended = true }) [] here

Reachable-gated_example : (1 ≤ 1) × (length closed_by_peer.connection_closes ≤ 1)
Reachable-gated_example = Reachable-gated closed_by_peer closed_by_peer-Reachable
