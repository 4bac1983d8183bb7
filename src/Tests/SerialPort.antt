-- ===== src/Tests/SerialPort.antt =====
-- A serial port whose reading task looks at `is_open` before `open` has set it: the port is open, and
-- nobody reads it.
use rs_modbus.Prelude.{◌≤◌, ◌≡◌, refl, some, true, [], length}
use rs_modbus.Physical.Tasks.{here}
use rs_modbus.Physical.Serial.{
  SerialPhysicalLayer, new_layer, testing, broken, entering, claimed, guarded, cloned, written,
  named, spawned, placed, shown, failed, open_step, read_step, leave_loop, Step, open_begins, opens,
  reads,
}
use rs_modbus.Physical.Serial.Gate.{Reachable, initial, next, claims, Reachable-claims}

infixl 20 ◌▷◌
abbrev ◌▷◌ : {s s' : SerialPhysicalLayer} → Reachable s → Step s s' → Reachable s'
◌▷◌ {s} {s'} r st = next s s' r st

abbrev deaf : SerialPhysicalLayer
deaf = record new_layer {
  write_port = true;
  read_task = some 0;
  is_open = true;
  connection_id = some 0;
  next_id = 1;
  next_task = 1;
  opened = 1;
}

deaf-Reachable : Reachable deaf
unfolding open_step read_step leave_loop
deaf-Reachable =
    initial
    ▷ open_begins refl
    ▷ opens true entering [] here
    ▷ opens true claimed [] here
    ▷ opens true guarded [] here
    ▷ opens true cloned [] here
    ▷ opens true written [] here
    ▷ opens true (named 0) [] here
    ▷ reads failed (record { handle = 0; conn = 0; phase = testing }) [] here
    ▷ reads failed (record { handle = 0; conn = 0; phase = broken }) [] here
    ▷ opens true (spawned 0) [] here
    ▷ opens true placed [] here
    ▷ opens true shown [] here

Reachable-claims_example :
    (claims deaf.opening ≡ 0) × (deaf.closes ≤ 1) × (length deaf.connection_closes ≤ 0)
Reachable-claims_example = Reachable-claims deaf deaf-Reachable
