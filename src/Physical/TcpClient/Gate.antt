-- ===== src/Physical/TcpClient/Gate.antt =====
-- src/layers/physical/tcp_client.rs: the gate of the close events.
use rs_modbus.Prelude.{
  ℕ, ◌+◌, ◌≤◌, arith, Option, none, some, Bool, true, false, List, if◌then◌else◌, length,
}
use rs_modbus.Types.{ConnectionId}
use rs_modbus.Physical.Tasks.{Taken, length-Taken, continue_with}
use rs_modbus.Physical.TcpClient.{
  TcpClientPhysicalLayer, new_layer, set_addr, ReadTask, Opening, entering, guarded, marked,
  connected, halved, named, spawned, placed, shown, Closing, aborting, halving, announcing, Chunk,
  chunk, ended, announced, open_step, leave_loop, read_step, begin_close, close_step, Step,
  open_begins, opens, reads, close_begins, closes, addressed, destroys,
}

abbrev as_number : Bool → ℕ
as_number b = if b then 1 else 0

-- Each close of the layer goes back to an `open`, and the close of a connection comes with it.
pub record IsGated (s : TcpClientPhysicalLayer) : Type 0 where
  pub gated : s.closes + length s.closing + as_number s.is_open ≤ s.opened
  pub paired : length s.connection_closes ≤ s.closes

open_step-IsGated :
    (connects : Bool) (o : Opening) (others : List Opening) (s : TcpClientPhysicalLayer)
    → IsGated s
    → IsGated (record (open_step connects o s).0 {
      opening = continue_with (open_step connects o s).1 others;
    })
unfolding open_step
open_step-IsGated connects entering others s h = record {
  gated = ground (arith, h.gated);
  paired = ground (arith, h.paired);
}
open_step-IsGated connects guarded others s h = record { gated = h.gated; paired = h.paired }
open_step-IsGated true marked others s h = record { gated = h.gated; paired = h.paired }
open_step-IsGated false marked others s h = record { gated = h.gated; paired = h.paired }
open_step-IsGated connects connected others s h = record { gated = h.gated; paired = h.paired }
open_step-IsGated connects halved others s h = record { gated = h.gated; paired = h.paired }
open_step-IsGated connects (named c) others s h = record { gated = h.gated; paired = h.paired }
open_step-IsGated connects (spawned t) others s h = record { gated = h.gated; paired = h.paired }
open_step-IsGated connects placed others s h = record {
  gated = ground (arith, h.gated);
  paired = h.paired;
}
open_step-IsGated connects shown others s h = record { gated = h.gated; paired = h.paired }

read_step-IsGated :
    (has_ended : Bool) (c : Chunk) (t : ReadTask) (others : List ReadTask)
    (s : TcpClientPhysicalLayer)
    → IsGated s
    → IsGated (record (read_step has_ended c t s).0 {
      read_tasks = continue_with (read_step has_ended c t s).1 others;
    })
unfolding read_step leave_loop
read_step-IsGated false (chunk bytes) t others s h = record { gated = h.gated; paired = h.paired }
read_step-IsGated false ended t others s h = record { gated = h.gated; paired = h.paired }
read_step-IsGated true c t others s h = record {
  gated = ground (arith, h.gated);
  paired = ground (arith, h.paired);
}

close_step-IsGated :
    (c : Closing) (others : List Closing) (s : TcpClientPhysicalLayer)
    → Taken c s.closing others
    → IsGated s
    → IsGated (record (close_step c s).0 { closing = continue_with (close_step c s).1 others })
unfolding close_step
close_step-IsGated aborting others s taken h = record {
  gated = omega (arith, h.gated, length-Taken aborting s.closing others taken);
  paired = h.paired;
}
close_step-IsGated halving others s taken h = record {
  gated = omega (arith, h.gated, length-Taken halving s.closing others taken);
  paired = h.paired;
}
close_step-IsGated announcing others s taken h = record {
  gated = omega (arith, h.gated, length-Taken announcing s.closing others taken);
  paired = by_id s.connection_id;
}
  where
    by_id : (o : Option ConnectionId) → length (announced o s.connection_closes) ≤ s.closes + 1
    by_id none = omega (arith, h.paired)
    by_id (some c) = omega (arith, h.paired)

Step-IsGated : (s s' : TcpClientPhysicalLayer) → Step s s' → IsGated s → IsGated s'
unfolding begin_close set_addr
Step-IsGated s s' (open_begins e) h = record { gated = h.gated; paired = h.paired }
Step-IsGated s s' (opens connects o others taken) h = open_step-IsGated connects o others s h
Step-IsGated s s' (reads c t others taken) h = read_step-IsGated t.has_ended c t others s h
Step-IsGated s s' close_begins h = record {
  gated = ground (arith, h.gated);
  paired = ground (arith, h.paired);
}
Step-IsGated s s' (closes c others taken) h = close_step-IsGated c others s taken h
Step-IsGated s s' (addressed text) h = record { gated = h.gated; paired = h.paired }
Step-IsGated s s' destroys h = record { gated = h.gated; paired = h.paired }

-- The states of a layer, from a new one on.
pub data Reachable : TcpClientPhysicalLayer → Type 0 where
  initial : Reachable new_layer
  next : (s s' : TcpClientPhysicalLayer) → Reachable s → Step s s' → Reachable s'

pub Reachable-IsGated : (s : TcpClientPhysicalLayer) → Reachable s → IsGated s
Reachable-IsGated s initial = record { gated = omega arith; paired = omega arith }
Reachable-IsGated s (next s0 s1 r st) = Step-IsGated s0 s st (Reachable-IsGated s0 r)

-- However the calls of the user and the reading tasks interleave, the close of the layer is announced
-- at most once for each `open` that succeeded, and no more closes of connections are announced.
pub Reachable-gated :
    (s : TcpClientPhysicalLayer)
    → Reachable s
    → (s.closes ≤ s.opened) × (length s.connection_closes ≤ s.closes)
Reachable-gated s r = let h = Reachable-IsGated s r in (omega (arith, h.gated), h.paired)
