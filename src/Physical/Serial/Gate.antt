-- ===== src/Physical/Serial/Gate.antt =====
-- src/layers/physical/serial.rs: the gate of the close events.
use rs_modbus.Prelude.{
  ℕ, ◌+◌, ◌≤◌, ◌≡◌, refl, arith, Option, none, some, Bool, true, false, List, [], ◌∷◌,
  if◌then◌else◌, length,
}
use rs_modbus.Types.{ConnectionId}
use rs_modbus.Physical.Tasks.{Taken, here, there, length-Taken, continue_with}
use rs_modbus.Physical.Serial.{
  SerialPhysicalLayer, new_layer, ReadPhase, testing, reading, broken, ReadTask, Opening, entering,
  claimed, guarded, cloned, written, named, spawned, placed, shown, Closing, dropping, taking,
  awaiting, announcing, Reading, chunk, timed_out, failed, announced, open_step, leave_loop,
  read_step, begin_close, close_step, Step, open_begins, opens, reads, close_begins, closes,
  destroys,
}

abbrev pub as_number : Bool → ℕ
as_number b = if b then 1 else 0

-- A call that has claimed `is_opening`.
abbrev pub claim : Opening → ℕ
claim entering = 0
claim claimed = 1
claim guarded = 1
claim cloned = 1
claim written = 1
claim (named c) = 1
claim (spawned h) = 1
claim placed = 1
claim shown = 1

abbrev pub claims : List Opening → ℕ
claims [] = 0
claims (o ∷ os) = claim o + claims os

claims-Taken :
    (o : Opening) (os others : List Opening)
    → Taken o os others
    → claims os ≡ claim o + claims others
claims-Taken o os others here = refl
claims-Taken o os others (there t) = omega (arith, claims-Taken o _ _ t)

-- `is_opening` is the claim of one call. Each close of the port goes back to an `open`, and the close
-- of a connection comes with it.
pub record IsGated (s : SerialPhysicalLayer) : Type 0 where
  pub claimed_once : claims s.opening ≡ as_number s.is_opening
  pub gated : s.closes + length s.closing + as_number s.is_open ≤ s.opened
  pub paired : length s.connection_closes ≤ s.closes

open_step-IsGated :
    (works : Bool) (o : Opening) (others : List Opening) (s : SerialPhysicalLayer)
    → Taken o s.opening others
    → IsGated s
    → IsGated
        (record (open_step works o s).0 { opening = continue_with (open_step works o s).1 others })
unfolding open_step
open_step-IsGated works entering others s taken h = record {
  claimed_once = ground (arith, h.claimed_once, claims-Taken entering s.opening others taken);
  gated = ground (arith, h.gated);
  paired = ground (arith, h.paired);
}
open_step-IsGated works claimed others s taken h = record {
  claimed_once = ground (arith, h.claimed_once, claims-Taken claimed s.opening others taken);
  gated = ground (arith, h.gated);
  paired = ground (arith, h.paired);
}
open_step-IsGated true guarded others s taken h = record {
  claimed_once = ground (arith, h.claimed_once, claims-Taken guarded s.opening others taken);
  gated = h.gated;
  paired = h.paired;
}
open_step-IsGated false guarded others s taken h = record {
  claimed_once = ground (arith, h.claimed_once, claims-Taken guarded s.opening others taken);
  gated = h.gated;
  paired = h.paired;
}
open_step-IsGated works cloned others s taken h = record {
  claimed_once = ground (arith, h.claimed_once, claims-Taken cloned s.opening others taken);
  gated = h.gated;
  paired = h.paired;
}
open_step-IsGated works written others s taken h = record {
  claimed_once = ground (arith, h.claimed_once, claims-Taken written s.opening others taken);
  gated = h.gated;
  paired = h.paired;
}
open_step-IsGated works (named c) others s taken h = record {
  claimed_once = ground (arith, h.claimed_once, claims-Taken (named c) s.opening others taken);
  gated = h.gated;
  paired = h.paired;
}
open_step-IsGated works (spawned handle) others s taken h = record {
  claimed_once =
      ground (arith, h.claimed_once, claims-Taken (spawned handle) s.opening others taken);
  gated = h.gated;
  paired = h.paired;
}
open_step-IsGated works placed others s taken h = record {
  claimed_once = ground (arith, h.claimed_once, claims-Taken placed s.opening others taken);
  gated = ground (arith, h.gated);
  paired = h.paired;
}
open_step-IsGated works shown others s taken h = record {
  claimed_once = ground (arith, h.claimed_once, claims-Taken shown s.opening others taken);
  gated = h.gated;
  paired = h.paired;
}

read_step-IsGated :
    (p : ReadPhase) (r : Reading) (t : ReadTask) (others : List ReadTask) (s : SerialPhysicalLayer)
    → IsGated s
    → IsGated
        (record (read_step p r t s).0 { read_tasks = continue_with (read_step p r t s).1 others })
unfolding read_step leave_loop
read_step-IsGated testing r t others s h = record {
  claimed_once = h.claimed_once;
  gated = h.gated;
  paired = h.paired;
}
read_step-IsGated reading (chunk bytes) t others s h = record {
  claimed_once = h.claimed_once;
  gated = h.gated;
  paired = h.paired;
}
read_step-IsGated reading timed_out t others s h = record {
  claimed_once = h.claimed_once;
  gated = h.gated;
  paired = h.paired;
}
read_step-IsGated reading failed t others s h = record {
  claimed_once = h.claimed_once;
  gated = h.gated;
  paired = h.paired;
}
read_step-IsGated broken r t others s h = record {
  claimed_once = ground (arith, h.claimed_once);
  gated = ground (arith, h.gated);
  paired = ground (arith, h.paired);
}

close_step-IsGated :
    (c : Closing) (others : List Closing) (s : SerialPhysicalLayer)
    → Taken c s.closing others
    → IsGated s
    → IsGated (record (close_step c s).0 { closing = continue_with (close_step c s).1 others })
unfolding close_step
close_step-IsGated dropping others s taken h = record {
  claimed_once = h.claimed_once;
  gated = omega (arith, h.gated, length-Taken dropping s.closing others taken);
  paired = h.paired;
}
close_step-IsGated taking others s taken h = record {
  claimed_once = h.claimed_once;
  gated = omega (arith, h.gated, length-Taken taking s.closing others taken);
  paired = h.paired;
}
close_step-IsGated (awaiting handle) others s taken h = record {
  claimed_once = h.claimed_once;
  gated = omega (arith, h.gated, length-Taken (awaiting handle) s.closing others taken);
  paired = h.paired;
}
close_step-IsGated announcing others s taken h = record {
  claimed_once = h.claimed_once;
  gated = omega (arith, h.gated, length-Taken announcing s.closing others taken);
  paired = by_id s.connection_id;
}
  where
    by_id : (o : Option ConnectionId) → length (announced o s.connection_closes) ≤ s.closes + 1
    by_id none = omega (arith, h.paired)
    by_id (some c) = omega (arith, h.paired)

Step-IsGated : (s s' : SerialPhysicalLayer) → Step s s' → IsGated s → IsGated s'
unfolding begin_close
Step-IsGated s s' (open_begins e) h = record {
  claimed_once = omega (arith, h.claimed_once);
  gated = h.gated;
  paired = h.paired;
}
Step-IsGated s s' (opens works o others taken) h = open_step-IsGated works o others s taken h
Step-IsGated s s' (reads r t others taken) h = read_step-IsGated t.phase r t others s h
Step-IsGated s s' close_begins h = record {
  claimed_once = ground (arith, h.claimed_once);
  gated = ground (arith, h.gated);
  paired = ground (arith, h.paired);
}
Step-IsGated s s' (closes c others taken) h = close_step-IsGated c others s taken h
Step-IsGated s s' destroys h = record {
  claimed_once = h.claimed_once;
  gated = h.gated;
  paired = h.paired;
}

-- The states of a layer, from a new one on.
pub data Reachable : SerialPhysicalLayer → Type 0 where
  initial : Reachable new_layer
  next : (s s' : SerialPhysicalLayer) → Reachable s → Step s s' → Reachable s'

pub Reachable-IsGated : (s : SerialPhysicalLayer) → Reachable s → IsGated s
Reachable-IsGated s initial = record {
  claimed_once = refl;
  gated = omega arith;
  paired = omega arith;
}
Reachable-IsGated s (next s0 s1 r st) = Step-IsGated s0 s st (Reachable-IsGated s0 r)

-- However the calls of the user and the reading tasks interleave, at most one call of `open` is past
-- its claim of `is_opening`, the flag tells whether there is one, the close of the layer is announced
-- at most once for each `open` that succeeded, and no more closes of connections are announced.
pub Reachable-claims :
    (s : SerialPhysicalLayer)
    → Reachable s
    → (claims s.opening ≡ as_number s.is_opening)
      × (s.closes ≤ s.opened)
      × (length s.connection_closes ≤ s.closes)
Reachable-claims s r =
    let h = Reachable-IsGated s r in (h.claimed_once, omega (arith, h.gated), h.paired)
