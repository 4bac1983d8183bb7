-- ===== src/Physical/TcpServer/Once.antt =====
-- src/layers/physical/tcp_server.rs: the numbers of close events.
use Prim.Native.String.{String}
use rs_modbus.Prelude.{
  ℕ, ◌+◌, ◌≤◌, ◌≡◌, refl, arith, Option, none, some, Bool, true, false, List, [], ◌∷◌,
  if◌then◌else◌, ◌==◌, length,
}
use rs_modbus.Types.{ConnectionId}
use rs_modbus.Physical.Tasks.{Taken, here, there, length-Taken, continue_with, count, count-append}
use rs_modbus.Physical.TcpServer.{
  Accept, accepting, inserting, broken, AcceptTask, ReadTask, Opening, entering, guarded, marked,
  listening, published, emptied, spawned, placed, shown, Closing, aborting, draining,
  TcpServerPhysicalLayer, new_layer, set_addr, contains, without, open_step, accept, insert_client,
  remove_client, accept_exit, accept_step, abort_accept, read_step, begin_close, drain_clients,
  close_step, Step, open_begins, opens, accepts, reads, close_begins, closes, addressed, destroys,
}

count-without :
    (c d : ConnectionId) (xs : List ConnectionId)
    → count d (without c xs) ≡ (if c == d then 0 else count d xs)
unfolding count without
count-without c d [] = ground arith
count-without c d (x ∷ xs) = ground (arith, count-without c d xs)

contains-count : (c : ConnectionId) (xs : List ConnectionId) → contains c xs ≡ true → 1 ≤ count c xs
unfolding contains count
contains-count c [] e = cc
contains-count c (x ∷ xs) e = ground (arith, e, contains-count c xs)

-- The clients that are being inserted.
abbrev in_phase : ConnectionId → Accept → ℕ
in_phase c accepting = 0
in_phase c (inserting x) = if x == c then 1 else 0
in_phase c broken = 0

abbrev in_accepts : ConnectionId → List AcceptTask → ℕ
in_accepts c [] = 0
in_accepts c (t ∷ ts) = in_phase c t.phase + in_accepts c ts

in_accepts-Taken :
    (c : ConnectionId) (t : AcceptTask) (ts others : List AcceptTask)
    → Taken t ts others
    → in_accepts c ts ≡ in_phase c t.phase + in_accepts c others
in_accepts-Taken c t ts others here = refl
in_accepts-Taken c t ts others (there h) = omega (arith, in_accepts-Taken c t _ _ h)

in_accepts-abort_accept :
    (c : ConnectionId) (h : Option ℕ) (ts : List AcceptTask)
    → in_accepts c (abort_accept h ts) ≤ in_accepts c ts
in_accepts-abort_accept c none ts = omega arith
in_accepts-abort_accept c (some h) [] = omega arith
in_accepts-abort_accept c (some h) (t ∷ ts) = ground (arith, in_accepts-abort_accept c (some h) ts)

-- A client is being inserted, or in the map, or its close was announced: once, and only after it
-- connected. Each close of the layer goes back to an `open`.
abbrev places : ConnectionId → TcpServerPhysicalLayer → ℕ
places c s = count c s.connection_closes + count c s.clients + in_accepts c s.accept_tasks

abbrev as_number : Bool → ℕ
as_number b = if b then 1 else 0

pub record IsOnce (s : TcpServerPhysicalLayer) : Type 0 where
  pub once : (c : ConnectionId) → places c s ≤ 1
  pub fresh : (c : ConnectionId) → s.next_id ≤ c → places c s ≡ 0
  pub gated : s.closes + length s.closing + as_number s.is_open ≤ s.opened

open_step-IsOnce :
    (local_addr : Option String) (o : Opening) (others : List Opening) (s : TcpServerPhysicalLayer)
    → IsOnce s
    → IsOnce (record (open_step local_addr o s).0 {
      opening = continue_with (open_step local_addr o s).1 others;
    })
unfolding open_step count
open_step-IsOnce local_addr entering others s h = record {
  once = λ c. ground (arith, h.once c);
  fresh = λ c n. ground (arith, h.fresh c, n);
  gated = ground (arith, h.gated);
}
open_step-IsOnce local_addr guarded others s h = record {
  once = h.once;
  fresh = h.fresh;
  gated = h.gated;
}
open_step-IsOnce none marked others s h = record { once = h.once; fresh = h.fresh; gated = h.gated }
open_step-IsOnce (some text) marked others s h = record {
  once = h.once;
  fresh = h.fresh;
  gated = h.gated;
}
open_step-IsOnce local_addr (listening text) others s h = record {
  once = h.once;
  fresh = h.fresh;
  gated = h.gated;
}
open_step-IsOnce local_addr published others s h = record {
  once = λ c. omega (arith, h.once c);
  fresh = λ c n. omega (arith, h.fresh c n);
  gated = h.gated;
}
open_step-IsOnce local_addr emptied others s h = record {
  once = λ c. omega (arith, h.once c);
  fresh = λ c n. omega (arith, h.fresh c n);
  gated = h.gated;
}
open_step-IsOnce local_addr (spawned t) others s h = record {
  once = h.once;
  fresh = h.fresh;
  gated = h.gated;
}
open_step-IsOnce local_addr placed others s h = record {
  once = h.once;
  fresh = h.fresh;
  gated = ground (arith, h.gated);
}
open_step-IsOnce local_addr shown others s h = record {
  once = h.once;
  fresh = h.fresh;
  gated = h.gated;
}

-- A step of an accept task in the given phase.
accept_step-IsOnce :
    (p : Accept) (connects : Bool) (t : AcceptTask) (others : List AcceptTask)
    (s : TcpServerPhysicalLayer)
    → ((c : ConnectionId) → in_accepts c s.accept_tasks ≡ in_phase c p + in_accepts c others)
    → IsOnce s
    → IsOnce (record (accept_step p connects t s).0 {
      accept_tasks = continue_with (accept_step p connects t s).1 others;
    })
unfolding accept_step accept insert_client accept_exit count
accept_step-IsOnce accepting true t others s at h = record {
  once = λ c. ground (arith, h.once c, h.fresh c, at c);
  fresh = λ c n. ground (arith, n, h.fresh c, at c);
  gated = h.gated;
}
accept_step-IsOnce accepting false t others s at h = record {
  once = λ c. omega (arith, h.once c, at c);
  fresh = λ c n. omega (arith, h.fresh c n, at c);
  gated = h.gated;
}
accept_step-IsOnce (inserting x) connects t others s at h = record {
  once = λ c. ground (arith, h.once c, at c, count-without x c s.clients);
  fresh = λ c n. ground (arith, h.fresh c n, at c, count-without x c s.clients);
  gated = h.gated;
}
accept_step-IsOnce broken connects t others s at h = by_open s.is_open refl
  where
    by_open :
        (b : Bool)
        → s.is_open ≡ b
        → IsOnce (record (accept_step broken connects t s).0 {
          accept_tasks = continue_with (accept_step broken connects t s).1 others;
        })
    by_open true o = rw o (record {
      once = λ c. omega (arith, h.once c, at c);
      fresh = λ c n. omega (arith, h.fresh c n, at c);
      gated = ground (arith, h.gated, o);
    })
    by_open false o = rw o (record {
      once = λ c. omega (arith, h.once c, at c);
      fresh = λ c n. omega (arith, h.fresh c n, at c);
      gated = ground (arith, h.gated, o);
    })

remove_client-IsOnce :
    (c : ConnectionId) (s : TcpServerPhysicalLayer) → IsOnce s → IsOnce (remove_client c s)
unfolding remove_client count
remove_client-IsOnce c s h = by_contains (contains c s.clients) refl
  where
    by_contains :
        (b : Bool)
        → contains c s.clients ≡ b
        → IsOnce (
            if b
            then record s {
              clients = without c s.clients;
              connection_closes = c ∷ s.connection_closes;
            }
            else s)
    by_contains false e = h
    by_contains true e = record {
      once =
          λ d. ground (arith, h.once d, contains-count c s.clients e, count-without c d s.clients);
      fresh = λ d n.
          ground (arith, h.fresh d n, contains-count c s.clients e, count-without c d s.clients);
      gated = h.gated;
    }

read_step-IsOnce :
    (has_ended : Bool) (t : ReadTask) (others : List ReadTask) (s : TcpServerPhysicalLayer)
    → IsOnce s
    → IsOnce (record (read_step has_ended t s).0 {
      read_tasks = continue_with (read_step has_ended t s).1 others;
    })
unfolding read_step
read_step-IsOnce false t others s h = record { once = h.once; fresh = h.fresh; gated = h.gated }
read_step-IsOnce true t others s h =
    let k = remove_client-IsOnce t.client s h in
    record { once = k.once; fresh = k.fresh; gated = k.gated }

begin_close-IsOnce : (s : TcpServerPhysicalLayer) → IsOnce s → IsOnce (begin_close s)
unfolding begin_close
begin_close-IsOnce s h = by_open s.is_open refl
  where
    by_open :
        (b : Bool)
        → s.is_open ≡ b
        → IsOnce (if b then record s { is_open = false; closing = aborting ∷ s.closing } else s)
    by_open true o = record { once = h.once; fresh = h.fresh; gated = ground (arith, h.gated, o) }
    by_open false o = h

close_step-IsOnce :
    (c : Closing) (others : List Closing) (s : TcpServerPhysicalLayer)
    → Taken c s.closing others
    → IsOnce s
    → IsOnce (record (close_step c s).0 { closing = continue_with (close_step c s).1 others })
unfolding close_step drain_clients count
close_step-IsOnce aborting others s taken h = record {
  once = λ c. omega (arith, h.once c, in_accepts-abort_accept c s.accept_task s.accept_tasks);
  fresh = λ c n. omega (arith, h.fresh c n, in_accepts-abort_accept c s.accept_task s.accept_tasks);
  gated = omega (arith, h.gated, length-Taken aborting s.closing others taken);
}
close_step-IsOnce draining others s taken h = record {
  once = λ c. omega (arith, h.once c, count-append c s.clients s.connection_closes);
  fresh = λ c n. omega (arith, h.fresh c n, count-append c s.clients s.connection_closes);
  gated = omega (arith, h.gated, length-Taken draining s.closing others taken);
}

Step-IsOnce : (s s' : TcpServerPhysicalLayer) → Step s s' → IsOnce s → IsOnce s'
unfolding set_addr
Step-IsOnce s s' (open_begins e) h = record { once = h.once; fresh = h.fresh; gated = h.gated }
Step-IsOnce s s' (opens local_addr o others taken) h = open_step-IsOnce local_addr o others s h
Step-IsOnce s s' (accepts connects t others taken) h =
    accept_step-IsOnce t.phase connects t others s
      (λ c. in_accepts-Taken c t s.accept_tasks others taken) h
Step-IsOnce s s' (reads t others taken) h = read_step-IsOnce t.has_ended t others s h
Step-IsOnce s s' close_begins h = begin_close-IsOnce s h
Step-IsOnce s s' (closes c others taken) h = close_step-IsOnce c others s taken h
Step-IsOnce s s' (addressed text) h = record { once = h.once; fresh = h.fresh; gated = h.gated }
Step-IsOnce s s' destroys h = record { once = h.once; fresh = h.fresh; gated = h.gated }

-- The states of a layer, from a new one on.
pub data Reachable : TcpServerPhysicalLayer → Type 0 where
  initial : Reachable new_layer
  next : (s s' : TcpServerPhysicalLayer) → Reachable s → Step s s' → Reachable s'

Reachable-IsOnce : (s : TcpServerPhysicalLayer) → Reachable s → IsOnce s
unfolding count
Reachable-IsOnce s initial = record {
  once = λ c. omega arith;
  fresh = λ c n. omega arith;
  gated = omega arith;
}
Reachable-IsOnce s (next s0 s1 r st) = Step-IsOnce s0 s st (Reachable-IsOnce s0 r)

-- However the calls of the user, the accept tasks and the read tasks interleave, the close of each
-- client is announced at most once, and never while the client is in the map; and the close of the
-- layer is announced at most once for each `open` that succeeded.
pub Reachable-closes :
    (s : TcpServerPhysicalLayer)
    → Reachable s
    → ((c : ConnectionId) → count c s.connection_closes + count c s.clients ≤ 1)
      × (s.closes ≤ s.opened)
Reachable-closes s r =
    let h = Reachable-IsOnce s r in (λ c. omega (arith, h.once c), omega (arith, h.gated))
