-- ===== src/Slave/Queues/View.antt =====
-- src/slave.rs: the queues as one connection sees them, and the queue that they stand for.
use rs_modbus.Prelude.{
  ◌≡◌, ◌≢◌, inl, inr, refl, ap, ◌∙◌, sym, arith, Option, none, some, List, [], ◌∷◌, ◌++◌,
  if◌then◌else◌, ◌==◌, Bool-cases,
}
use rs_modbus.Prelude.HashMap.{lookup, nat_eq}
use rs_modbus.Types.{ConnectionId}
use rs_modbus.Slave.Queues.{
  Item, QueueEntry, Phase, taking, serving, settling, Task, Label, arrived, started, finished,
  silent, peer_closed, cleared, Server, continued,
}
use rs_modbus.Slave.Queues.Serial.{moved, drainers, drainers-append, drainers-at, tasks_at, spawn}

-- The server as one connection sees it: the frames that wait, and the one that is served.
pub record Fifo : Type 0 where
  pub waiting : List Item
  pub current : Option Item

-- The label is not about the connection.
abbrev pub Elsewhere : ConnectionId → Label → Type 0
Elsewhere c (arrived j item) = j ≢ c
Elsewhere c (started j item) = j ≢ c
Elsewhere c (finished j) = j ≢ c
Elsewhere c silent = Unit
Elsewhere c (peer_closed j) = j ≢ c
Elsewhere c cleared = Unit

pub data FifoStep (c : ConnectionId) (f f' : Fifo) : Label → Type 0 where
  pushes :
      (item : Item)
      → f'.waiting ≡ f.waiting ++ (item ∷ [])
      → f'.current ≡ f.current
      → FifoStep c f f' (arrived c item)
  begins :
      (item : Item)
      → f.current ≡ none
      → f.waiting ≡ item ∷ f'.waiting
      → f'.current ≡ some item
      → FifoStep c f f' (started c item)
  ends :
      (item : Item)
      → f.current ≡ some item
      → f'.current ≡ none
      → f'.waiting ≡ f.waiting
      → FifoStep c f f' (finished c)
  discards : f'.waiting ≡ [] → f'.current ≡ f.current → FifoStep c f f' (peer_closed c)
  elsewhere :
      (l : Label)
      → Elsewhere c l
      → f'.waiting ≡ f.waiting
      → f'.current ≡ f.current
      → FifoStep c f f' l

abbrev pub items_of : Option QueueEntry → List Item
items_of none = []
items_of (some entry) = entry.items

abbrev pub item_of : Phase → Option Item
item_of taking = none
item_of (serving item) = some item
item_of settling = none

abbrev first : Option Item → Option Item → Option Item
first none o = o
first (some item) o = some item

-- The frame of a connection that the first of its tasks serves.
unfoldable pub in_service : ConnectionId → List Task → Option Item
in_service c [] = none
in_service c (t ∷ tasks) =
    let rest = in_service c tasks in
    if t.connection == c then first (item_of t.phase) rest else rest

abbrev pub seen_by : ConnectionId → Server → Fifo
seen_by c s = record { waiting = items_of (lookup c s.queues); current = in_service c s.tasks }

in_service-append :
    (j : ConnectionId) (xs ys : List Task)
    → in_service j (xs ++ ys) ≡ first (in_service j xs) (in_service j ys)
unfolding in_service
in_service-append j [] ys = refl
in_service-append j (t ∷ xs) ys = elim (Bool-cases (t.connection == j)) [
  | inl e ↦
      rw (e, in_service-append j xs ys)
        (first_assoc (item_of t.phase) (in_service j xs) (in_service j ys))
  | inr e ↦ rw e (in_service-append j xs ys)
]
  where
    first_assoc : (a b c : Option Item) → first a (first b c) ≡ first (first a b) c
    first_assoc none b c = refl
    first_assoc (some x) b c = refl

pub not_served :
    (j : ConnectionId) (tasks : List Task) → drainers j tasks ≡ 0 → in_service j tasks ≡ none
unfolding in_service drainers
not_served j [] h = refl
not_served j (t ∷ tasks) h = ground (arith, h, not_served j tasks)

pub in_service-spawn :
    (c j : ConnectionId) (tasks : List Task) (o : Option QueueEntry)
    → in_service j (spawn c tasks o) ≡ in_service j tasks
unfolding in_service
in_service-spawn c j tasks none = ground arith
in_service-spawn c j tasks (some entry) = ground arith

-- A task of another connection serves nothing of `j`.
skipped :
    (c j : ConnectionId) (next : Option Phase) (after : List Task)
    → c ≢ j
    → in_service j (continued c next ++ after) ≡ in_service j after
unfolding in_service
skipped c j none after n = refl
skipped c j (some phase) after n = ground (arith, n)

module _ (before : List Task) (c : ConnectionId) (after : List Task) where
  pub served_same :
      (phase : Phase)
      → drainers c (tasks_at before c after phase) ≡ 1
      → in_service c (tasks_at before c after phase) ≡ item_of phase
  unfolding in_service
  served_same phase h =
      in_service-append c before (record { connection = c; phase = phase } ∷ after)
      ∙ ap (λ o. first o (in_service c (record { connection = c; phase = phase } ∷ after)))
          (not_served c before (ground (arith, h, drainers-at before c after c phase)))
      ∙ alone phase (not_served c after (ground (arith, h, drainers-at before c after c phase)))
    where
      alone :
          (phase : Phase)
          → in_service c after ≡ none
          → in_service c (record { connection = c; phase = phase } ∷ after) ≡ item_of phase
      alone taking e = ground (arith, e)
      alone (serving item) e = ground (arith, e)
      alone settling e = ground (arith, e)

  pub served_next :
      (phase next : Phase)
      → drainers c (tasks_at before c after phase) ≡ 1
      → in_service c (tasks_at before c after next) ≡ item_of next
  served_next phase next h = served_same next (sym (moved before c after c phase next) ∙ h)

  pub served_after :
      (phase : Phase)
      → drainers c (tasks_at before c after phase) ≡ 1
      → in_service c (before ++ after) ≡ none
  served_after phase h =
      not_served c (before ++ after)
        (ground (arith, h, drainers-at before c after c phase, drainers-append c before after))

  pub served_other :
      (j : ConnectionId) (next next' : Option Phase)
      → c ≢ j
      → in_service j (before ++ (continued c next ++ after))
        ≡ in_service j (before ++ (continued c next' ++ after))
  served_other j next next' n =
      in_service-append j before (continued c next ++ after)
      ∙ ap (first (in_service j before))
          (skipped c j next after n ∙ sym (skipped c j next' after n))
      ∙ sym (in_service-append j before (continued c next' ++ after))
