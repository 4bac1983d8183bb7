-- ===== src/Slave/Queues/Fifo.antt =====
-- src/slave.rs: the steps of the server, as a connection sees them.
use rs_modbus.Prelude.{
  ℕ, ◌≡◌, ◌≢◌, inl, inr, refl, ap, ◌∙◌, sym, subst, arith, Option, none, some, Bool, true, List, [],
  ◌∷◌, ◌++◌, ◌==◌, Bool-cases,
}
use rs_modbus.Prelude.HashMap.{
  lookup, nat_eq, lookup-insert, lookup-remove, lookup-insert_self, beq_self,
}
use rs_modbus.Types.{ConnectionId}
use rs_modbus.Slave.Queues.{
  bail, Item, QueueEntry, Queues, Phase, taking, serving, settling, Task, or_insert, enqueue,
  enqueue_and_drain, Label, arrived, finished, silent, peer_closed, cleared, Drain, drain_step,
  take_next, settle_queue, connection_closed, close_entry, Server, Step, arrive, run,
  closes_connection, clears_queues,
}
use rs_modbus.Slave.Queues.Serial.{
  drainers, tasks_at, tasks_after, Balanced, IsSerial, ClearsIdle, no_entry,
}
use rs_modbus.Slave.Queues.View.{
  Elsewhere, FifoStep, pushes, begins, ends, discards, elsewhere, items_of, seen_by,
  in_service-spawn, served_same, served_next, served_after, served_other,
}

module _ (before : List Task) (c : ConnectionId) (after : List Task) where
  abbrev RunsAs : Phase → Queues → Drain → Type 0
  RunsAs phase queues d =
      FifoStep c (seen_by c (record { queues = queues; tasks = tasks_at before c after phase }))
        (seen_by c (record { queues = d.queues; tasks = tasks_after before c after d })) d.label

  module _ (queues : Queues) where
    taking-FifoStep :
        (o : Option QueueEntry)
        → lookup c queues ≡ o
        → Balanced o (drainers c (tasks_at before c after taking))
        → RunsAs taking queues (elim o [
          | none ↦ bail queues
          | some entry ↦ take_next c queues entry.processing entry.items
        ])
    taking-FifoStep none e h = no_entry before c after taking h
    taking-FifoStep (some entry) e (p, h) = by_items entry.items (ap items_of e)
      where
        by_items :
            (items : List Item)
            → items_of (lookup c queues) ≡ items
            → RunsAs taking queues (take_next c queues entry.processing items)
        by_items [] e = elsewhere silent tt refl (
            served_next before c after taking settling h
            ∙ sym (served_same before c after taking h))
        by_items (item ∷ items) e =
            begins item (served_same before c after taking h)
              (e
                ∙ ap (λ o. item ∷ items_of o)
                    (sym (
                      lookup-insert_self c (record { items = items; processing = entry.processing })
                        queues)))
              (served_next before c after taking (serving item) h)

    settling-FifoStep :
        (o : Option QueueEntry)
        → lookup c queues ≡ o
        → Balanced o (drainers c (tasks_at before c after settling))
        → RunsAs settling queues
            (elim o [ none ↦ bail queues | some entry ↦ settle_queue c queues entry.items ])
    settling-FifoStep none e h = no_entry before c after settling h
    settling-FifoStep (some entry) e (p, h) = by_items entry.items (ap items_of e)
      where
        by_items :
            (items : List Item)
            → items_of (lookup c queues) ≡ items
            → RunsAs settling queues (settle_queue c queues items)
        by_items [] e =
            elsewhere silent tt (rw (lookup-remove c c queues, beq_self c) (sym e))
              (served_after before c after settling h ∙ sym (served_same before c after settling h))
        by_items (item ∷ items) e = elsewhere silent tt refl (
            served_next before c after settling taking h
            ∙ sym (served_same before c after settling h))

    run-FifoStep :
        (phase : Phase)
        → IsSerial (record { queues = queues; tasks = tasks_at before c after phase })
        → RunsAs phase queues (drain_step c phase queues)
    unfolding drain_step IsSerial
    run-FifoStep taking h = taking-FifoStep (lookup c queues) refl (h c)
    run-FifoStep (serving item) h = by_entry (lookup c queues) (h c)
      where
        by_entry :
            (o : Option QueueEntry)
            → Balanced o (drainers c (tasks_at before c after (serving item)))
            → RunsAs
                (serving item)
                queues
                (record { queues = queues; next = some taking; label = finished c })
        by_entry none h = no_entry before c after (serving item) h
        by_entry (some entry) (p, h) =
            ends item (served_same before c after (serving item) h)
              (served_next before c after (serving item) taking h) refl
    run-FifoStep settling h = settling-FifoStep (lookup c queues) refl (h c)

    -- A step is about the connection of the task.
    abbrev Aside : ConnectionId → Drain → Type 0
    Aside j d = Elsewhere j d.label × (lookup j d.queues ≡ lookup j queues)

    take_next-Aside :
        (j : ConnectionId) (p : Bool) (items : List Item)
        → c ≢ j
        → Aside j (take_next c queues p items)
    take_next-Aside j p [] n = (tt, refl)
    take_next-Aside j p (item ∷ items) n =
        (n, ground (arith, n, lookup-insert c j (record { items = items; processing = p }) queues))

    settle-Aside :
        (j : ConnectionId) (items : List Item) → c ≢ j → Aside j (settle_queue c queues items)
    settle-Aside j [] n = (tt, ground (arith, n, lookup-remove c j queues))
    settle-Aside j (item ∷ items) n = (tt, refl)

    drain_step-Aside :
        (j : ConnectionId) (phase : Phase) → c ≢ j → Aside j (drain_step c phase queues)
    unfolding drain_step
    drain_step-Aside j taking n =
        elim (lookup c queues)
          as (λ o. Aside j (elim o [
            | none ↦ bail queues
            | some entry ↦ take_next c queues entry.processing entry.items
          ])) [ none ↦ (tt, refl) | some entry ↦ take_next-Aside j entry.processing entry.items n ]
    drain_step-Aside j (serving item) n = (n, refl)
    drain_step-Aside j settling n =
        elim (lookup c queues)
          as (λ o.
            Aside j
              (elim o [ none ↦ bail queues | some entry ↦ settle_queue c queues entry.items ])) [
                | none ↦ (tt, refl)
                | some entry ↦ settle-Aside j entry.items n
              ]

    run_elsewhere :
        (j : ConnectionId) (phase : Phase)
        → c ≢ j
        → FifoStep j
            (seen_by j (record { queues = queues; tasks = tasks_at before c after phase }))
            (seen_by j (record {
              queues = (drain_step c phase queues).queues;
              tasks = tasks_after before c after (drain_step c phase queues);
            }))
            (drain_step c phase queues).label
    run_elsewhere j phase n =
        let (label, entry) = drain_step-Aside j phase n in
        elsewhere (drain_step c phase queues).label label (ap items_of entry)
          (served_other before c after j (drain_step c phase queues).next (some phase) n)

or_insert-items_of :
    (item : Item) (o : Option QueueEntry)
    → (or_insert o).items ++ (item ∷ []) ≡ items_of o ++ (item ∷ [])
or_insert-items_of item none = refl
or_insert-items_of item (some entry) = refl

closed_same :
    (c : ConnectionId) (queues : Queues) → items_of (lookup c (connection_closed c queues)) ≡ []
unfolding connection_closed
closed_same c queues = by_entry (lookup c queues) refl
  where
    by_entry :
        (o : Option QueueEntry)
        → lookup c queues ≡ o
        → items_of (lookup c (close_entry c queues o)) ≡ []
    by_entry none e = rw e refl
    by_entry (some entry) e = elim (Bool-cases entry.processing) [
      | inl p ↦ rw (p, lookup-insert_self c (record { items = []; processing = true }) queues) refl
      | inr p ↦ rw (p, lookup-remove c c queues, beq_self c) refl
    ]

closed_other :
    (c j : ConnectionId) (queues : Queues)
    → c ≢ j
    → lookup j (connection_closed c queues) ≡ lookup j queues
unfolding connection_closed
closed_other c j queues n = ground (
  arith,
  n,
  lookup-remove c j queues,
  lookup-insert c j (record { items = []; processing = true }) queues,
)

nothing_waits : (o : Option QueueEntry) (n : ℕ) → Balanced o n → n ≡ 0 → items_of o ≡ []
nothing_waits none n b e = refl
nothing_waits (some entry) n (p, b) e = ground (arith, b, e)

arrive-FifoStep :
    (c j : ConnectionId) (item : Item) (s : Server)
    → FifoStep j (seen_by j s) (seen_by j (enqueue_and_drain c item s)) (arrived c item)
unfolding enqueue_and_drain enqueue
arrive-FifoStep c j item s = elim (Bool-cases (c == j)) [
  | inl e ↦
      subst
        (λ j. FifoStep j (seen_by j s) (seen_by j (enqueue_and_drain c item s)) (arrived c item))
        (ground (arith, e))
        (pushes item
          (rw
            (lookup-insert_self c
              (record {
                items = (or_insert (lookup c s.queues)).items ++ (item ∷ []);
                processing = true;
              })
              s.queues)
            (or_insert-items_of item (lookup c s.queues)))
          (in_service-spawn c c s.tasks (lookup c s.queues)))
  | inr e ↦
      elsewhere (arrived c item) (λ x. ground (arith, e, x))
        (rw
          (
            lookup-insert c j
                (record {
                  items = (or_insert (lookup c s.queues)).items ++ (item ∷ []);
                  processing = true;
                })
                s.queues,
            e,
          )
          refl)
        (in_service-spawn c j s.tasks (lookup c s.queues))
]

close-FifoStep :
    (c j : ConnectionId) (s : Server)
    → FifoStep j
        (seen_by j s)
        (seen_by j (record { queues = connection_closed c s.queues; tasks = s.tasks }))
        (peer_closed c)
unfolding connection_closed
close-FifoStep c j s = elim (Bool-cases (c == j)) [
  | inl e ↦
      subst
        (λ j.
          FifoStep j (seen_by j s)
            (seen_by j (record { queues = connection_closed c s.queues; tasks = s.tasks }))
            (peer_closed c))
        (ground (arith, e)) (discards (closed_same c s.queues) refl)
  | inr e ↦
      elsewhere (peer_closed c) (λ x. ground (arith, e, x))
        (ap items_of (closed_other c j s.queues (λ x. ground (arith, e, x)))) refl
]

run-seen_by :
    (before : List Task) (c : ConnectionId) (phase : Phase) (after : List Task) (queues : Queues)
    (j : ConnectionId)
    → IsSerial (record { queues = queues; tasks = tasks_at before c after phase })
    → FifoStep j
        (seen_by j (record { queues = queues; tasks = tasks_at before c after phase }))
        (seen_by j (record {
          queues = (drain_step c phase queues).queues;
          tasks = tasks_after before c after (drain_step c phase queues);
        }))
        (drain_step c phase queues).label
run-seen_by before c phase after queues j h = elim (Bool-cases (c == j)) [
  | inl e ↦
      subst
        (λ j.
          FifoStep j (seen_by j (record { queues = queues; tasks = tasks_at before c after phase }))
            (seen_by j (record {
              queues = (drain_step c phase queues).queues;
              tasks = tasks_after before c after (drain_step c phase queues);
            }))
            (drain_step c phase queues).label)
        (ground (arith, e)) (run-FifoStep before c after queues phase h)
  | inr e ↦ run_elsewhere before c after queues j phase (λ x. ground (arith, e, x))
]

-- From a state in which each connection with an entry has exactly one drain task, and no other
-- connection has one, whatever a server does next, other than to clear its queues while a task runs,
-- is for every connection a step of a queue that serves one frame at a time: a frame that arrives
-- goes last, a frame is taken when none is served, it is the first one, and a close of the connection
-- discards those that wait.
pub Step-FifoStep :
    (s s' : Server) (l : Label) (j : ConnectionId)
    → Step s l s'
    → ClearsIdle s l
    → IsSerial s
    → FifoStep j (seen_by j s) (seen_by j s') l
unfolding ClearsIdle IsSerial lookup drainers
Step-FifoStep s s' l j (arrive c item) k h = arrive-FifoStep c j item s
Step-FifoStep s s' l j (run before c phase after e) k h =
    subst
      (λ tasks.
        FifoStep j (seen_by j (record { queues = s.queues; tasks = tasks })) (seen_by j s') l)
      (sym e)
      (run-seen_by before c phase after s.queues j
        (subst (λ tasks. IsSerial (record { queues = s.queues; tasks = tasks })) e h))
Step-FifoStep s s' l j (closes_connection c) k h = close-FifoStep c j s
Step-FifoStep s s' l j clears_queues k h =
    elsewhere cleared tt
      (sym
        (nothing_waits (lookup j s.queues) (drainers j s.tasks) (h j) (ap (drainers j) (k refl))))
      refl
