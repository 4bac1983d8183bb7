-- ===== src/Slave/Queues/Serial.antt =====
-- src/slave.rs: the drain tasks of the queues, however they interleave.
use rs_modbus.Prelude.{
  ℕ, ◌+◌, ◌≡◌, ◌≢◌, inl, inr, refl, ap, ◌∙◌, sym, subst, arith, Option, none, some, true, false,
  List, [], ◌∷◌, ◌++◌, if◌then◌else◌, ◌==◌, Bool-cases,
}
use rs_modbus.Prelude.HashMap.{lookup, insert, remove, nat_eq, lookup-insert, lookup-remove}
use rs_modbus.Types.{ConnectionId}
use rs_modbus.Slave.Queues.{
  bail, Item, QueueEntry, Queues, Phase, taking, serving, settling, Task, or_insert, enqueue,
  enqueue_and_drain, Label, cleared, Drain, drain_step, take_next, settle_queue, connection_closed,
  close_entry, Server, Step, arrive, run, closes_connection, clears_queues, continued,
}

-- The number of tasks that drain the queue of a connection.
unfoldable pub drainers : ConnectionId → List Task → ℕ
drainers c [] = 0
drainers c (t ∷ tasks) = let rest = drainers c tasks in if t.connection == c then 1 + rest else rest

pub drainers-append :
    (c : ConnectionId) (xs ys : List Task) → drainers c (xs ++ ys) ≡ drainers c xs + drainers c ys
unfolding drainers
drainers-append c [] ys = omega arith
drainers-append c (x ∷ xs) ys = ground (arith, drainers-append c xs ys)

-- A connection with an entry has one task, which the entry knows of, and another has none.
abbrev pub Balanced : Option QueueEntry → ℕ → Type 0
Balanced none n = n ≡ 0
Balanced (some entry) n = (entry.processing ≡ true) × (n ≡ 1)

unfoldable pub IsSerial : Server → Type 0
IsSerial s = (c : ConnectionId) → Balanced (lookup c s.queues) (drainers c s.tasks)

-- The balance of a connection `j` after a change of the entry of `c`.
pub Balanced-insert :
    (c j : ConnectionId) (entry : QueueEntry) (queues : Queues) (n : ℕ)
    → (c ≡ j → (entry.processing ≡ true) × (n ≡ 1))
    → (c ≢ j → Balanced (lookup j queues) n)
    → Balanced (lookup j (insert c entry queues)) n
Balanced-insert c j entry queues n same other = elim (Bool-cases (c == j)) [
  | inl e ↦ rw (lookup-insert c j entry queues, e) (same (ground (arith, e)))
  | inr e ↦ rw (lookup-insert c j entry queues, e) (other (λ x. ground (arith, e, x)))
]

pub Balanced-remove :
    (c j : ConnectionId) (queues : Queues) (n : ℕ)
    → (c ≡ j → n ≡ 0)
    → (c ≢ j → Balanced (lookup j queues) n)
    → Balanced (lookup j (remove c queues)) n
Balanced-remove c j queues n same other = elim (Bool-cases (c == j)) [
  | inl e ↦ rw (lookup-remove c j queues, e) (same (ground (arith, e)))
  | inr e ↦ rw (lookup-remove c j queues, e) (other (λ x. ground (arith, e, x)))
]

module _ (c : ConnectionId) (tasks : List Task) where
  abbrev pub spawn : Option QueueEntry → List Task
  spawn o =
      if (if (or_insert o).processing then false else true)
      then record { connection = c; phase = taking } ∷ tasks
      else tasks

  spawn_same : (o : Option QueueEntry) → Balanced o (drainers c tasks) → drainers c (spawn o) ≡ 1
  unfolding drainers
  spawn_same none h = ground (arith, h)
  spawn_same (some entry) (p, h) = ground (arith, p, h)

  spawn_other :
      (o : Option QueueEntry) (j : ConnectionId) → c ≢ j → drainers j (spawn o) ≡ drainers j tasks
  unfolding drainers
  spawn_other o j n = ground (arith, n)

arrive-IsSerial :
    (c : ConnectionId) (item : Item) (s : Server)
    → IsSerial s
    → IsSerial (enqueue_and_drain c item s)
unfolding IsSerial enqueue_and_drain enqueue
arrive-IsSerial c item s h j =
    let o = lookup c s.queues in
    Balanced-insert c j (record { items = (or_insert o).items ++ (item ∷ []); processing = true })
      s.queues (drainers j (spawn c s.tasks o))
      (λ e.
        (refl, subst (λ j. drainers j (spawn c s.tasks o) ≡ 1) e (spawn_same c s.tasks o (h c))))
      (λ n. subst (Balanced (lookup j s.queues)) (sym (spawn_other c s.tasks o j n)) (h j))

close-IsSerial :
    (c : ConnectionId) (s : Server)
    → IsSerial s
    → IsSerial (record { queues = connection_closed c s.queues; tasks = s.tasks })
unfolding IsSerial connection_closed
close-IsSerial c s h j = by_entry (lookup c s.queues) (h c)
  where
    by_entry :
        (o : Option QueueEntry)
        → Balanced o (drainers c s.tasks)
        → Balanced (lookup j (close_entry c s.queues o)) (drainers j s.tasks)
    by_entry none hc = h j
    by_entry (some entry) (p, hc) = rw p (
        Balanced-insert c j (record { items = []; processing = true }) s.queues (drainers j s.tasks)
          (λ e. (refl, subst (λ j. drainers j s.tasks ≡ 1) e hc)) (λ n. h j))

module _ (before : List Task) (c : ConnectionId) (after : List Task) where
  abbrev pub tasks_at : Phase → List Task
  tasks_at phase = before ++ (record { connection = c; phase = phase } ∷ after)

  abbrev pub tasks_after : Drain → List Task
  tasks_after d = before ++ (continued c d.next ++ after)

  pub drainers-at :
      (j : ConnectionId) (phase : Phase)
      → drainers j (tasks_at phase)
        ≡ drainers j before + drainers j after + (if c == j then 1 else 0)
  unfolding drainers
  drainers-at j phase =
      ground (arith, drainers-append j before (record { connection = c; phase = phase } ∷ after))

  pub moved :
      (j : ConnectionId) (phase next : Phase)
      → drainers j (tasks_at phase) ≡ drainers j (tasks_at next)
  moved j phase next = drainers-at j phase ∙ sym (drainers-at j next)

  pub ended_same :
      (phase : Phase) → drainers c (tasks_at phase) ≡ 1 → drainers c (before ++ after) ≡ 0
  ended_same phase h = ground (arith, h, drainers-at c phase, drainers-append c before after)

  ended_other :
      (j : ConnectionId) (phase : Phase)
      → c ≢ j
      → drainers j (tasks_at phase) ≡ drainers j (before ++ after)
  ended_other j phase n = ground (arith, n, drainers-at j phase, drainers-append j before after)

  -- The task has an entry.
  pub no_entry {ℓ} : {A : Type ℓ} → (phase : Phase) → drainers c (tasks_at phase) ≡ 0 → A
  no_entry phase h = ground (arith, h, drainers-at c phase)

  abbrev NextBalanced : Drain → Type 0
  NextBalanced d = (j : ConnectionId) → Balanced (lookup j d.queues) (drainers j (tasks_after d))

  module _ (queues : Queues) where
    taking-IsSerial :
        (o : Option QueueEntry)
        → IsSerial (record { queues = queues; tasks = tasks_at taking })
        → Balanced o (drainers c (tasks_at taking))
        → NextBalanced (elim o [
          | none ↦ bail queues
          | some entry ↦ take_next c queues entry.processing entry.items
        ])
    unfolding IsSerial
    taking-IsSerial none h hc = no_entry taking hc
    taking-IsSerial (some entry) h (p, hc) = by_items entry.items
      where
        by_items : (items : List Item) → NextBalanced (take_next c queues entry.processing items)
        by_items [] j = subst (Balanced (lookup j queues)) (moved j taking settling) (h j)
        by_items (item ∷ items) j =
            Balanced-insert c j (record { items = items; processing = entry.processing }) queues
              (drainers j (tasks_at (serving item)))
              (λ e. (
                p,
                subst (λ j. drainers j (tasks_at (serving item)) ≡ 1) e
                    (sym (moved c taking (serving item)) ∙ hc),
              ))
              (λ n. subst (Balanced (lookup j queues)) (moved j taking (serving item)) (h j))

    settling-IsSerial :
        (o : Option QueueEntry)
        → IsSerial (record { queues = queues; tasks = tasks_at settling })
        → Balanced o (drainers c (tasks_at settling))
        → NextBalanced
            (elim o [ none ↦ bail queues | some entry ↦ settle_queue c queues entry.items ])
    unfolding IsSerial
    settling-IsSerial none h hc = no_entry settling hc
    settling-IsSerial (some entry) h (p, hc) = by_items entry.items
      where
        by_items : (items : List Item) → NextBalanced (settle_queue c queues items)
        by_items [] j =
            Balanced-remove c j queues (drainers j (before ++ after))
              (λ e. subst (λ j. drainers j (before ++ after) ≡ 0) e (ended_same settling hc))
              (λ n. subst (Balanced (lookup j queues)) (ended_other j settling n) (h j))
        by_items (item ∷ items) j =
            subst (Balanced (lookup j queues)) (moved j settling taking) (h j)

    run-IsSerial :
        (phase : Phase)
        → IsSerial (record { queues = queues; tasks = tasks_at phase })
        → IsSerial (record {
          queues = (drain_step c phase queues).queues;
          tasks = tasks_after (drain_step c phase queues);
        })
    unfolding IsSerial drain_step
    run-IsSerial taking h j = taking-IsSerial (lookup c queues) h (h c) j
    run-IsSerial (serving item) h j =
        subst (Balanced (lookup j queues)) (moved j (serving item) taking) (h j)
    run-IsSerial settling h j = settling-IsSerial (lookup c queues) h (h c) j

-- The queues are not cleared as long as a task runs.
unfoldable pub ClearsIdle : Server → Label → Type 0
ClearsIdle s l = l ≡ cleared → s.tasks ≡ []

-- Whatever a server does, other than clears_queues its queues while a task drains one, each connection that
-- has an entry keeps exactly one task that drains it, and each other one has none.
pub Step-IsSerial :
    (s s' : Server) (l : Label) → Step s l s' → ClearsIdle s l → IsSerial s → IsSerial s'
unfolding ClearsIdle IsSerial lookup drainers
Step-IsSerial s s' l (arrive c item) k h = arrive-IsSerial c item s h
Step-IsSerial s s' l (run before c phase after e) k h =
    run-IsSerial before c after s.queues phase
      (subst (λ tasks. IsSerial (record s { tasks = tasks })) e h)
Step-IsSerial s s' l (closes_connection c) k h = close-IsSerial c s h
Step-IsSerial s s' l clears_queues k h = λ j. ap (drainers j) (k refl)
