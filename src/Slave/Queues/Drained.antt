-- ===== src/Slave/Queues/Drained.antt =====
-- src/slave.rs: the drain task of a connection, when it runs on.
use rs_modbus.Prelude.{
  ℕ, ◌+◌, ◌≡◌, refl, ap, ◌∙◌, sym, subst, arith, Option, none, some, Bool, List, [], ◌∷◌, ◌++◌,
  ◌==◌, Bool-cases, inl, inr,
}
use rs_modbus.Prelude.HashMap.{
  lookup, insert, remove, nat_eq, lookup-insert_self, lookup-remove, beq_self,
}
use rs_modbus.Types.{ConnectionId}
use rs_modbus.Slave.Queues.{
  bail, Item, QueueEntry, Queues, Phase, taking, serving, settling, Task, Label, arrived, started,
  finished, silent, peer_closed, cleared, Drain, drain_step, take_next, settle_queue, Server, Step,
  run,
}
use rs_modbus.Slave.Queues.Serial.{drainers, tasks_at, tasks_after, Balanced, IsSerial, ended_same}
use rs_modbus.Slave.Queues.View.{items_of, seen_by, not_served}

-- A step of the task that drains a connection.
abbrev pub IsDrain : ConnectionId → Label → Type 0
IsDrain c (arrived j item) = ⊥
IsDrain c (started j item) = c ≡ j
IsDrain c (finished j) = c ≡ j
IsDrain c silent = Unit
IsDrain c (peer_closed j) = ⊥
IsDrain c cleared = ⊥

abbrev pub starts : Label → List Item
starts (arrived j item) = []
starts (started j item) = item ∷ []
starts (finished j) = []
starts silent = []
starts (peer_closed j) = []
starts cleared = []

-- Steps of the drain of a connection, and the frames that it starts to serve.
pub data Drains (c : ConnectionId) : Server → List Item → Server → Type 0 where
  drained : (s : Server) → Drains c s [] s
  go :
      (s s' s'' : Server) (l : Label) (items : List Item)
      → Step s l s'
      → IsDrain c l
      → Drains c s' items s''
      → Drains c s (starts l ++ items) s''

taking-entry :
    (c : ConnectionId) (queues : Queues) (entry : QueueEntry)
    → lookup c queues ≡ some entry
    → drain_step c taking queues ≡ take_next c queues entry.processing entry.items
unfolding drain_step
taking-entry c queues entry e =
    ap
      (λ o. elim o as (λ x. Drain) [
        | none ↦ bail queues
        | some entry ↦ take_next c queues entry.processing entry.items
      ])
      e

settling-entry :
    (c : ConnectionId) (queues : Queues) (entry : QueueEntry)
    → lookup c queues ≡ some entry
    → drain_step c settling queues ≡ settle_queue c queues entry.items
unfolding drain_step
settling-entry c queues entry e =
    ap
      (λ o. elim o as (λ x. Drain) [
        | none ↦ bail queues
        | some entry ↦ settle_queue c queues entry.items
      ])
      e

module _ (before : List Task) (c : ConnectionId) (after : List Task) where
  abbrev at : Queues → Phase → Server
  at queues phase = record { queues = queues; tasks = tasks_at before c after phase }

  abbrev gone : Queues → Server
  gone queues = record { queues = queues; tasks = before ++ after }

  drain-Step :
      (queues : Queues) (phase : Phase) (d : Drain)
      → drain_step c phase queues ≡ d
      → Step
          (at queues phase)
          d.label
          (record { queues = d.queues; tasks = tasks_after before c after d })
  drain-Step queues phase d e =
      subst
        (λ d.
          Step (at queues phase) d.label
            (record { queues = d.queues; tasks = tasks_after before c after d }))
        e (run before c phase after refl)

  -- The task serves every frame that waits, in order, and ends with the entry removed.
  Serves : Queues → Phase → List Item → Type 0
  Serves queues phase items =
      (queues' : Queues) × Drains c (at queues phase) items (gone queues')
      × (lookup c queues' ≡ none)

  Serves-taking :
      (queues : Queues) (p : Bool) (items : List Item)
      → lookup c queues ≡ some (record { items = items; processing = p })
      → Serves queues taking items
  unfolding Serves drain_step
  Serves-taking queues p [] e = (
    remove c queues,
    go (at queues taking) (at queues settling) (gone (remove c queues)) silent []
        (drain-Step queues taking (take_next c queues p [])
          (taking-entry c queues (record { items = []; processing = p }) e))
        tt
        (go (at queues settling) (gone (remove c queues)) (gone (remove c queues)) silent []
          (drain-Step queues settling (settle_queue c queues [])
            (settling-entry c queues (record { items = []; processing = p }) e))
          tt (drained (gone (remove c queues)))),
    rw (lookup-remove c c queues, beq_self c) refl,
  )
  Serves-taking queues p (item ∷ items) e =
      let next = insert c (record { items = items; processing = p }) queues in
      let (queues', drains, left) =
        Serves-taking next p items
          (lookup-insert_self c (record { items = items; processing = p }) queues) in
      (
        queues',
        go (at queues taking) (at next (serving item)) (gone queues') (started c item) items
            (drain-Step queues taking (take_next c queues p (item ∷ items))
              (taking-entry c queues (record { items = item ∷ items; processing = p }) e))
            refl
            (go (at next (serving item)) (at next taking) (gone queues') (finished c) items
              (drain-Step next (serving item)
                (record { queues = next; next = some taking; label = finished c }) refl)
              refl drains),
        left,
      )

  -- From any phase of the task.
  Serves-entry :
      (queues : Queues) (phase : Phase) (entry : QueueEntry)
      → lookup c queues ≡ some entry
      → Serves queues phase entry.items
  unfolding Serves drain_step
  Serves-entry queues taking entry e = Serves-taking queues entry.processing entry.items e
  Serves-entry queues (serving item) entry e =
      let (queues', drains, left) = Serves-taking queues entry.processing entry.items e in
      (
        queues',
        go (at queues (serving item)) (at queues taking) (gone queues') (finished c) entry.items
            (drain-Step queues (serving item)
              (record { queues = queues; next = some taking; label = finished c }) refl)
            refl drains,
        left,
      )
  Serves-entry queues settling entry e = by_items entry.items e
    where
      by_items :
          (items : List Item)
          → lookup c queues ≡ some (record { items = items; processing = entry.processing })
          → Serves queues settling items
      by_items [] e = (
        remove c queues,
        go (at queues settling) (gone (remove c queues)) (gone (remove c queues)) silent []
            (drain-Step queues settling (settle_queue c queues [])
              (settling-entry c queues (record { items = []; processing = entry.processing }) e))
            tt (drained (gone (remove c queues))),
        rw (lookup-remove c c queues, beq_self c) refl,
      )
      by_items (item ∷ items) e =
          let (queues', drains, left) = Serves-taking queues entry.processing (item ∷ items) e in
          (
            queues',
            go (at queues settling) (at queues taking) (gone queues') silent (item ∷ items)
                (drain-Step queues settling (settle_queue c queues (item ∷ items)) (
                  settling-entry c queues
                    (record { items = item ∷ items; processing = entry.processing }) e))
                tt drains,
            left,
          )

-- One of the tasks of a connection that has some.
find_task :
    (c : ConnectionId) (tasks : List Task) (n : ℕ)
    → drainers c tasks ≡ 1 + n
    → (before : List Task) × (phase : Phase) × (after : List Task) × (tasks
        ≡ tasks_at before c after phase)
unfolding drainers
find_task c [] n h = ground (arith, h)
find_task c (t ∷ tasks) n h = elim (Bool-cases (t.connection == c)) [
  | inl e ↦ ([], t.phase, tasks, ground (arith, e))
  | inr e ↦
      let (before, phase, after, split) = find_task c tasks n (ground (arith, h, e)) in
      (t ∷ before, phase, after, ap (λ tasks. t ∷ tasks) split)
]

-- A server whose queues are served by one task each can go on, by steps of the task of a connection
-- alone, to serve all the frames that wait on that connection, in order, after which nothing waits, no
-- frame of the connection is being served, no task of it is left, and its entry is removed.
pub IsSerial-Drains :
    (s : Server) (c : ConnectionId)
    → IsSerial s
    → (s' : Server) × Drains c s (seen_by c s).waiting s'
      × (seen_by c s' ≡ record { waiting = []; current = none })
      × (drainers c s'.tasks ≡ 0)
      × (lookup c s'.queues ≡ none)
unfolding IsSerial Serves
IsSerial-Drains s c h = by_entry (lookup c s.queues) refl (h c)
  where
    Drained : List Item → Type 0
    Drained items =
        (s' : Server) × Drains c s items s'
        × (seen_by c s' ≡ record { waiting = []; current = none })
        × (drainers c s'.tasks ≡ 0)
        × (lookup c s'.queues ≡ none)

    by_entry :
        (o : Option QueueEntry)
        → lookup c s.queues ≡ o
        → Balanced o (drainers c s.tasks)
        → Drained (items_of o)
    by_entry none e b = (s, drained s, rw (e, not_served c s.tasks b) refl, b, e)
    by_entry (some entry) e (p, b) =
        let (before, phase, after, split) = find_task c s.tasks 0 b in
        let (queues', drains, left) = Serves-entry before c after s.queues phase entry e in
        let none_left = ended_same before c after phase (sym (ap (drainers c) split) ∙ b) in
        (
          record { queues = queues'; tasks = before ++ after },
          subst
              (λ tasks.
                Drains c (record { queues = s.queues; tasks = tasks }) entry.items
                  (record { queues = queues'; tasks = before ++ after }))
              (sym split) drains,
          rw (left, not_served c (before ++ after) none_left) refl,
          none_left,
          left,
        )
