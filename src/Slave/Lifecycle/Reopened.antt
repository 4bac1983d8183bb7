-- ===== src/Slave/Lifecycle/Reopened.antt =====
-- src/slave.rs: a server that is closed and opened again, without a call of `destroy`.
use rs_modbus.Prelude.{
  ℕ, zero, suc, ◌+◌, ◌≡◌, refl, ap, ◌∙◌, sym, arith, some, Bool, true, false, ◌&&◌, List, [], ◌∷◌,
  ◌++◌, append_assoc, append-nil, length, replicate, if◌then◌else◌, ◌==◌, ok, Bool-cases, inl, inr,
}
use rs_modbus.Prelude.HashMap.{HashMap, lookup, nat_eq, lookup-insert_self}
use rs_modbus.Types.{ConnectionId}
use rs_modbus.Slave.Queues.{Item, Server, or_insert, enqueue, enqueue_and_drain}
use rs_modbus.Slave.Lifecycle.{
  PhysicalLayer, ModbusSlave, clean, cleaned, shut_down, clear_locks, set_level, listen_each,
  load_open, push_frame, on_framing, open_slave, closing, close,
}

enqueue-items :
    (c : ConnectionId) (item : Item) (s : Server) (items : List Item)
    → (or_insert (lookup c s.queues)).items ≡ items
    → lookup c (enqueue_and_drain c item s).queues
      ≡ some (record { items = items ++ (item ∷ []); processing = true })
unfolding enqueue_and_drain enqueue
enqueue-items c item s items e =
    rw
      (
        lookup-insert_self c
            (record {
              items = (or_insert (lookup c s.queues)).items ++ (item ∷ []);
              processing = true;
            })
            s.queues,
        e,
      )
      refl

-- A task of an open server queues the frame.
listens :
    {M F P : Type 0} (c : ConnectionId) (item : Item) (s : ModbusSlave M F P)
    → s.is_open ≡ true
    → (if s.is_open then push_frame c item s.pending (load_open c item s) else s)
      ≡ record s { server = enqueue_and_drain c item s.server }
unfolding push_frame load_open
listens c item s o =
    ap
      (λ b.
        if b
        then push_frame c item s.pending
            (if b then record s { pending = (c, item) ∷ s.pending } else s)
        else s)
      o

listen_each-items :
    {M F P : Type 0} (tasks : List (HashMap ℕ F)) (c : ConnectionId) (item : Item)
    (s : ModbusSlave M F P) (items : List Item)
    → s.is_open ≡ true
    → (or_insert (lookup c s.server.queues)).items ≡ items
    → (or_insert (lookup c (listen_each tasks c item s).server.queues)).items
      ≡ items ++ replicate (length tasks) item
unfolding push_frame load_open
listen_each-items [] c item s items o e = e ∙ sym (append-nil items)
listen_each-items (task ∷ tasks) c item s items o e =
    ap (λ s'. (or_insert (lookup c (listen_each tasks c item s').server.queues)).items)
      (listens c item s o)
    ∙ listen_each-items tasks c item (record s { server = enqueue_and_drain c item s.server })
        (items ++ (item ∷ [])) o
        (ap (λ q. (or_insert q).items) (enqueue-items c item s.server items e))
    ∙ append_assoc items (item ∷ []) (replicate (length tasks) item)

module _ {M F P : Type 0} (physical : PhysicalLayer P) where
  -- `n` times, the server is opened and closed.
  unfoldable pub cycles : ℕ → ModbusSlave M F P → ModbusSlave M F P
  unfolding open_slave close
  cycles zero s = s
  cycles (suc n) s = cycles n (close physical (open_slave physical s).1).1

  kept_by_clean :
      (level : ℕ) (s : ModbusSlave M F P) → (clean level s).framing_tasks ≡ s.framing_tasks
  unfolding clean cleaned shut_down clear_locks set_level
  kept_by_clean level s = elim (Bool-cases (s.clean_level == 2)) [
    | inl e ↦ rw e refl
    | inr e ↦ elim (Bool-cases (s.clean_level == 1 && level == 1)) [
      | inl x ↦ rw (e, x) refl
      | inr x ↦ rw (e, x) refl
    ]
  ]

  kept_by_close : (s : ModbusSlave M F P) → (close physical s).1.framing_tasks ≡ s.framing_tasks
  unfolding close closing
  kept_by_close s = by_level (s.clean_level == 2)
    where
      by_level :
          (b : Bool)
          → (if b then (ok tt, s) else closing physical s).1.framing_tasks ≡ s.framing_tasks
      by_level true = refl
      by_level false = kept_by_clean 1 s

  cycles-tasks :
      (n : ℕ) (s : ModbusSlave M F P)
      → length (cycles n s).framing_tasks ≡ n + length s.framing_tasks
  unfolding cycles open_slave
  cycles-tasks zero s = omega arith
  cycles-tasks (suc n) s =
      cycles-tasks n (close physical (open_slave physical s).1).1
      ∙ ap (λ tasks. n + length tasks) (kept_by_close (open_slave physical s).1)
      ∙ omega arith

  -- A frame that is announced to a server that had no task listening, as a new one, that was opened and
  -- closed `n` times, and opened again, is queued `n + 1` times.
  pub cycles-receive :
      (n : ℕ) (s : ModbusSlave M F P) (c : ConnectionId) (item : Item)
      → s.framing_tasks ≡ []
      → (or_insert
          (lookup c (on_framing c item (open_slave physical (cycles n s)).1).server.queues)).items
        ≡ replicate (n + 1) item
  unfolding on_framing open_slave lookup
  cycles-receive n s c item none_listen =
      let opened = (open_slave physical (cycles n s)).1 in
      listen_each-items opened.framing_tasks c item opened [] refl refl
      ∙ ap (λ k. replicate k item) listening
    where
      listening : length (open_slave physical (cycles n s)).1.framing_tasks ≡ n + 1
      listening = omega (arith, cycles-tasks n s, ap length none_listen)
