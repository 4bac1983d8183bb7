-- ===== src/Slave/Lifecycle/Waiting.antt =====
-- src/slave.rs: the frames that wait in the queues, through what the tasks do with the queues.
use rs_modbus.Prelude.{
  ◌≡◌, refl, subst, arith, Option, none, some, Bool, true, false, List, [], ◌∷◌, ◌++◌,
  if◌then◌else◌, ◌==◌, Bool-cases, ◌⊎◌, inl, inr, All,
}
use rs_modbus.Prelude.HashMap.{lookup, insert, remove, nat_eq, lookup-insert, lookup-remove}
use rs_modbus.Types.{ConnectionId}
use rs_modbus.Slave.Queues.{
  Item, QueueEntry, Queues, Phase, taking, serving, settling, or_insert, enqueue, enqueue_and_drain,
  bail, Drain, drain_step, take_next, settle_queue, close_entry, Server,
}
use rs_modbus.Slave.Queues.View.{items_of}

abbrev pub IsOneOf : {A : Type 0} → A → List A → Type 0
IsOneOf x [] = ⊥
IsOneOf x (y ∷ ys) = (x ≡ y) ⊎ IsOneOf x ys

-- Every frame that waits is one of `frames`.
abbrev pub AllWaiting : List (ConnectionId × Item) → Queues → Type 0
AllWaiting frames queues =
    (c : ConnectionId) → All (λ item. IsOneOf (c, item) frames) (items_of (lookup c queues))

All-IsOneOf :
    {A : Type 0} (ys : List A) (xs : List A) (zs : List A)
    → ((x : A) → IsOneOf x ys → IsOneOf x zs)
    → All (λ x. IsOneOf x ys) xs
    → All (λ x. IsOneOf x zs) xs
All-IsOneOf ys [] zs f h = tt
All-IsOneOf ys (x ∷ xs) zs f (p, h) = (f x p, All-IsOneOf ys xs zs f h)

pub all_of : {A : Type 0} (xs : List A) → All (λ x. IsOneOf x xs) xs
all_of [] = tt
all_of (x ∷ xs) = (inl refl, All-IsOneOf xs xs (x ∷ xs) (λ y p. inr p) (all_of xs))

All-one {ℓ κ} :
    {A : Type ℓ} (Q : A → Type κ) (xs : List A) (x : A) → All Q xs → Q x → All Q (xs ++ (x ∷ []))
All-one Q [] x h p = (p, tt)
All-one Q (y ∷ xs) x (q, h) p = (q, All-one Q xs x h p)

module _ (frames : List (ConnectionId × Item)) where
  waiting-insert :
      (c : ConnectionId) (entry : QueueEntry) (queues : Queues)
      → All (λ item. IsOneOf (c, item) frames) entry.items
      → AllWaiting frames queues
      → AllWaiting frames (insert c entry queues)
  waiting-insert c entry queues p h j = elim (Bool-cases (c == j)) [
    | inl e ↦
        rw (lookup-insert c j entry queues, e)
          (subst (λ k. All (λ item. IsOneOf (k, item) frames) entry.items) (ground (arith, e)) p)
    | inr e ↦ rw (lookup-insert c j entry queues, e) (h j)
  ]

  waiting-remove :
      (c : ConnectionId) (queues : Queues)
      → AllWaiting frames queues
      → AllWaiting frames (remove c queues)
  waiting-remove c queues h j = elim (Bool-cases (c == j)) [
    | inl e ↦ rw (lookup-remove c j queues, e) tt
    | inr e ↦ rw (lookup-remove c j queues, e) (h j)
  ]

  pub waiting-push :
      (c : ConnectionId) (item : Item) (s : Server)
      → IsOneOf (c, item) frames
      → AllWaiting frames s.queues
      → AllWaiting frames (enqueue_and_drain c item s).queues
  unfolding enqueue_and_drain enqueue
  waiting-push c item s p h =
      waiting-insert c
        (record { items = (or_insert (lookup c s.queues)).items ++ (item ∷ []); processing = true })
        s.queues
        (All-one (λ x. IsOneOf (c, x) frames) (or_insert (lookup c s.queues)).items item
          (present (lookup c s.queues) (h c)) p)
        h
    where
      present :
          (o : Option QueueEntry)
          → All (λ x. IsOneOf (c, x) frames) (items_of o)
          → All (λ x. IsOneOf (c, x) frames) (or_insert o).items
      present none q = tt
      present (some entry) q = q

  waiting-take_next :
      (c : ConnectionId) (queues : Queues) (p : Bool) (items : List Item)
      → All (λ item. IsOneOf (c, item) frames) items
      → AllWaiting frames queues
      → AllWaiting frames (take_next c queues p items).queues
  waiting-take_next c queues p [] q h = h
  waiting-take_next c queues p (item ∷ items) (first, q) h =
      waiting-insert c (record { items = items; processing = p }) queues q h

  waiting-settle_queue :
      (c : ConnectionId) (queues : Queues) (items : List Item)
      → AllWaiting frames queues
      → AllWaiting frames (settle_queue c queues items).queues
  waiting-settle_queue c queues [] h = waiting-remove c queues h
  waiting-settle_queue c queues (item ∷ items) h = h

  pub waiting-drain_step :
      (c : ConnectionId) (phase : Phase) (queues : Queues)
      → AllWaiting frames queues
      → AllWaiting frames (drain_step c phase queues).queues
  unfolding drain_step
  waiting-drain_step c taking queues h = by_entry (lookup c queues) (h c)
    where
      by_entry :
          (o : Option QueueEntry)
          → All (λ item. IsOneOf (c, item) frames) (items_of o)
          → AllWaiting frames
              (elim o as (λ x. Drain) [
                | none ↦ bail queues
                | some entry ↦ take_next c queues entry.processing entry.items
              ]).queues
      by_entry none q = h
      by_entry (some entry) q = waiting-take_next c queues entry.processing entry.items q h
  waiting-drain_step c (serving item) queues h = h
  waiting-drain_step c settling queues h = by_entry (lookup c queues)
    where
      by_entry :
          (o : Option QueueEntry)
          → AllWaiting frames
              (elim o as (λ x. Drain) [
                | none ↦ bail queues
                | some entry ↦ settle_queue c queues entry.items
              ]).queues
      by_entry none = h
      by_entry (some entry) = waiting-settle_queue c queues entry.items h

  pub waiting-close_entry :
      (c : ConnectionId) (queues : Queues) (o : Option QueueEntry)
      → AllWaiting frames queues
      → AllWaiting frames (close_entry c queues o)
  waiting-close_entry c queues none h = h
  waiting-close_entry c queues (some entry) h = by_processing entry.processing
    where
      by_processing :
          (b : Bool)
          → AllWaiting frames (
              if b
              then insert c (record { items = []; processing = true }) queues
              else remove c queues)
      by_processing true = waiting-insert c (record { items = []; processing = true }) queues tt h
      by_processing false = waiting-remove c queues h
