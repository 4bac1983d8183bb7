-- ===== src/Slave/AddressLock/Sorted.antt =====
-- src/slave.rs: the order of the mutexes in a call of `with_address_lock`.
use rs_modbus.Prelude.{
  ℕ, ◌+◌, ◌≤◌, ◌<◌, ◌≡◌, refl, ap, ◌∙◌, sym, subst, arith, Option, none, some, Bool, true, false,
  List, [], ◌∷◌, ◌++◌, append_assoc, map, All, if◌then◌else◌, ◌==◌, leb, Bool-cases, inl, inr, ◌⊎◌,
}
use rs_modbus.Prelude.HashMap.{
  HashMap, lookup, insert, remove, nat_eq, lookup-insert, lookup-remove,
}
use rs_modbus.Slave.AddressLock.{
  Mutex, no_locks, sorted_insert, sort, dedup_after, dedup, Call, Locks, fresh_or, collect, enter,
  is_shared, forget, clean_up, Step, enters, locks_one, releases, cleans, clears,
}

-- From each mutex on, the addresses grow.
abbrev pub Ascending : List Mutex → Type 0
Ascending [] = Unit
Ascending (m ∷ ms) = All (λ x. m.address < x.address) ms × Ascending ms

-- The numbers are in order, each at least `n`; or each above `n`, and without repetition.
abbrev NonDecreasing : ℕ → List ℕ → Type 0
NonDecreasing n [] = Unit
NonDecreasing n (x ∷ xs) = (n ≤ x) × NonDecreasing x xs

abbrev Increasing : ℕ → List ℕ → Type 0
Increasing n [] = Unit
Increasing n (x ∷ xs) = (n < x) × Increasing x xs

sorted_insert-NonDecreasing :
    (k n : ℕ) (xs : List ℕ) → k ≤ n → NonDecreasing k xs → NonDecreasing k (sorted_insert n xs)
unfolding sorted_insert
sorted_insert-NonDecreasing k n [] h i = (h, tt)
sorted_insert-NonDecreasing k n (x ∷ xs) h (hx, i) = elim (Bool-cases (leb n x)) [
  | inl e ↦ rw e (h, (ground (arith, e), i))
  | inr e ↦ rw e (hx, sorted_insert-NonDecreasing x n xs (ground (arith, e)) i)
]

sort-NonDecreasing : (xs : List ℕ) → NonDecreasing 0 (sort xs)
unfolding sort
sort-NonDecreasing [] = tt
sort-NonDecreasing (x ∷ xs) =
    sorted_insert-NonDecreasing 0 x (sort xs) (omega arith) (sort-NonDecreasing xs)

dedup_after-Increasing :
    (n : ℕ) (xs : List ℕ) → NonDecreasing n xs → Increasing n (dedup_after n xs)
unfolding dedup_after
dedup_after-Increasing n [] i = tt
dedup_after-Increasing n (x ∷ xs) (h, i) = elim (Bool-cases (n == x)) [
  | inl e ↦
      rw e (dedup_after-Increasing n xs (subst (λ k. NonDecreasing k xs) (ground (arith, e)) i))
  | inr e ↦ rw e (ground (arith, h, e), dedup_after-Increasing x xs i)
]

-- The addresses that a call locks, from its first one on.
abbrev IncreasingFrom : List ℕ → Type 0
IncreasingFrom [] = Unit
IncreasingFrom (x ∷ xs) = Increasing x xs

dedup-sort : (xs : List ℕ) → IncreasingFrom (dedup (sort xs))
unfolding dedup
dedup-sort xs = by_sorted (sort xs) (sort-NonDecreasing xs)
  where
    by_sorted : (xs : List ℕ) → NonDecreasing 0 xs → IncreasingFrom (dedup xs)
    by_sorted [] i = tt
    by_sorted (x ∷ xs) (h, i) = dedup_after-Increasing x xs i

-- The map keeps a mutex under the address it was made for.
unfoldable pub AreKeyed : HashMap ℕ Mutex → Type 0
AreKeyed locks = (a : ℕ) (m : Mutex) → lookup a locks ≡ some m → m.address ≡ a

fresh_or-address :
    (a serial : ℕ) (locks : HashMap ℕ Mutex)
    → AreKeyed locks
    → (fresh_or a serial (lookup a locks)).address ≡ a
unfolding AreKeyed
fresh_or-address a serial locks h = found (lookup a locks) (h a)
  where
    found :
        (o : Option Mutex)
        → ((m : Mutex) → o ≡ some m → m.address ≡ a)
        → (fresh_or a serial o).address ≡ a
    found none h = refl
    found (some m) h = h m refl

insert-AreKeyed :
    (a : ℕ) (m : Mutex) (locks : HashMap ℕ Mutex)
    → m.address ≡ a
    → AreKeyed locks
    → AreKeyed (insert a m locks)
unfolding AreKeyed
insert-AreKeyed a m locks e h b x y = elim (inserted a m locks b x y) [
  | inl (same, z) ↦ ap (λ m. m.address) (sym same) ∙ e ∙ z
  | inr z ↦ h b x z
]
  where
    inserted :
        (a : ℕ) (m : Mutex) (locks : HashMap ℕ Mutex) (b : ℕ) (x : Mutex)
        → lookup b (insert a m locks) ≡ some x
        → ((m ≡ x) × (a ≡ b)) ⊎ (lookup b locks ≡ some x)
    inserted a m locks b x y = ground (arith, y, lookup-insert a b m locks)

-- What `collect` gives: mutexes of the addresses, in their order.
collect-address :
    (addresses : List ℕ) (locks : HashMap ℕ Mutex) (serial : ℕ)
    → AreKeyed locks
    → (map (λ m. m.address) (collect addresses locks serial).0 ≡ addresses)
      × AreKeyed (collect addresses locks serial).1
unfolding collect
collect-address [] locks serial h = (refl, h)
collect-address (a ∷ addresses) locks serial h =
    let m = fresh_or a serial (lookup a locks) in
    let e = fresh_or-address a serial locks h in
    let (same, keyed) =
      collect-address addresses (insert a m locks) (serial + 1) (insert-AreKeyed a m locks e h) in
    (rw (e, same) refl, keyed)

All-above :
    (k n : ℕ) (ms : List Mutex) → k < n → All (λ x. n < x.address) ms → All (λ x. k < x.address) ms
All-above k n [] h i = tt
All-above k n (m ∷ ms) h (hm, i) = (omega (arith, h, hm), All-above k n ms h i)

Increasing-Ascending :
    (n : ℕ) (ms : List Mutex)
    → Increasing n (map (λ m. m.address) ms)
    → All (λ x. n < x.address) ms × Ascending ms
Increasing-Ascending n [] i = (tt, tt)
Increasing-Ascending n (m ∷ ms) (h, i) =
    let (above, ascending) = Increasing-Ascending m.address ms i in
    ((h, All-above n m.address ms h above), (above, ascending))

IncreasingFrom-Ascending :
    (ms : List Mutex) → IncreasingFrom (map (λ m. m.address) ms) → Ascending ms
IncreasingFrom-Ascending [] i = tt
IncreasingFrom-Ascending (m ∷ ms) i = Increasing-Ascending m.address ms i

collect-Ascending :
    (addresses : List ℕ) (locks : HashMap ℕ Mutex) (serial : ℕ)
    → AreKeyed locks
    → Ascending (collect (dedup (sort addresses)) locks serial).0
collect-Ascending addresses locks serial h =
    IncreasingFrom-Ascending (collect (dedup (sort addresses)) locks serial).0 (
      subst IncreasingFrom (sym (collect-address (dedup (sort addresses)) locks serial h).0)
        (dedup-sort addresses))

kept :
    (b : Bool) (a : ℕ) (locks : HashMap ℕ Mutex)
    → AreKeyed locks
    → AreKeyed (if b then locks else remove a locks)
unfolding AreKeyed
kept true a locks h b m e = h b m e
kept false a locks h b m e = h b m (ground (arith, e, lookup-remove a b locks))

clean_up-AreKeyed :
    (calls : List Call) (addresses : List ℕ) (locks : HashMap ℕ Mutex)
    → AreKeyed locks
    → AreKeyed (clean_up calls addresses locks)
unfolding clean_up
clean_up-AreKeyed calls [] locks h = h
clean_up-AreKeyed calls (a ∷ addresses) locks h =
    clean_up-AreKeyed calls addresses (forget calls a locks) (forget-AreKeyed calls a locks h)
  where
    forget-AreKeyed :
        (calls : List Call) (a : ℕ) (locks : HashMap ℕ Mutex)
        → AreKeyed locks
        → AreKeyed (forget calls a locks)
    forget-AreKeyed calls a locks h =
        elim (lookup a locks)
          as (λ o. AreKeyed (elim o as (λ x. HashMap ℕ Mutex) [
            | none ↦ locks
            | some m ↦ (if is_shared m calls then locks else remove a locks)
          ])) [ none ↦ h | some m ↦ kept (is_shared m calls) a locks h ]

-- The mutexes that a call holds and those that it still has_mutex to lock, in their order.
abbrev pub IsOrdered : Call → Type 0
IsOrdered c = Ascending (c.held ++ c.left)

pub record AreOrdered (s : Locks) : Type 0 where
  pub keyed : AreKeyed s.address_locks
  pub ordered : All IsOrdered s.calls

replace-IsOrdered :
    (before : List Call) (c c' : Call) (after : List Call)
    → (IsOrdered c → IsOrdered c')
    → All IsOrdered (before ++ (c ∷ after))
    → All IsOrdered (before ++ (c' ∷ after))
replace-IsOrdered [] c c' after f (hc, h) = (f hc, h)
replace-IsOrdered (b ∷ before) c c' after f (hb, h) = (hb, replace-IsOrdered before c c' after f h)

without-IsOrdered :
    (before : List Call) (c : Call) (after : List Call)
    → All IsOrdered (before ++ (c ∷ after))
    → All IsOrdered (before ++ after)
without-IsOrdered [] c after (hc, h) = h
without-IsOrdered (b ∷ before) c after (hb, h) = (hb, without-IsOrdered before c after h)

pub Step-AreOrdered : (s s' : Locks) → Step s s' → AreOrdered s → AreOrdered s'
unfolding enter AreKeyed lookup
Step-AreOrdered s s' (enters addresses) h = record {
  keyed = (collect-address (dedup (sort addresses)) s.address_locks s.next_serial h.keyed).1;
  ordered = (collect-Ascending addresses s.address_locks s.next_serial h.keyed, h.ordered);
}
Step-AreOrdered s s' (locks_one before held m left after e free) h = record {
  keyed = h.keyed;
  ordered =
      replace-IsOrdered before (record { held = held; left = m ∷ left })
        (record { held = held ++ (m ∷ []); left = left }) after
        (subst Ascending (sym (append_assoc held (m ∷ []) left)))
        (subst (All IsOrdered) e h.ordered);
}
Step-AreOrdered s s' (releases before held after e) h = record {
  keyed = h.keyed;
  ordered =
      without-IsOrdered before (record { held = held; left = [] }) after
        (subst (All IsOrdered) e h.ordered);
}
Step-AreOrdered s s' (cleans addresses leaving e) h = record {
  keyed = clean_up-AreKeyed s.calls addresses s.address_locks h.keyed;
  ordered = h.ordered;
}
Step-AreOrdered s s' clears h = record { keyed = λ a m e. cc; ordered = h.ordered }

pub no_locks-AreOrdered : AreOrdered no_locks
unfolding AreKeyed lookup
no_locks-AreOrdered = record { keyed = λ a m e. cc; ordered = tt }
