-- ===== src/Slave/AddressLock.antt =====
-- src/slave.rs: `with_address_lock`, by which writes to the same addresses exclude each other. The
-- calls interleave in any order; `f` runs while a call holds all its mutexes.
pub mod Sorted
pub mod Progress
use rs_modbus.Prelude.{
  ℕ, ◌+◌, ◌≡◌, Option, none, some, Bool, true, false, not, ◌&&◌, ◌||◌, List, [], ◌∷◌, ◌++◌, map,
  if◌then◌else◌, ◌==◌, ltb, leb,
}
use rs_modbus.Prelude.HashMap.{HashMap, lookup, insert, remove, nat_eq}

-- A mutex is known by the address it was made for, and by a number that no other one has_mutex.
pub record Mutex : Type 0 where
  pub address : ℕ
  pub serial : ℕ

abbrev pub same_mutex : Mutex → Mutex → Bool
same_mutex a b = a.address == b.address && a.serial == b.serial

unfoldable pub has_mutex : Mutex → List Mutex → Bool
has_mutex m [] = false
has_mutex m (x ∷ xs) = let rest = has_mutex m xs in same_mutex m x || rest

-- `sort_unstable`
unfoldable pub sorted_insert : ℕ → List ℕ → List ℕ
sorted_insert n [] = n ∷ []
sorted_insert n (x ∷ xs) = let rest = sorted_insert n xs in if leb n x then n ∷ x ∷ xs else x ∷ rest

unfoldable pub sort : List ℕ → List ℕ
unfolding sorted_insert
sort [] = []
sort (x ∷ xs) = sorted_insert x (sort xs)

-- `dedup`, behind the last number that is kept.
unfoldable pub dedup_after : ℕ → List ℕ → List ℕ
dedup_after n [] = []
dedup_after n (x ∷ xs) =
    let skip = dedup_after n xs in let keep = x ∷ dedup_after x xs in if n == x then skip else keep

unfoldable pub dedup : List ℕ → List ℕ
unfolding dedup_after
dedup [] = []
dedup (x ∷ xs) = x ∷ dedup_after x xs

-- A call of `with_address_lock`: the mutexes it holds, and those it still has_mutex to lock, in order.
pub record Call : Type 0 where
  pub held : List Mutex
  pub left : List Mutex

pub record Locks : Type 0 where
  pub address_locks : HashMap ℕ Mutex
  pub next_serial : ℕ
  pub calls : List Call
  -- The addresses of the calls that have released their mutexes, and have yet to clean up.
  pub leaving : List (List ℕ)

abbrev pub no_locks : Locks
no_locks = record { address_locks = []; next_serial = 0; calls = []; leaving = [] }

abbrev pub fresh_or : ℕ → ℕ → Option Mutex → Mutex
fresh_or address serial none = record { address = address; serial = serial }
fresh_or address serial (some m) = m

-- The mutexes of the addresses, made where there is none: with the map and the next number.
unfoldable pub collect : List ℕ → HashMap ℕ Mutex → ℕ → List Mutex × HashMap ℕ Mutex × ℕ
collect [] locks serial = ([], locks, serial)
collect (a ∷ addresses) locks serial =
    let m = fresh_or a serial (lookup a locks) in
    let (ms, locks', serial') = collect addresses (insert a m locks) (serial + 1) in
    (m ∷ ms, locks', serial')

unfoldable pub enter : List ℕ → Locks → Locks
unfolding collect sort dedup
enter addresses s =
    let (ms, locks, serial) = collect (dedup (sort addresses)) s.address_locks s.next_serial in
    record s {
      address_locks = locks;
      next_serial = serial;
      calls = record { held = []; left = ms } ∷ s.calls;
    }

-- Whether a call holds the mutex.
unfoldable pub is_locked : Mutex → List Call → Bool
unfolding has_mutex
is_locked m [] = false
is_locked m (c ∷ calls) = let rest = is_locked m calls in has_mutex m c.held || rest

-- `Arc::strong_count(arc) != 1`: a call has_mutex a reference to the mutex.
unfoldable pub is_shared : Mutex → List Call → Bool
unfolding has_mutex
is_shared m [] = false
is_shared m (c ∷ calls) =
    let rest = is_shared m calls in has_mutex m c.held || has_mutex m c.left || rest

unfoldable pub forget : List Call → ℕ → HashMap ℕ Mutex → HashMap ℕ Mutex
unfolding is_shared
forget calls a locks = elim (lookup a locks) [
  | none ↦ locks
  | some m ↦ (if is_shared m calls then locks else remove a locks)
]

unfoldable pub clean_up : List Call → List ℕ → HashMap ℕ Mutex → HashMap ℕ Mutex
unfolding forget
clean_up calls [] locks = locks
clean_up calls (a ∷ addresses) locks = clean_up calls addresses (forget calls a locks)

-- A step of the calls, or the clearing of the map by `clean`.
pub data Step (s : Locks) : Locks → Type 0 where
  enters : (addresses : List ℕ) → Step s (enter addresses s)
  locks_one :
      (before : List Call) (held : List Mutex) (m : Mutex) (left : List Mutex) (after : List Call)
      → s.calls ≡ before ++ (record { held = held; left = m ∷ left } ∷ after)
      → is_locked m s.calls ≡ false
      → Step s
          (record s { calls = before ++ (record { held = held ++ (m ∷ []); left = left } ∷ after) })
  releases :
      (before : List Call) (held : List Mutex) (after : List Call)
      → s.calls ≡ before ++ (record { held = held; left = [] } ∷ after)
      → Step s
          (record s { calls = before ++ after; leaving = map (λ m. m.address) held ∷ s.leaving })
  cleans :
      (addresses : List ℕ) (leaving : List (List ℕ))
      → s.leaving ≡ addresses ∷ leaving
      → Step s (record s {
        address_locks = clean_up s.calls addresses s.address_locks;
        leaving = leaving;
      })
  clears : Step s (record s { address_locks = [] })
