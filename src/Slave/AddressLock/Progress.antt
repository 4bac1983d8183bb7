-- ===== src/Slave/AddressLock/Progress.antt =====
-- src/slave.rs: how the calls of `with_address_lock` go on.
use rs_modbus.Prelude.{
  ℕ, zero, suc, ◌+◌, ◌≤◌, ◌<◌, ◌≡◌, refl, ap, ◌∙◌, sym, subst, arith, false, List, [], ◌∷◌, ◌++◌,
  map, All, length, leb, Bool-cases, inl, inr, ◌⊎◌,
}
use rs_modbus.Prelude.HashMap.{nat_eq}
use rs_modbus.Slave.AddressLock.{
  Mutex, no_locks, has_mutex, Call, Locks, is_locked, Step, locks_one, releases,
}
use rs_modbus.Slave.AddressLock.Sorted.{
  Ascending, IsOrdered, AreOrdered, Step-AreOrdered, no_locks-AreOrdered,
}

-- The call waits for a mutex of an address up to `n`.
abbrev WaitsUpTo : ℕ → List Mutex → Type 0
WaitsUpTo n [] = 1 ≤ 0
WaitsUpTo n (m ∷ ms) = m.address ≤ n

abbrev AllWait : ℕ → List Call → Type 0
AllWait n calls = All (λ c. WaitsUpTo n c.left) calls

AllWait-above : (k n : ℕ) (calls : List Call) → k ≤ n → AllWait k calls → AllWait n calls
AllWait-above k n [] h w = tt
AllWait-above k n (c ∷ calls) h (wc, w) = (one c.left wc, AllWait-above k n calls h w)
  where
    one : (ms : List Mutex) → WaitsUpTo k ms → WaitsUpTo n ms
    one [] x = absurd (omega (arith, x))
    one (m ∷ ms) x = omega (arith, h, x)

-- A mutex of an address at least as high as all those that are waited for is not held.
above_held :
    (held : List Mutex) (x : Mutex) (left : List Mutex) (m : Mutex)
    → Ascending (held ++ (x ∷ left))
    → x.address ≤ m.address
    → has_mutex m held ≡ false
unfolding has_mutex
above_held [] x left m a h = refl
above_held (y ∷ held) x left m (above, a) h =
    ground (arith, h, below held x left y above, above_held held x left m a h)
  where
    below :
        (held : List Mutex) (x : Mutex) (left : List Mutex) (y : Mutex)
        → All (λ z. y.address < z.address) (held ++ (x ∷ left))
        → y.address < x.address
    below [] x left y (h, r) = h
    below (z ∷ held) x left y (h, r) = below held x left y r

highest_free :
    (calls : List Call) (m : Mutex)
    → All IsOrdered calls
    → AllWait m.address calls
    → is_locked m calls ≡ false
unfolding is_locked
highest_free [] m o w = refl
highest_free (c ∷ calls) m (oc, o) (wc, w) =
    ground (arith, free c.held c.left oc wc, highest_free calls m o w)
  where
    free :
        (held left : List Mutex)
        → Ascending (held ++ left)
        → WaitsUpTo m.address left
        → has_mutex m held ≡ false
    free held [] a x = absurd (omega (arith, x))
    free held (y ∷ left) a x = above_held held y left m a x

-- A call that has_mutex all its mutexes; or else the one that waits for the highest address.
data Next (calls : List Call) : Type 0 where
  runs :
      (before : List Call) (held : List Mutex) (after : List Call)
      → calls ≡ before ++ (record { held = held; left = [] } ∷ after)
      → Next calls
  waits :
      (before : List Call) (held : List Mutex) (m : Mutex) (left : List Mutex) (after : List Call)
      → calls ≡ before ++ (record { held = held; left = m ∷ left } ∷ after)
      → AllWait m.address calls
      → Next calls

Next-cons : (c : Call) (calls : List Call) → (calls ≡ []) ⊎ Next calls → Next (c ∷ calls)
Next-cons c calls rest = by_left c.left refl rest
  where
    by_left : (left : List Mutex) → c.left ≡ left → (calls ≡ []) ⊎ Next calls → Next (c ∷ calls)
    by_left [] e rest =
        runs [] c.held calls (ap (λ left. record { held = c.held; left = left } ∷ calls) e)
    by_left (m ∷ left) e (inl none_left) =
        waits [] c.held m left calls (ap (λ left. record { held = c.held; left = left } ∷ calls) e)
          (
            subst (WaitsUpTo m.address) (sym e) (omega arith),
            subst (AllWait m.address) (sym none_left) tt,
          )
    by_left (m ∷ left) e (inr (runs before held after x)) =
        runs (c ∷ before) held after (ap (λ calls. c ∷ calls) x)
    by_left (m ∷ left) e (inr (waits before held k last after x w)) =
        elim (Bool-cases (leb m.address k.address)) [
          | inl y ↦
              waits (c ∷ before) held k last after (ap (λ calls. c ∷ calls) x)
                (subst (WaitsUpTo k.address) (sym e) (ground (arith, y)), w)
          | inr y ↦
              waits [] c.held m left calls
                (ap (λ left. record { held = c.held; left = left } ∷ calls) e)
                (
                  subst (WaitsUpTo m.address) (sym e) (omega arith),
                  AllWait-above k.address m.address calls (ground (arith, y)) w,
                )
        ]

Next-cases : (calls : List Call) → (calls ≡ []) ⊎ Next calls
Next-cases [] = inl refl
Next-cases (c ∷ calls) = inr (Next-cons c calls (Next-cases calls))

-- The number of steps that the calls still have to make.
unfoldable pub pending : List Call → ℕ
pending [] = 0
pending (c ∷ calls) = 1 + length c.left + pending calls

pending-append : (xs ys : List Call) → pending (xs ++ ys) ≡ pending xs + pending ys
unfolding pending
pending-append [] ys = omega arith
pending-append (c ∷ xs) ys = omega (arith, pending-append xs ys)

-- Steps by which the calls go on, each with one step less to make.
pub data Run : Locks → Locks → Type 0 where
  no_more : (s : Locks) → Run s s
  step :
      (s s' s'' : Locks)
      → Step s s'
      → pending s.calls ≡ 1 + pending s'.calls
      → Run s' s''
      → Run s s''

progress :
    (s : Locks)
    → AreOrdered s
    → Next s.calls
    → (s' : Locks) × Step s s' × (pending s.calls ≡ 1 + pending s'.calls)
unfolding pending
progress s h (runs before held after e) = (
  record s { calls = before ++ after; leaving = map (λ m. m.address) held ∷ s.leaving },
  releases before held after e,
  ap pending e
      ∙ omega (
        arith,
        pending-append before (record { held = held; left = [] } ∷ after),
        pending-append before after,
      ),
)
progress s h (waits before held m left after e w) = (
  record s { calls = before ++ (record { held = held ++ (m ∷ []); left = left } ∷ after) },
  locks_one before held m left after e (highest_free s.calls m h.ordered w),
  ap pending e
      ∙ omega (
        arith,
        pending-append before (record { held = held; left = m ∷ left } ∷ after),
        pending-append before (record { held = held ++ (m ∷ []); left = left } ∷ after),
      ),
)

calls_finish :
    (n : ℕ) (s : Locks)
    → pending s.calls ≤ n
    → AreOrdered s
    → (s' : Locks) × Run s s' × (s'.calls ≡ [])
calls_finish zero s h o = elim (Next-cases s.calls) [
  | inl e ↦ (s, no_more s, e)
  | inr next ↦ let (s', st, less) = progress s o next in absurd (omega (arith, less, h))
]
calls_finish (suc n) s h o = elim (Next-cases s.calls) [
  | inl e ↦ (s, no_more s, e)
  | inr next ↦
      let (s', st, less) = progress s o next in
      let (last, run, done) =
        calls_finish n s' (omega (arith, less, h)) (Step-AreOrdered s s' st o) in
      (last, step s s' last st less run, done)
]

-- The states that the calls come to, from the first one on.
pub data Reachable : Locks → Type 0 where
  initial : Reachable no_locks
  after : (s s' : Locks) → Reachable s → Step s s' → Reachable s'

Reachable-AreOrdered : (s : Locks) → Reachable s → AreOrdered s
Reachable-AreOrdered s initial = no_locks-AreOrdered
Reachable-AreOrdered s (after s0 s1 r st) = Step-AreOrdered s0 s st (Reachable-AreOrdered s0 r)

-- The calls of `with_address_lock` never wait for each other in a circle: from every state that is
-- reached, whatever addresses the calls share, they can go on, with one step less to make after each,
-- until every call has_mutex held all its mutexes and released them.
pub Reachable-Run : (s : Locks) → Reachable s → (s' : Locks) × Run s s' × (s'.calls ≡ [])
Reachable-Run s r = calls_finish (pending s.calls) s (omega arith) (Reachable-AreOrdered s r)
