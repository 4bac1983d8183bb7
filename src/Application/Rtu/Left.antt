-- ===== src/Application/Rtu/Left.antt =====
-- src/layers/application/rtu.rs: what `flush_pool` leaves in the pools.
use rs_modbus.Prelude.{
  ℕ, ◌+◌, ◌≤◌, ◌<◌, ◌≡◌, refl, ap, sym, subst, arith, Option, none, some, Bool, true, false, List,
  [],
}
use rs_modbus.Prelude.{length, ◌==◌, Bool-cases, ◌⊎◌, inl, inr}
use rs_modbus.Prelude.HashMap.{
  HashMap, lookup, insert, remove, nat_eq, lookup-insert, lookup-remove, lookup-insert_self,
  beq_self,
}
use rs_modbus.Types.{Event, ConnectionId, ResponseFn}
use rs_modbus.Slave.Dispatch.{CustomFunctionCode}
use rs_modbus.Application.Rtu.{
  RtuBuffer, compact, flush_pool, flush_found, put_back, store, starved,
}
use rs_modbus.Application.Rtu.Loop.{Closed, flush_buffer-Ends}
use rs_modbus.Application.Rtu.Events.{Buffers, or_new, Outcome, is_strict, flush}

-- The window of a buffer lies in its pool of 512 bytes.
abbrev pub IsPooled : RtuBuffer → Type 0
IsPooled b = b.offset + length b.window ≤ 512

unfoldable pub ArePooled : Buffers → Type 0
ArePooled buffers = (c : ConnectionId) (b : RtuBuffer) → lookup c buffers ≡ some b → IsPooled b

-- What a flush leaves: fewer than 256 bytes, at the front of the pool, and none in strict mode.
abbrev pub Left : Bool → RtuBuffer → Type 0
Left strict b = (length b.window < 256) × (strict ≡ true → length b.window ≡ 0)

Left-Closed :
    (r : ResponseFn) (c : ConnectionId) (strict : Bool)
    → Closed r c strict (λ f. Left strict f.rest)
unfolding starved
Left-Closed r c strict = record {
  empty = λ b e. (omega (arith, e), λ s. e);
  starves = λ b e. by_mode strict b e;
  bad_crc = λ b e. (omega arith, λ s. refl);
  is_invalid = λ b. (omega arith, λ s. refl);
  sends = λ b skipped n f found p. p;
}
  where
    by_mode :
        (strict : Bool) (b : RtuBuffer)
        → length b.window < 256
        → Left strict (starved strict b).rest
    by_mode true b e = (omega arith, λ s. refl)
    by_mode false b e = elim (Bool-cases b.t15_expired) [
      | inl x ↦ rw (x, starved) (omega arith, λ s. refl)
      | inr x ↦ rw (x, starved) (e, λ s. cc)
    ]

inserted :
    (c : ConnectionId) (b : RtuBuffer) (buffers : Buffers) (j : ConnectionId) (x : RtuBuffer)
    → lookup j (insert c b buffers) ≡ some x
    → (b ≡ x) ⊎ (lookup j buffers ≡ some x)
inserted c b buffers j x e = ground (arith, e, lookup-insert c j b buffers)

pub ArePooled-insert :
    (c : ConnectionId) (b : RtuBuffer) (buffers : Buffers)
    → IsPooled b
    → ArePooled buffers
    → ArePooled (insert c b buffers)
unfolding ArePooled
ArePooled-insert c b buffers hb h j x e = elim (inserted c b buffers j x e) [
  | inl y ↦ subst IsPooled y hb
  | inr y ↦ h j x y
]

pub ArePooled-remove :
    (c : ConnectionId) (buffers : Buffers) → ArePooled buffers → ArePooled (remove c buffers)
unfolding ArePooled
ArePooled-remove c buffers h j x e = h j x (ground (arith, e, lookup-remove c j buffers))

pub or_new-IsPooled :
    (c : ConnectionId) (buffers : Buffers)
    → ArePooled buffers
    → IsPooled (or_new (lookup c buffers))
unfolding ArePooled
or_new-IsPooled c buffers h = found (lookup c buffers) (h c)
  where
    found :
        (o : Option RtuBuffer) → ((b : RtuBuffer) → o ≡ some b → IsPooled b) → IsPooled (or_new o)
    found none h = omega arith
    found (some b) h = h b refl

-- What a connection has after a flush.
pub record IsFlushed (strict : Bool) (o : Option RtuBuffer) : Type 0 where
  pub few : length (or_new o).window < 256
  pub front : (or_new o).offset ≡ 0
  pub nothing : strict ≡ true → o ≡ none

module _ {S : Type 0} (interval_ms inter_char_ms : ℕ) (is_response : Bool)
    (custom_fcs : HashMap ℕ (CustomFunctionCode S)) (r : ResponseFn) (c : ConnectionId) where
  abbrev mode : Bool
  mode = is_strict interval_ms

  nothing-IsFlushed : IsFlushed mode none
  nothing-IsFlushed = record { few = omega arith; front = refl; nothing = λ e. refl }

  abbrev pub Flushes : Option Outcome → Type 0
  Flushes o = (out : Outcome) × (o ≡ some out) × ArePooled out.1 × IsFlushed mode (lookup c out.1)

  store-Flushes :
      (sent : List Event) (b : RtuBuffer) (buffers : Buffers)
      → ArePooled buffers
      → Left mode b
      → b.offset ≡ 0
      → Flushes (some (sent, store r c mode is_response custom_fcs b buffers))
  store-Flushes sent b buffers h (few, nothing) front = elim (Bool-cases (length b.window == 0)) [
    | inl e ↦ rw e (
      (sent, remove c buffers),
      refl,
      ArePooled-remove c buffers h,
      subst (IsFlushed mode) (sym (rw (lookup-remove c c buffers, beq_self c) refl))
          nothing-IsFlushed,
    )
    | inr e ↦ rw e (
      (sent, insert c b buffers),
      refl,
      ArePooled-insert c b buffers (omega (arith, few, front)) h,
      subst (IsFlushed mode) (sym (lookup-insert_self c b buffers)) (record {
        few = few;
        front = front;
        nothing = λ x. absurd (ground (arith, e, nothing x));
      }),
    )
  ]

  -- A flush returns, and leaves less than half of the pool in use.
  pub flush-Flushes :
      (buffers : Buffers)
      → ArePooled buffers
      → Flushes (flush interval_ms inter_char_ms is_response custom_fcs r c buffers)
  unfolding flush_pool flush_found
  flush-Flushes buffers h = found (lookup c buffers) refl
    where
      found :
          (o : Option RtuBuffer)
          → lookup c buffers ≡ o
          → Flushes (flush_found r c mode is_response custom_fcs buffers o)
      found none e = (([], buffers), refl, h, subst (IsFlushed mode) (sym e) nothing-IsFlushed)
      found (some b) e =
          let (f, x, left) =
            flush_buffer-Ends r c mode is_response custom_fcs (λ f. Left mode f.rest)
              (Left-Closed r c mode) b in
          subst Flushes (sym (ap (put_back r c mode is_response custom_fcs buffers) x))
            (store-Flushes f.sent (compact f.rest) buffers h left refl)
