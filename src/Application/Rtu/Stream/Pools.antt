-- ===== src/Application/Rtu/Stream/Pools.antt =====
-- src/layers/application/rtu.rs: the pool of a connection, flushed on a network transport.
use rs_modbus.Prelude.{
  ℕ, suc, ◌<◌, ◌≡◌, ◌≢◌, refl, ap, ◌∙◌, sym, subst, arith, Option, none, some, Bool, false, List,
  [], ◌∷◌, ◌++◌, All,
}
use rs_modbus.Prelude.{Bytes, length, length-append, ◌==◌, if◌then◌else◌, Bool-cases, ◌⊎◌, inl, inr}
use rs_modbus.Prelude.HashMap.{
  HashMap, lookup, nat_eq, lookup-insert, lookup-remove, lookup-insert_self, beq_self,
}
use rs_modbus.Types.{ApplicationDataUnit, ConnectionId, ResponseFn}
use rs_modbus.Slave.Dispatch.{CustomFunctionCode}
use rs_modbus.Application.Rtu.{
  RtuBuffer, compact, flush_pool, flush_found, flush_buffer, store, encode,
}
use rs_modbus.Application.Rtu.Codec.{length-encode}
use rs_modbus.Application.Rtu.Events.{Buffers, or_new, flush}
use rs_modbus.Application.Rtu.Left.{IsPooled}
use rs_modbus.Application.Rtu.Stream.{Sized}
use rs_modbus.Application.Rtu.Stream.Flush.{wires, events, Progress, progress}

-- The pool of a connection holds the bytes `w`, and no gap within a frame was seen.
pub record Holds (o : Option RtuBuffer) (w : Bytes) : Type 0 where
  pub held : (or_new o).window ≡ w
  pub on_time : (or_new o).t15_expired ≡ false
  pub pooled : IsPooled (or_new o)

pub started :
    (later : Bytes) (adus : List ApplicationDataUnit)
    → later ≡ wires adus
    → (adus ≡ []) ⊎ (0 < length later)
started later [] e = inl refl
started later (adu ∷ adus) e =
    inr (omega (arith, ap length e, length-append (encode adu) (wires adus), length-encode adu))

nothing_left : (w : Bytes) → length w ≡ 0 → [] ≡ w
nothing_left [] e = refl
nothing_left (x ∷ w) e = absurd (omega (arith, e))

module _ {S : Type 0} (inter_char_ms : ℕ) (is_response : Bool)
    (custom_fcs : HashMap ℕ (CustomFunctionCode S)) (r : ResponseFn) (c : ConnectionId) where
  -- What a flush makes of the pool, of which `later` is still to arrive.
  pub record Flushing (buffers : Buffers) (later : Bytes) (adus : List ApplicationDataUnit)
      : Type 0 where
    pub done : List ApplicationDataUnit
    pub todo : List ApplicationDataUnit
    pub left : Bytes
    pub after : Buffers
    pub split : adus ≡ done ++ todo
    pub runs :
        flush 0 inter_char_ms is_response custom_fcs r c buffers ≡ some (events r c done, after)
    pub holds : Holds (lookup c after) left
    pub front : (or_new (lookup c after)).offset ≡ 0
    pub few : length left < 256
    pub left_ok : left ++ later ≡ wires todo
    pub all_todo : All (Sized is_response custom_fcs) todo
    pub stalled : (todo ≡ []) ⊎ (0 < length later)
    pub cleared : length left ≡ 0 → lookup c after ≡ none
    pub others : (j : ConnectionId) → j ≢ c → lookup j after ≡ lookup j buffers

  -- What is put back.
  stored : RtuBuffer → Buffers → Buffers
  stored b buffers = store r c false is_response custom_fcs b buffers

  stored_self :
      (b : RtuBuffer) (buffers : Buffers)
      → lookup c (stored b buffers) ≡ (if length b.window == 0 then none else some b)
  unfolding stored
  stored_self b buffers = elim (Bool-cases (length b.window == 0)) [
    | inl e ↦ rw e (lookup-remove c c buffers ∙ rw (beq_self c) refl)
    | inr e ↦ rw e (lookup-insert_self c b buffers)
  ]

  stored_other :
      (b : RtuBuffer) (buffers : Buffers) (j : ConnectionId)
      → j ≢ c
      → lookup j (stored b buffers) ≡ lookup j buffers
  unfolding stored
  stored_other b buffers j h =
      ground (arith, h, lookup-remove c j buffers, lookup-insert c j b buffers)

  Holds-stored :
      (b : RtuBuffer)
      → b.offset ≡ 0
      → b.t15_expired ≡ false
      → length b.window < 256
      → Holds (if length b.window == 0 then none else some b) b.window
  Holds-stored b front on_time few = elim (Bool-cases (length b.window == 0)) [
    | inl e ↦ rw e (record {
      held = nothing_left b.window (ground (arith, e));
      on_time = refl;
      pooled = omega arith;
    })
    | inr e ↦ rw e (record { held = refl; on_time = on_time; pooled = omega (arith, front, few) })
  ]

  front-stored :
      (b : RtuBuffer)
      → b.offset ≡ 0
      → (or_new (if length b.window == 0 then none else some b)).offset ≡ 0
  front-stored b front = ground (arith, front)

  -- The pool is flushed.
  flushed :
      (buffers : Buffers) (b : RtuBuffer) (later : Bytes) (adus : List ApplicationDataUnit)
      → lookup c buffers ≡ some b
      → Progress r c is_response custom_fcs (suc (length b.window)) b later adus
      → Flushing buffers later adus
  unfolding flush_pool flush_found flush_buffer stored
  flushed buffers b later adus found p = record {
    done = p.done;
    todo = p.todo;
    left = p.rest.window;
    after = stored (compact p.rest) buffers;
    split = p.split;
    runs = rw (found, p.runs) refl;
    holds =
        subst (λ o. Holds o p.rest.window) (sym self)
          (Holds-stored (compact p.rest) refl p.on_time p.few);
    front = ap (λ o. (or_new o).offset) self ∙ front-stored (compact p.rest) refl;
    few = p.few;
    left_ok = p.left_ok;
    all_todo = p.all_todo;
    stalled = p.stalled;
    cleared = λ e. self ∙ ground (arith, e);
    others = λ j h. stored_other (compact p.rest) buffers j h;
  }
    where
      self :
          lookup c (stored (compact p.rest) buffers)
          ≡ (if length p.rest.window == 0 then none else some (compact p.rest))
      self = stored_self (compact p.rest) buffers

  pub flush-Flushing :
      (buffers : Buffers) (w later : Bytes) (adus : List ApplicationDataUnit)
      → Holds (lookup c buffers) w
      → All (Sized is_response custom_fcs) adus
      → w ++ later ≡ wires adus
      → Flushing buffers later adus
  unfolding flush_pool flush_found
  flush-Flushing buffers w later adus h s e = by_pool (lookup c buffers) refl h
    where
      by_pool :
          (o : Option RtuBuffer) → lookup c buffers ≡ o → Holds o w → Flushing buffers later adus
      by_pool (some b) found h = flushed buffers b later adus found (
          progress r c is_response custom_fcs (suc (length b.window)) b later adus (omega arith)
            h.on_time s (ap (λ v. v ++ later) h.held ∙ e))
      by_pool none absent h = record {
        done = [];
        todo = adus;
        left = [];
        after = buffers;
        split = refl;
        runs = rw absent refl;
        holds = rw absent (record { held = refl; on_time = refl; pooled = omega arith });
        front = rw absent refl;
        few = omega arith;
        left_ok = ap (λ v. v ++ later) h.held ∙ e;
        all_todo = s;
        stalled = started later adus (ap (λ v. v ++ later) h.held ∙ e);
        cleared = λ x. absent;
        others = λ j x. refl;
      }
