-- ===== src/Application/Rtu/Stream/Chunks.antt =====
-- src/layers/application/rtu.rs: a stream of frames on a network transport, cut into chunks anywhere.
use rs_modbus.Prelude.{
  ℕ, zero, suc, ◌+◌, ◌*◌, ◌≤◌, ◌<◌, ◌≡◌, ◌≢◌, refl, ap, ◌∙◌, sym, subst, arith, Option, some, Bool,
  true, false, List, [], ◌∷◌, ◌++◌, append_assoc, All,
}
use rs_modbus.Prelude.{
  Bytes, length, length-append, length-take, length-drop, take, drop, take-append-drop, min, ◌==◌,
  if◌then◌else◌, Bool-cases, inl, inr,
}
use rs_modbus.Prelude.HashMap.{HashMap, lookup, insert, nat_eq, lookup-insert, lookup-insert_self}
use rs_modbus.Types.{ApplicationDataUnit, ConnectionId, ResponseFn}
use rs_modbus.Slave.Dispatch.{CustomFunctionCode}
use rs_modbus.Application.Rtu.{RtuBuffer, available, encode, frame_event}
use rs_modbus.Application.Rtu.Events.{Buffers, or_new, extend_from_slice, after_flush, consume}
use rs_modbus.Application.Rtu.Stream.{Sized}
use rs_modbus.Application.Rtu.Stream.Flush.{wires, events}
use rs_modbus.Application.Rtu.Stream.Pools.{Holds, Flushing, flush-Flushing}

pub events-append :
    (r : ResponseFn) (c : ConnectionId) (xs ys : List ApplicationDataUnit)
    → events r c (xs ++ ys) ≡ events r c xs ++ events r c ys
events-append r c [] ys = refl
events-append r c (x ∷ xs) ys = ap (◌∷◌ (frame_event r c (encode x))) (events-append r c xs ys)

pub Holds-insert :
    (c : ConnectionId) (b : RtuBuffer) (buffers : Buffers) (w : Bytes)
    → Holds (some b) w
    → Holds (lookup c (insert c b buffers)) w
Holds-insert c b buffers w h = subst (λ o. Holds o w) (sym (lookup-insert_self c b buffers)) h

Holds-extend :
    (bytes : Bytes) (b : RtuBuffer) (w : Bytes)
    → Holds (some b) w
    → Holds
        (some (extend_from_slice bytes b).1)
        (w ++ take (min (length bytes) (available b)) bytes)
unfolding extend_from_slice
Holds-extend bytes b w h = record {
  held = ap (λ v. v ++ take (min (length bytes) (available b)) bytes) h.held;
  on_time = h.on_time;
  pooled = omega (
    arith,
    h.pooled,
    length-append b.window (take (min (length bytes) (available b)) bytes),
    length-take (min (length bytes) (available b)) bytes,
  );
}

-- The pool of a connection as `entry` gives it.
Holds-entry : (o : Option RtuBuffer) (w : Bytes) → Holds o w → Holds (some (or_new o)) w
Holds-entry o w h = record { held = h.held; on_time = h.on_time; pooled = h.pooled }

pub insert_other :
    (c j : ConnectionId) (b : RtuBuffer) (buffers : Buffers)
    → j ≢ c
    → lookup j (insert c b buffers) ≡ lookup j buffers
insert_other c j b buffers h = ground (arith, h, lookup-insert c j b buffers)

abbrev pub full : RtuBuffer → ℕ
full b = if available b == 0 then 1 else 0

pub full_small : (b : RtuBuffer) → full b ≤ 1
full_small b = ground arith

full_room : (b : RtuBuffer) → b.offset ≡ 0 → length b.window < 256 → full b ≡ 0
full_room b front few = ground (arith, front, few)

module _ {S : Type 0} (inter_char_ms : ℕ) (is_response : Bool)
    (custom_fcs : HashMap ℕ (CustomFunctionCode S)) (r : ResponseFn) (c : ConnectionId) where
  -- What the loop over a chunk makes of the pool, with `later` behind the chunk.
  pub record Consuming (fuel : ℕ) (bytes : Bytes) (buffers : Buffers) (later : Bytes)
      (adus : List ApplicationDataUnit) : Type 0 where
    pub done : List ApplicationDataUnit
    pub todo : List ApplicationDataUnit
    pub left : Bytes
    pub after : Buffers
    pub split : adus ≡ done ++ todo
    pub runs :
        consume 0 inter_char_ms is_response custom_fcs r c fuel bytes buffers
        ≡ some (events r c done, after)
    pub holds : Holds (lookup c after) left
    pub left_ok : left ++ later ≡ wires todo
    pub all_todo : All (Sized is_response custom_fcs) todo
    pub others : (j : ConnectionId) → j ≢ c → lookup j after ≡ lookup j buffers

  consumed :
      (fuel : ℕ) (bytes : Bytes) (buffers : Buffers) (w later : Bytes)
      (adus : List ApplicationDataUnit)
      → length bytes ≡ 0
      → Holds (lookup c buffers) w
      → All (Sized is_response custom_fcs) adus
      → w ++ (bytes ++ later) ≡ wires adus
      → Consuming (suc fuel) bytes buffers later adus
  unfolding consume extend_from_slice
  consumed fuel [] buffers w later adus e h s st = record {
    done = [];
    todo = adus;
    left = w;
    after = buffers;
    split = refl;
    runs = refl;
    holds = h;
    left_ok = st;
    all_todo = s;
    others = λ j x. refl;
  }
  consumed fuel (b ∷ bytes) buffers w later adus e h s st = absurd (omega (arith, e))

  copied_some :
      (fuel : ℕ) (bytes : Bytes) (buffers : Buffers) (later : Bytes)
      (adus : List ApplicationDataUnit)
      → (length bytes == 0) ≡ false
      → (min (length bytes) (available (or_new (lookup c buffers))) == 0) ≡ false
      → Consuming fuel
          (drop (min (length bytes) (available (or_new (lookup c buffers)))) bytes)
          (insert c (extend_from_slice bytes (or_new (lookup c buffers))).1 buffers)
          later
          adus
      → Consuming (suc fuel) bytes buffers later adus
  unfolding consume extend_from_slice
  copied_some fuel bytes buffers later adus e z ih = record {
    done = ih.done;
    todo = ih.todo;
    left = ih.left;
    after = ih.after;
    split = ih.split;
    runs = rw (e, z, consume) ih.runs;
    holds = ih.holds;
    left_ok = ih.left_ok;
    all_todo = ih.all_todo;
    others = λ j x. ih.others j x ∙ insert_other c j _ buffers x;
  }

  -- The pool is full, and is flushed.
  copied_none :
      (fuel : ℕ) (bytes : Bytes) (buffers : Buffers) (later : Bytes)
      (adus : List ApplicationDataUnit)
      → (length bytes == 0) ≡ false
      → (min (length bytes) (available (or_new (lookup c buffers))) == 0) ≡ true
      → (f : Flushing inter_char_ms is_response custom_fcs r c buffers (bytes ++ later) adus)
      → Consuming fuel bytes (insert c (or_new (lookup c f.after)) f.after) later f.todo
      → Consuming (suc fuel) bytes buffers later adus
  unfolding consume extend_from_slice after_flush
  copied_none fuel bytes buffers later adus e z f ih = record {
    done = f.done ++ ih.done;
    todo = ih.todo;
    left = ih.left;
    after = ih.after;
    split = f.split ∙ ap (λ xs. f.done ++ xs) ih.split ∙ sym (append_assoc f.done ih.done ih.todo);
    runs = rw (e, z, f.runs, consume) resumed;
    holds = ih.holds;
    left_ok = ih.left_ok;
    all_todo = ih.all_todo;
    others = λ j x. ih.others j x ∙ insert_other c j _ f.after x ∙ f.others j x;
  }
    where
      room : (available (or_new (lookup c f.after)) == 0) ≡ false
      room = ground (arith, f.front, f.few, ap length f.holds.held)

      resumed :
          after_flush 0 inter_char_ms is_response custom_fcs r c
            (consume 0 inter_char_ms is_response custom_fcs r c fuel bytes)
            (events r c f.done, f.after)
          ≡ some (events r c (f.done ++ ih.done), ih.after)
      resumed =
          rw (room, ih.runs, after_flush)
            (ap (λ es. some (es, ih.after)) (sym (events-append r c f.done ih.done)))

  pub consume-Consuming :
      (fuel : ℕ) (bytes : Bytes) (buffers : Buffers) (w later : Bytes)
      (adus : List ApplicationDataUnit)
      → 2 * length bytes + full (or_new (lookup c buffers)) < fuel
      → Holds (lookup c buffers) w
      → All (Sized is_response custom_fcs) adus
      → w ++ (bytes ++ later) ≡ wires adus
      → Consuming fuel bytes buffers later adus
  consume-Consuming zero bytes buffers w later adus h p s st = absurd (omega (arith, h))
  consume-Consuming (suc fuel) bytes buffers w later adus h p s st =
      let b = or_new (lookup c buffers) in
      let copied = min (length bytes) (available b) in
      elim (Bool-cases (length bytes == 0)) [
        | inl e ↦ consumed fuel bytes buffers w later adus (ground (arith, e)) p s st
        | inr e ↦ elim (Bool-cases (copied == 0)) [
          | inl z ↦
              let f =
                flush-Flushing inter_char_ms is_response custom_fcs r c buffers w (bytes ++ later)
                  adus p s st in
              copied_none fuel bytes buffers later adus e z f (
                consume-Consuming fuel bytes (insert c (or_new (lookup c f.after)) f.after) f.left
                  later f.todo
                  (ground (
                    arith,
                    h,
                    e,
                    z,
                    ap (λ o. full (or_new o))
                        (lookup-insert_self c (or_new (lookup c f.after)) f.after),
                    full_room (or_new (lookup c f.after)) f.front
                        (omega (arith, f.few, ap length f.holds.held)),
                  ))
                  (Holds-insert c (or_new (lookup c f.after)) f.after f.left
                    (Holds-entry (lookup c f.after) f.left f.holds))
                  f.all_todo f.left_ok)
          | inr z ↦ copied_some fuel bytes buffers later adus e z (
              consume-Consuming fuel (drop copied bytes)
                (insert c (extend_from_slice bytes b).1 buffers) (w ++ take copied bytes) later adus
                (ground (
                  arith,
                  h,
                  e,
                  z,
                  length-drop copied bytes,
                  full_small (or_new (lookup c (insert c (extend_from_slice bytes b).1 buffers))),
                ))
                (Holds-insert c (extend_from_slice bytes b).1 buffers (w ++ take copied bytes)
                  (Holds-extend bytes b w (Holds-entry (lookup c buffers) w p)))
                s (cut_again copied ∙ st))
        ]
      ]
    where
      cut_again : (n : ℕ) → (w ++ take n bytes) ++ (drop n bytes ++ later) ≡ w ++ (bytes ++ later)
      cut_again n =
          append_assoc w (take n bytes) (drop n bytes ++ later)
          ∙ ap (λ v. w ++ v)
              (sym (append_assoc (take n bytes) (drop n bytes) later)
                ∙ ap (λ v. v ++ later) (take-append-drop n bytes))
