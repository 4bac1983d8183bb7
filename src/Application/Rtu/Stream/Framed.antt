-- ===== src/Application/Rtu/Stream/Framed.antt =====
-- src/layers/application/rtu.rs: the chunks of a connection, one after the other, on a network
-- transport.
use rs_modbus.Prelude.{
  ℕ, ◌+◌, ◌-◌, ◌*◌, ◌<◌, ◌≡◌, ◌≢◌, refl, ap, ◌∙◌, sym, subst, arith, none, some, Bool, false, List,
  [], ◌∷◌, ◌++◌, append_assoc, map, All, concat,
}
use rs_modbus.Prelude.{
  Bytes, length, length-append, take, drop, take-length_append, to_le_bytes, ◌⊎◌,
}
use rs_modbus.Prelude.HashMap.{HashMap, lookup, insert, nat_eq}
use rs_modbus.Types.{ApplicationDataUnit, Event, framing, ConnectionId, ResponseFn}
use rs_modbus.Utils.Crc.{crc}
use rs_modbus.Slave.Dispatch.{CustomFunctionCode}
use rs_modbus.Application.Rtu.{RtuBuffer, encode, frame_adu}
use rs_modbus.Application.Rtu.Codec.{length-encode}
use rs_modbus.Application.Rtu.Events.{
  Buffers, or_new, check_gap, cancel_timers, consume, settle_chunk, process_data_event, flush,
  Happening, react, react_all, bytes_arrive,
}
use rs_modbus.Application.Rtu.Stream.{Sized}
use rs_modbus.Application.Rtu.Stream.Flush.{wires, events}
use rs_modbus.Application.Rtu.Stream.Pools.{Holds, started, flush-Flushing}
use rs_modbus.Application.Rtu.Stream.Chunks.{
  events-append, Holds-insert, insert_other, full_small, consume-Consuming,
}

pub frame_adu-encode :
    (adu : ApplicationDataUnit) → frame_adu (encode adu) ≡ record adu { transaction = none }
unfolding encode
frame_adu-encode adu =
    ap (λ w. record adu { transaction = none; payload = drop 2 w })
      (ap (λ k. take k (encode adu)) body_length ∙ take-length_append body (to_le_bytes (crc body)))
  where
    body : Bytes
    body = adu.unit ∷ adu.fc ∷ adu.payload

    body_length : length (encode adu) - 2 ≡ length body
    body_length = omega (arith, length-encode adu)

-- The message that is sent for a frame.
pub message : ResponseFn → ConnectionId → ApplicationDataUnit → Event
message r c adu = framing (record {
  adu = record adu { transaction = none };
  raw = encode adu;
  response = r;
  connection = c;
})

pub events-message :
    (r : ResponseFn) (c : ConnectionId) (adus : List ApplicationDataUnit)
    → events r c adus ≡ map (message r c) adus
unfolding message
events-message r c [] = refl
events-message r c (adu ∷ adus) =
    ap
      (λ a.
        framing (record { adu = a; raw = encode adu; response = r; connection = c })
        ∷ events r c adus)
      (frame_adu-encode adu)
    ∙ ap (λ es. message r c adu ∷ es) (events-message r c adus)

abbrev pub arrivals : ResponseFn → ConnectionId → List Bytes → List Happening
arrivals r c chunks = map (λ bytes. bytes_arrive bytes r c) chunks

module _ {S : Type 0} (inter_char_ms : ℕ) (is_response : Bool)
    (custom_fcs : HashMap ℕ (CustomFunctionCode S)) (r : ResponseFn) (c : ConnectionId) where
  -- What an event makes of the pool, with `later` behind its chunk.
  record Arrival (bytes : Bytes) (buffers : Buffers) (later : Bytes)
      (adus : List ApplicationDataUnit) : Type 0 where
    done : List ApplicationDataUnit
    todo : List ApplicationDataUnit
    left : Bytes
    after : Buffers
    split : adus ≡ done ++ todo
    runs :
        process_data_event 0 inter_char_ms is_response custom_fcs r c bytes buffers
        ≡ some (events r c done, after)
    holds : Holds (lookup c after) left
    left_ok : left ++ later ≡ wires todo
    all_todo : All (Sized is_response custom_fcs) todo
    stalled : (todo ≡ []) ⊎ (0 < length later)
    cleared : length left ≡ 0 → lookup c after ≡ none
    others : (j : ConnectionId) → j ≢ c → lookup j after ≡ lookup j buffers

  -- The buffer that the chunk is put into.
  entry : Buffers → RtuBuffer
  entry buffers = cancel_timers (record (or_new (lookup c buffers)) { t15_expired = false })

  no_gap :
      (b : RtuBuffer) → b.t15_expired ≡ false → check_gap b ≡ ([], record b { t15_expired = false })
  unfolding check_gap
  no_gap b on_time = ground (arith, on_time)

  arrived :
      (bytes : Bytes) (buffers m1 m2 : Buffers) (e1 e2 : List Event)
      → (or_new (lookup c buffers)).t15_expired ≡ false
      → consume 0 inter_char_ms is_response custom_fcs r c
          (2 * length bytes + 2)
          bytes
          (insert c (entry buffers) buffers)
        ≡ some (e1, m1)
      → flush 0 inter_char_ms is_response custom_fcs r c m1 ≡ some (e2, m2)
      → process_data_event 0 inter_char_ms is_response custom_fcs r c bytes buffers
        ≡ some (e1 ++ e2, m2)
  unfolding process_data_event settle_chunk entry
  arrived bytes buffers m1 m2 e1 e2 on_time x y =
      rw (no_gap (or_new (lookup c buffers)) on_time, x, y, process_data_event) refl

  arrive :
      (bytes : Bytes) (buffers : Buffers) (w later : Bytes) (adus : List ApplicationDataUnit)
      → Holds (lookup c buffers) w
      → All (Sized is_response custom_fcs) adus
      → w ++ (bytes ++ later) ≡ wires adus
      → Arrival bytes buffers later adus
  unfolding entry
  arrive bytes buffers w later adus h s e =
      let first = insert c (entry buffers) buffers in
      let inside =
        consume-Consuming inter_char_ms is_response custom_fcs r c (2 * length bytes + 2) bytes
          first w later adus (omega (arith, full_small (or_new (lookup c first))))
          (Holds-insert c (entry buffers) buffers w
            (record { held = h.held; on_time = refl; pooled = h.pooled }))
          s e in
      let last =
        flush-Flushing inter_char_ms is_response custom_fcs r c inside.after inside.left later
          inside.todo inside.holds inside.all_todo inside.left_ok in
      record {
        done = inside.done ++ last.done;
        todo = last.todo;
        left = last.left;
        after = last.after;
        split =
            inside.split
            ∙ ap (λ xs. inside.done ++ xs) last.split
            ∙ sym (append_assoc inside.done last.done last.todo);
        runs =
            arrived bytes buffers inside.after last.after (events r c inside.done)
              (events r c last.done) h.on_time inside.runs last.runs
            ∙ ap (λ es. some (es, last.after)) (sym (events-append r c inside.done last.done));
        holds = last.holds;
        left_ok = last.left_ok;
        all_todo = last.all_todo;
        stalled = last.stalled;
        cleared = last.cleared;
        others =
            λ j x. last.others j x ∙ inside.others j x ∙ insert_other c j (entry buffers) buffers x;
      }

  record Stream (chunks : List Bytes) (buffers : Buffers) (adus : List ApplicationDataUnit)
      : Type 0 where
    after : Buffers
    runs :
        react_all 0 inter_char_ms is_response custom_fcs (arrivals r c chunks) buffers
        ≡ some (events r c adus, after)
    empty : lookup c after ≡ none
    others : (j : ConnectionId) → j ≢ c → lookup j after ≡ lookup j buffers

  ended :
      (buffers : Buffers) (w : Bytes) (adus : List ApplicationDataUnit)
      → w ++ [] ≡ wires adus
      → (adus ≡ []) ⊎ (0 < length {A = ℕ} [])
      → (length w ≡ 0 → lookup c buffers ≡ none)
      → Stream [] buffers adus
  unfolding react_all
  ended buffers w [] e st cleared = record {
    after = buffers;
    runs = refl;
    empty = cleared (omega (arith, ap length e, length-append w []));
    others = λ j x. refl;
  }
  ended buffers w (adu ∷ adus) e st cleared = absurd (ground arith)

  continued :
      (bytes : Bytes) (chunks : List Bytes) (buffers : Buffers) (adus : List ApplicationDataUnit)
      → (a : Arrival bytes buffers (concat chunks) adus) → Stream chunks a.after a.todo
      → Stream (bytes ∷ chunks) buffers adus
  unfolding react_all react
  continued bytes chunks buffers adus a ih = record {
    after = ih.after;
    runs =
        rw (a.runs, ih.runs, react_all)
          (ap (λ es. some (es, ih.after))
            (sym (ap (events r c) a.split ∙ events-append r c a.done a.todo)));
    empty = ih.empty;
    others = λ j x. ih.others j x ∙ a.others j x;
  }

  stream :
      (chunks : List Bytes) (buffers : Buffers) (w : Bytes) (adus : List ApplicationDataUnit)
      → Holds (lookup c buffers) w
      → All (Sized is_response custom_fcs) adus
      → w ++ concat chunks ≡ wires adus
      → (adus ≡ []) ⊎ (0 < length (concat chunks))
      → (length w ≡ 0 → lookup c buffers ≡ none)
      → Stream chunks buffers adus
  stream [] buffers w adus h s e st cleared = ended buffers w adus e st cleared
  stream (bytes ∷ chunks) buffers w adus h s e st cleared =
      let a = arrive bytes buffers w (concat chunks) adus h s e in
      continued bytes chunks buffers adus a
        (stream chunks a.after a.left a.todo a.holds a.all_todo a.left_ok a.stalled a.cleared)

  -- On a transport without an interval between frames: a stream of messages whose function codes are
  -- not the user's, with frames of at most 256 bytes and of the lengths that the predictor tells, that
  -- arrives on a connection without a buffer, cut into chunks at any places, is framed into exactly
  -- those messages, in order and with no error. Afterwards the connection has no buffer, and the
  -- other connections keep theirs.
  pub react_all-wires :
      (chunks : List Bytes) (buffers : Buffers) (adus : List ApplicationDataUnit)
      → lookup c buffers ≡ none
      → All (Sized is_response custom_fcs) adus
      → concat chunks ≡ wires adus
      → (after : Buffers) × (react_all 0 inter_char_ms is_response custom_fcs
            (arrivals r c chunks)
            buffers
          ≡ some (map (message r c) adus, after))
        × (lookup c after ≡ none)
        × ((j : ConnectionId) → j ≢ c → lookup j after ≡ lookup j buffers)
  react_all-wires chunks buffers adus fresh s e =
      let f =
        stream chunks buffers [] adus
          (subst (λ o. Holds o []) (sym fresh)
            (record { held = refl; on_time = refl; pooled = omega arith }))
          s e (started (concat chunks) adus e) (λ x. fresh) in
      (f.after, f.runs ∙ ap (λ es. some (es, f.after)) (events-message r c adus), f.empty, f.others)
