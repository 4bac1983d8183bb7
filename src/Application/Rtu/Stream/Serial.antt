-- ===== src/Application/Rtu/Stream/Serial.antt =====
-- src/layers/application/rtu.rs: frames on a serial line, each of which ends with the t3.5 timer.
use rs_modbus.Prelude.{
  ℕ, zero, suc, ◌+◌, ◌*◌, ◌≤◌, ◌<◌, ◌≡◌, ◌≢◌, refl, ap, ◌∙◌, sym, subst, arith, Option, none, some,
  Bool, true, false, ◌||◌, [], ◌∷◌, ◌++◌, append-nil,
}
use rs_modbus.Prelude.{
  Bytes, length, length-append, length-drop, take, drop, take-length_append, drop-length_append,
  min, ltb, leb, ◌==◌,
}
use rs_modbus.Prelude.HashMap.{
  HashMap, lookup, insert, remove, nat_eq, lookup-insert, lookup-insert_self,
}
use rs_modbus.Types.{ApplicationDataUnit, ConnectionId, ResponseFn}
use rs_modbus.Slave.Dispatch.{CustomFunctionCode}
use rs_modbus.Application.Rtu.{
  RtuBuffer, available, drain, flush_loop, try_extract, encode, frame_event, flush_pool,
  flush_found, flush_buffer,
}
use rs_modbus.Application.Rtu.Codec.{length-encode}
use rs_modbus.Application.Rtu.Events.{
  Buffers, or_new, extend_from_slice, check_gap, cancel_timers, is_strict, consume, arm_timers,
  settle_chunk, process_data_event, flush,
}
use rs_modbus.Application.Rtu.Stream.{Sized, extract_whole}
use rs_modbus.Application.Rtu.Stream.Flush.{loop_empty, loop_whole}

-- The bytes of a frame that have come, at the front of the pool, with no gap among them.
pub record Waits (o : Option RtuBuffer) (w : Bytes) : Type 0 where
  pub held : (or_new o).window ≡ w
  pub on_time : (or_new o).t15_expired ≡ false
  pub front : (or_new o).offset ≡ 0

take-all : (xs : Bytes) → take (length xs) xs ≡ xs
take-all xs = ap (take (length xs)) (sym (append-nil xs)) ∙ take-length_append xs []

drop-all : (xs : Bytes) → drop (length xs) xs ≡ []
drop-all xs = ap (drop (length xs)) (sym (append-nil xs)) ∙ drop-length_append xs []

module _ {S : Type 0} (interval_ms inter_char_ms : ℕ) (is_response : Bool)
    (custom_fcs : HashMap ℕ (CustomFunctionCode S)) (r : ResponseFn) (c : ConnectionId) where
  -- The loop copies the chunk in one round, if it has room.
  consume_nothing :
      (fuel : ℕ) (buffers : Buffers)
      → consume interval_ms inter_char_ms is_response custom_fcs r c (suc fuel) [] buffers
        ≡ some ([], buffers)
  unfolding consume extend_from_slice
  consume_nothing fuel buffers = refl

  consume_all :
      (fuel x : ℕ) (bytes : Bytes) (buffers : Buffers)
      → (or_new (lookup c buffers)).offset ≡ 0
      → length (or_new (lookup c buffers)).window + length (x ∷ bytes) ≤ 512
      → consume interval_ms inter_char_ms is_response custom_fcs r c
          (suc (suc fuel))
          (x ∷ bytes)
          buffers
        ≡ some (
          [],
          insert c
              (record (or_new (lookup c buffers)) {
                window = (or_new (lookup c buffers)).window ++ (x ∷ bytes);
              })
              buffers,
        )
  unfolding consume extend_from_slice
  consume_all fuel x bytes buffers front room =
      rw (fits, take-all bytes, drop-all bytes, busy, consume) refl
    where
      fits : min (length (x ∷ bytes)) (available (or_new (lookup c buffers))) ≡ suc (length bytes)
      fits = omega (arith, front, room)

      busy : (suc (length bytes) == 0) ≡ false
      busy = ground arith

  -- A chunk that leaves the frame below 256 bytes is kept, and the timers are armed.
  entry : Buffers → RtuBuffer
  entry buffers = cancel_timers (record (or_new (lookup c buffers)) { t15_expired = false })

  Copied : Bytes → Buffers → Bytes → Type 0
  Copied bytes buffers w =
      (after : Buffers) × (consume interval_ms inter_char_ms is_response custom_fcs r c
          (2 * length bytes + 2) bytes buffers
        ≡ some ([], after))
      × ((b : RtuBuffer) × (lookup c after ≡ some b) × Waits (some b) (w ++ bytes))
      × ((j : ConnectionId) → j ≢ c → lookup j after ≡ lookup j buffers)

  copy :
      (bytes : Bytes) (buffers : Buffers) (b : RtuBuffer) (w : Bytes)
      → lookup c buffers ≡ some b
      → Waits (some b) w
      → length w + length bytes ≤ 512
      → Copied bytes buffers w
  unfolding Copied
  copy [] buffers b w found h room = (
    buffers,
    consume_nothing 1 buffers,
    (b, found, record { held = h.held ∙ sym (append-nil w); on_time = h.on_time; front = h.front }),
    λ j x. refl,
  )
  copy (x ∷ bytes) buffers b w found h room = (
    insert c (record b { window = b.window ++ (x ∷ bytes) }) buffers,
    ap (λ n. consume interval_ms inter_char_ms is_response custom_fcs r c n (x ∷ bytes) buffers)
          enough
        ∙ consume_all (2 * length bytes + 2) x bytes buffers (rw found h.front)
            (rw found (omega (arith, ap length h.held, room)))
        ∙ rw found refl,
    (
      record b { window = b.window ++ (x ∷ bytes) },
      lookup-insert_self c (record b { window = b.window ++ (x ∷ bytes) }) buffers,
      record { held = ap (λ v. v ++ (x ∷ bytes)) h.held; on_time = h.on_time; front = h.front },
    ),
    λ j n.
        ground
          (arith, n, lookup-insert c j (record b { window = b.window ++ (x ∷ bytes) }) buffers),
  )
    where
      enough : 2 * length (x ∷ bytes) + 2 ≡ suc (suc (2 * length bytes + 2))
      enough = omega arith

  no_gap :
      (b : RtuBuffer) → b.t15_expired ≡ false → check_gap b ≡ ([], record b { t15_expired = false })
  unfolding check_gap
  no_gap b on_time = ground (arith, on_time)

  armed : RtuBuffer → RtuBuffer
  armed b = record b { timer = true; inter_char_timer = ltb 0 inter_char_ms || b.inter_char_timer }

  settle_armed :
      (buffers : Buffers) (b : RtuBuffer)
      → 0 < interval_ms
      → lookup c buffers ≡ some b
      → length b.window < 256
      → settle_chunk interval_ms inter_char_ms is_response custom_fcs r c buffers
        ≡ some ([], insert c (armed b) buffers)
  unfolding settle_chunk arm_timers armed
  settle_armed buffers b serial found few = rw (found, strict, below, arm_timers) refl
    where
      strict : is_strict interval_ms ≡ true
      strict = ground (arith, serial)

      below : leb 256 (length b.window) ≡ false
      below = ground (arith, few)

  -- What a chunk within a frame makes of the pool.
  pub record Kept (bytes : Bytes) (buffers : Buffers) (w : Bytes) : Type 0 where
    pub after : Buffers
    pub runs :
        process_data_event interval_ms inter_char_ms is_response custom_fcs r c bytes buffers
        ≡ some ([], after)
    pub waits : Waits (lookup c after) (w ++ bytes)
    pub others : (j : ConnectionId) → j ≢ c → lookup j after ≡ lookup j buffers

  arrived :
      (bytes : Bytes) (buffers m1 m2 : Buffers)
      → (or_new (lookup c buffers)).t15_expired ≡ false
      → consume interval_ms inter_char_ms is_response custom_fcs r c
          (2 * length bytes + 2)
          bytes
          (insert c (entry buffers) buffers)
        ≡ some ([], m1)
      → settle_chunk interval_ms inter_char_ms is_response custom_fcs r c m1 ≡ some ([], m2)
      → process_data_event interval_ms inter_char_ms is_response custom_fcs r c bytes buffers
        ≡ some ([], m2)
  unfolding process_data_event entry
  arrived bytes buffers m1 m2 on_time x y =
      rw (no_gap (or_new (lookup c buffers)) on_time, x, y, process_data_event) refl

  pub keep :
      (bytes : Bytes) (buffers : Buffers) (w : Bytes)
      → 0 < interval_ms
      → Waits (lookup c buffers) w
      → length w + length bytes < 256
      → Kept bytes buffers w
  unfolding Copied armed entry
  keep bytes buffers w serial h few =
      let (m1, x, (b, found, waits), others) =
        copy bytes (insert c (entry buffers) buffers) (entry buffers) w
          (lookup-insert_self c (entry buffers) buffers)
          (record { held = h.held; on_time = refl; front = h.front }) (omega (arith, few)) in
      record {
        after = insert c (armed b) m1;
        runs = arrived bytes buffers m1 (insert c (armed b) m1) h.on_time x (
            settle_armed m1 b serial found
              (omega (arith, ap length waits.held, length-append w bytes, few)));
        waits =
            subst (λ o. Waits o (w ++ bytes)) (sym (lookup-insert_self c (armed b) m1))
              (record { held = waits.held; on_time = waits.on_time; front = waits.front });
        others = λ j n. ground (
          arith,
          n,
          others j n,
          lookup-insert c j (armed b) m1,
          lookup-insert c j (entry buffers) buffers,
        );
      }

  loop_drained :
      (strict : Bool) (fuel : ℕ) (b : RtuBuffer)
      → 0 < fuel
      → length b.window ≡ 0
      → flush_loop r c strict is_response custom_fcs fuel b ≡ some (record { sent = []; rest = b })
  loop_drained strict zero b busy e = absurd (omega (arith, busy))
  loop_drained strict (suc fuel) b busy e = loop_empty r c is_response custom_fcs strict fuel b e

  -- The timer fires behind a whole frame.
  pub fired :
      (adu : ApplicationDataUnit) (buffers : Buffers)
      → Sized is_response custom_fcs adu
      → Waits (lookup c buffers) (encode adu)
      → flush interval_ms inter_char_ms is_response custom_fcs r c buffers
        ≡ some (frame_event r c (encode adu) ∷ [], remove c buffers)
  unfolding flush_pool flush_found flush_buffer
  fired adu buffers s h = by_pool (lookup c buffers) refl h
    where
      by_pool :
          (o : Option RtuBuffer)
          → lookup c buffers ≡ o
          → Waits o (encode adu)
          → flush interval_ms inter_char_ms is_response custom_fcs r c buffers
            ≡ some (frame_event r c (encode adu) ∷ [], remove c buffers)
      by_pool none absent h = absurd (omega (arith, ap length h.held, length-encode adu))
      by_pool (some b) found h =
          rw (found, looped, drained)
            (ap (λ w. some (frame_event r c w ∷ [], remove c buffers)) whole_frame)
        where
          long : 0 < length b.window
          long = omega (arith, ap length h.held, length-encode adu)

          whole_frame : take (4 + length adu.payload) b.window ≡ encode adu
          whole_frame =
              ap (take (4 + length adu.payload)) h.held
              ∙ ap (λ k. take k (encode adu)) (sym (length-encode adu))
              ∙ take-all (encode adu)

          drained : (length (drop (4 + length adu.payload) b.window) == 0) ≡ true
          drained = ground (
            arith,
            length-drop (4 + length adu.payload) b.window,
            ap length h.held,
            length-encode adu,
          )

          looped :
              flush_loop r c
                (is_strict interval_ms)
                is_response
                custom_fcs
                (suc (length b.window))
                b
              ≡ some (record {
                sent = frame_event r c (take (4 + length adu.payload) b.window) ∷ [];
                rest = drain (4 + length adu.payload) (drain 0 b);
              })
          looped =
              loop_whole r c is_response custom_fcs (is_strict interval_ms) (length b.window)
                (4 + length adu.payload) b
                (record { sent = []; rest = drain (4 + length adu.payload) (drain 0 b) }) long
                (ap (λ w. try_extract w is_response custom_fcs)
                    (h.held ∙ sym (append-nil (encode adu)))
                  ∙ extract_whole is_response custom_fcs adu [] s)
                (loop_drained (is_strict interval_ms) (length b.window)
                  (drain (4 + length adu.payload) (drain 0 b)) long (ground (arith, drained)))
