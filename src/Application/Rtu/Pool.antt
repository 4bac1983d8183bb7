-- ===== src/Application/Rtu/Pool.antt =====
-- src/layers/application/rtu.rs: the pools of the connections, through every event.
use rs_modbus.Prelude.{
  ℕ, zero, suc, ◌+◌, ◌*◌, ◌<◌, ◌≡◌, refl, ap, ◌∙◌, sym, subst, arith, Option, none, some, Bool,
  true, false, not, ◌&&◌, ◌||◌, List, [], ◌∷◌, ◌++◌,
}
use rs_modbus.Prelude.{
  Bytes, length, take, drop, min, ltb, leb, ◌==◌, if◌then◌else◌, Bool-cases, inl, inr,
  length-append, length-take, length-drop, ◌>>=◌,
}
use rs_modbus.Prelude.HashMap.{HashMap, lookup, insert, remove, nat_eq, lookup-insert_self}
use rs_modbus.Types.{Event, ConnectionId, ResponseFn}
use rs_modbus.Slave.Dispatch.{CustomFunctionCode}
use rs_modbus.Application.Rtu.{RtuBuffer, available}
use rs_modbus.Application.Rtu.Events.{
  Buffers, or_new, extend_from_slice, check_gap, cancel_timers, Outcome, sending_first, is_strict,
  flush, after_flush, consume, arm_timers, settle_chunk, process_data_event, inter_char_expired,
  close_connection, Happening, bytes_arrive, frame_gap, char_gap, closed, react, react_all,
}
use rs_modbus.Application.Rtu.Left.{
  IsPooled, ArePooled, ArePooled-insert, ArePooled-remove, or_new-IsPooled, IsFlushed,
  flush-Flushes,
}

module _ {S : Type 0} (interval_ms inter_char_ms : ℕ) (is_response : Bool)
    (custom_fcs : HashMap ℕ (CustomFunctionCode S)) (r : ResponseFn) (c : ConnectionId) where
  abbrev mode : Bool
  mode = is_strict interval_ms

  extended-IsPooled :
      (bytes : Bytes) (b : RtuBuffer) → IsPooled b → IsPooled (extend_from_slice bytes b).1
  unfolding extend_from_slice
  extended-IsPooled bytes b h = omega (
    arith,
    h,
    length-append b.window (take (min (length bytes) (available b)) bytes),
    length-take (min (length bytes) (available b)) bytes,
  )

  abbrev Returns : Option Outcome → Type 0
  Returns o = (out : Outcome) × (o ≡ some out) × ArePooled out.1

  sending_first-Returns :
      (events : List Event) (o : Option Outcome) → Returns o → Returns (sending_first events o)
  sending_first-Returns events o (out, e, h) = ((events ++ out.0, out.1), rw e refl, h)

  abbrev full : RtuBuffer → ℕ
  full b = if available b == 0 then 1 else 0

  after_flush-Returns :
      (continue : Buffers → Option Outcome) (out : Outcome)
      → ArePooled out.1
      → IsFlushed mode (lookup c out.1)
      → ((buffers : Buffers)
          → ArePooled buffers
          → full (or_new (lookup c buffers)) ≡ 0
          → Returns (continue buffers))
      → Returns (after_flush interval_ms inter_char_ms is_response custom_fcs r c continue out)
  unfolding after_flush
  after_flush-Returns continue (events, buffers) h flushed k =
      let b = or_new (lookup c buffers) in
      rw (room (lookup c buffers) flushed, after_flush)
        (sending_first-Returns events _ (
          k (insert c b buffers) (ArePooled-insert c b buffers (or_new-IsPooled c buffers h) h)
            (rw (lookup-insert_self c b buffers, room (lookup c buffers) flushed) refl)))
    where
      room : (o : Option RtuBuffer) → IsFlushed mode o → (available (or_new o) == 0) ≡ false
      room o flushed = ground (arith, flushed.few, flushed.front)

  -- The loop ends within two rounds for each byte, and a last one.
  consume-Returns :
      (fuel : ℕ) (bytes : Bytes) (buffers : Buffers)
      → 2 * length bytes + full (or_new (lookup c buffers)) < fuel
      → ArePooled buffers
      → Returns (consume interval_ms inter_char_ms is_response custom_fcs r c fuel bytes buffers)
  unfolding consume extend_from_slice
  consume-Returns zero bytes buffers h p = absurd (omega (arith, h))
  consume-Returns (suc fuel) bytes buffers h p =
      let b = or_new (lookup c buffers) in
      let copied = min (length bytes) (available b) in
      elim (Bool-cases (length bytes == 0)) [
        | inl e ↦ rw (e, consume) (([], buffers), refl, p)
        | inr e ↦ elim (Bool-cases (copied == 0)) [
          | inl z ↦
              let (out, x, pooled, flushed) =
                flush-Flushes interval_ms inter_char_ms is_response custom_fcs r c buffers p in
              rw (e, z, x, consume)
                (after_flush-Returns
                  (consume interval_ms inter_char_ms is_response custom_fcs r c fuel bytes) out
                  pooled flushed
                  (λ m pm room. consume-Returns fuel bytes m (ground (arith, h, e, z, room)) pm))
          | inr z ↦
              rw (e, z, consume)
                (consume-Returns fuel (drop copied bytes)
                  (insert c (extend_from_slice bytes b).1 buffers)
                  (ground (arith, h, e, z, length-drop copied bytes))
                  (ArePooled-insert c (extend_from_slice bytes b).1 buffers
                    (extended-IsPooled bytes b (or_new-IsPooled c buffers p)) p))
        ]
      ]

  -- The bytes that wait have a timer, and when it fires none of them is left.
  pub record IsTimed (buffers : Buffers) (b : RtuBuffer) : Type 0 where
    pub armed : b.timer ≡ true
    pub few : length b.window < 256
    pub fired : Outcome
    pub fires : flush interval_ms inter_char_ms is_response custom_fcs r c buffers ≡ some fired
    pub nothing : lookup c fired.1 ≡ none

  abbrev pub Timed : Buffers → Option RtuBuffer → Type 0
  Timed buffers none = Unit
  Timed buffers (some b) = IsTimed buffers b

  abbrev Settles : Option Outcome → Type 0
  Settles o =
      (out : Outcome) × (o ≡ some out)
      × ArePooled out.1
      × (mode ≡ true → Timed out.1 (lookup c out.1))

  pool_of :
      (buffers : Buffers) (b : RtuBuffer)
      → ArePooled buffers
      → lookup c buffers ≡ some b
      → IsPooled b
  unfolding ArePooled
  pool_of buffers b p e = p c b e

  arm_timers-Settles :
      (buffers : Buffers)
      → ArePooled buffers
      → length (or_new (lookup c buffers)).window < 256
      → Settles (some ([], arm_timers interval_ms inter_char_ms is_response custom_fcs r c buffers))
  unfolding arm_timers
  arm_timers-Settles buffers p few = found (lookup c buffers) refl few
    where
      armed : RtuBuffer → RtuBuffer
      armed b = record b {
        timer = true;
        inter_char_timer = ltb 0 inter_char_ms || b.inter_char_timer;
      }

      found :
          (o : Option RtuBuffer)
          → lookup c buffers ≡ o
          → length (or_new o).window < 256
          → Settles (
              some (
                [],
                elim o as (λ x. Buffers) [
                  | none ↦ buffers
                  | some b ↦
                      insert c
                        (record b {
                          timer = true;
                          inter_char_timer = ltb 0 inter_char_ms || b.inter_char_timer;
                        })
                        buffers
                ],
              ))
      found none e few = (([], buffers), refl, p, λ m. subst (Timed buffers) (sym e) tt)
      found (some b) e few =
          let pooled = ArePooled-insert c (armed b) buffers (pool_of buffers b p e) p in
          let (fired, x, _, flushed) =
            flush-Flushes interval_ms inter_char_ms is_response custom_fcs r c
              (insert c (armed b) buffers) pooled in
          (
            ([], insert c (armed b) buffers),
            refl,
            pooled,
            λ m.
                subst (Timed (insert c (armed b) buffers))
                  (sym (lookup-insert_self c (armed b) buffers))
                  (record {
                    armed = refl;
                    few = few;
                    fired = fired;
                    fires = x;
                    nothing = flushed.nothing m;
                  }),
          )

  settle-Settles :
      (buffers : Buffers)
      → ArePooled buffers
      → Settles (settle_chunk interval_ms inter_char_ms is_response custom_fcs r c buffers)
  unfolding settle_chunk
  settle-Settles buffers p =
      elim (Bool-cases (not mode || leb 256 (length (or_new (lookup c buffers)).window))) [
        | inl e ↦
            let (out, x, pooled, flushed) =
              flush-Flushes interval_ms inter_char_ms is_response custom_fcs r c buffers p in
            rw (e, x) (out, refl, pooled, λ m. subst (Timed out.1) (sym (flushed.nothing m)) tt)
        | inr e ↦ rw e (arm_timers-Settles buffers p (ground (arith, e)))
      ]

  check_gap-IsPooled : (b : RtuBuffer) → IsPooled b → IsPooled (check_gap b).1
  unfolding check_gap
  check_gap-IsPooled b h = elim (Bool-cases (b.t15_expired && not (length b.window == 0))) [
    | inl e ↦ rw e (omega arith)
    | inr e ↦ rw e h
  ]

  event-Settles :
      (bytes : Bytes) (buffers : Buffers)
      → ArePooled buffers
      → Settles
          (process_data_event interval_ms inter_char_ms is_response custom_fcs r c bytes buffers)
  unfolding process_data_event
  event-Settles bytes buffers p =
      let gap = check_gap (or_new (lookup c buffers)) in
      let first = insert c (cancel_timers gap.1) buffers in
      let (out, x, pooled) = consume-Returns (2 * length bytes + 2) bytes first (ground arith) (
        ArePooled-insert c (cancel_timers gap.1) buffers
          (check_gap-IsPooled (or_new (lookup c buffers)) (or_new-IsPooled c buffers p)) p) in
      let (last, y, settled, timed) = settle-Settles out.1 pooled in
      (
        ((gap.0 ++ out.0) ++ last.0, last.1),
        ap
              (λ o. o >>= λ out.
                sending_first (gap.0 ++ out.0)
                  (settle_chunk interval_ms inter_char_ms is_response custom_fcs r c out.1))
              x
            ∙ ap (sending_first (gap.0 ++ out.0)) y,
        settled,
        timed,
      )

  -- On a transport with an interval between frames, a connection that holds bytes after a chunk, with
  -- the pools within bounds before, holds fewer than 256 of them, its t3.5 timer is armed, and when it
  -- fires the flush returns and none of the bytes is left.
  pub process_data_event-Timed :
      (bytes : Bytes) (buffers : Buffers)
      → 0 < interval_ms
      → ArePooled buffers
      → (out : Outcome) × (process_data_event interval_ms inter_char_ms is_response custom_fcs r c
            bytes buffers
          ≡ some out)
        × Timed out.1 (lookup c out.1)
  process_data_event-Timed bytes buffers h p =
      let (out, e, pooled, timed) = event-Settles bytes buffers p in
      (out, e, timed (ground (arith, h)))

inter_char_expired-ArePooled :
    (c : ConnectionId) (buffers : Buffers)
    → ArePooled buffers
    → ArePooled (inter_char_expired c buffers)
unfolding inter_char_expired ArePooled
inter_char_expired-ArePooled c buffers p = found (lookup c buffers) (p c)
  where
    found :
        (o : Option RtuBuffer)
        → ((b : RtuBuffer) → o ≡ some b → IsPooled b)
        → ArePooled (elim o as (λ x. Buffers) [
          | none ↦ buffers
          | some b ↦ insert c (record b { t15_expired = true }) buffers
        ])
    found none h = p
    found (some b) h = ArePooled-insert c (record b { t15_expired = true }) buffers (h b refl) p

module _ {S : Type 0} (interval_ms inter_char_ms : ℕ) (is_response : Bool)
    (custom_fcs : HashMap ℕ (CustomFunctionCode S)) where
  abbrev Reacts : Option Outcome → Type 0
  Reacts o = (out : Outcome) × (o ≡ some out) × ArePooled out.1

  react-ArePooled :
      (h : Happening) (buffers : Buffers)
      → ArePooled buffers
      → Reacts (react interval_ms inter_char_ms is_response custom_fcs h buffers)
  unfolding react close_connection
  react-ArePooled (bytes_arrive bytes r c) buffers p =
      let (out, e, pooled, _) =
        event-Settles interval_ms inter_char_ms is_response custom_fcs r c bytes buffers p in
      (out, e, pooled)
  react-ArePooled (frame_gap r c) buffers p =
      let (out, e, pooled, _) =
        flush-Flushes interval_ms inter_char_ms is_response custom_fcs r c buffers p in
      (out, e, pooled)
  react-ArePooled (char_gap c) buffers p =
      (([], inter_char_expired c buffers), refl, inter_char_expired-ArePooled c buffers p)
  react-ArePooled (closed c) buffers p =
      (([], remove c buffers), refl, ArePooled-remove c buffers p)

  -- Through every sequence of chunks, timers and closes, on any connections, the layer goes on: each
  -- event is handled without an endless loop, and where each pool's window of bytes lay within its 512
  -- bytes before, it does so afterwards.
  pub react_all-ArePooled :
      (hs : List Happening) (buffers : Buffers)
      → ArePooled buffers
      → (out : Outcome) × (react_all interval_ms inter_char_ms is_response custom_fcs hs buffers
          ≡ some out)
        × ArePooled out.1
  unfolding react_all
  react_all-ArePooled [] buffers p = (([], buffers), refl, p)
  react_all-ArePooled (h ∷ hs) buffers p =
      let (first, x, pooled) = react-ArePooled h buffers p in
      let (out, y, last) = react_all-ArePooled hs first.1 pooled in
      (
        (first.0 ++ out.0, out.1),
        ap
              (λ o. o >>= λ out.
                sending_first out.0
                  (react_all interval_ms inter_char_ms is_response custom_fcs hs out.1))
              x
            ∙ ap (sending_first first.0) y,
        last,
      )
