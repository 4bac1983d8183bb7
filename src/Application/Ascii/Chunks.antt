-- ===== src/Application/Ascii/Chunks.antt =====
-- src/layers/application/ascii.rs: `drive_fsm` over the chunks of a connection.
use rs_modbus.Prelude.{
  ◌+◌, ◌≡◌, refl, ap, ◌∙◌, sym, subst, arith, none, Bool, List, [], ◌∷◌, ◌++◌, append_assoc,
  append-nil,
}
use rs_modbus.Prelude.{concat, Bytes, All, replicate}
use rs_modbus.Prelude.HashMap.{HashMap, lookup, nat_eq}
use rs_modbus.Errors.{ModbusError}
use rs_modbus.Types.{ApplicationDataUnit, Event, framing, framing_error, ConnectionId, ResponseFn}
use rs_modbus.Application.Ascii.{
  ConnectionState, default_state, Driven, on_bytes, started, send_frames, drive_fsm, frame_event,
  encode, encode_bytes, coded, or_default,
}
use rs_modbus.Application.Ascii.Hex.{decode_payload-encode_bytes}
use rs_modbus.Application.Ascii.Stream.{
  Sendable, on_bytes-append, on_bytes-encode, on_bytes-started, joined, send_frames-append,
  restored,
}

-- The message that an encoded frame carries.
abbrev pub message_event : ResponseFn → ConnectionId → ApplicationDataUnit → Event
message_event r c adu = framing (record {
  adu = record adu { transaction = none };
  raw = encode adu;
  response = r;
  connection = c;
})

abbrev pub message_events : ResponseFn → ConnectionId → List ApplicationDataUnit → List Event
message_events r c [] = []
message_events r c (adu ∷ adus) = message_event r c adu ∷ message_events r c adus

abbrev pub encoded : List ApplicationDataUnit → Bytes
encoded [] = []
encoded (adu ∷ adus) = encode adu ++ encoded adus

abbrev payloads : List ApplicationDataUnit → List Bytes
payloads [] = []
payloads (adu ∷ adus) = encode_bytes (coded adu) ∷ payloads adus

module _ (r : ResponseFn) (c : ConnectionId) (lenient : Bool) where
  -- The bytes of one connection, chunk by chunk.
  unfoldable pub feed_chunks :
      HashMap ConnectionId ConnectionState
      → List Bytes
      → List Event × HashMap ConnectionId ConnectionState
  unfolding drive_fsm
  feed_chunks m [] = ([], m)
  feed_chunks m (chunk ∷ chunks) =
      let (sent, m') = drive_fsm m chunk r c lenient in
      let (later, m'') = feed_chunks m' chunks in (sent ++ later, m'')

  abbrev driven_from : ConnectionState → Bytes → Driven
  driven_from s bytes = on_bytes lenient bytes (started s)

  -- What a run finds is what its parts find.
  driven_from-append :
      (s : ConnectionState) (xs ys : Bytes)
      → driven_from s (xs ++ ys)
        ≡ joined (driven_from s xs) (driven_from (driven_from s xs).state ys)
  driven_from-append s xs ys =
      on_bytes-append lenient xs ys (started s) ∙ on_bytes-started lenient ys (driven_from s xs)

  -- One chunk without errors.
  drive_clean :
      (m : HashMap ConnectionId ConnectionState) (chunk : Bytes)
      → (driven_from (or_default (lookup c m)) chunk).overflows ≡ 0
      → (driven_from (or_default (lookup c m)) chunk).invalid_hex ≡ 0
      → (drive_fsm m chunk r c lenient).0
        ≡ send_frames r c (driven_from (or_default (lookup c m)) chunk).completed
  unfolding drive_fsm
  drive_clean m chunk o i = rw (o, i)

  -- The chunks sent from `m` on, where `s` is the state of the connection, are as one chunk.
  AsOne : HashMap ConnectionId ConnectionState → ConnectionState → List Bytes → Type 0
  AsOne m s chunks =
      ((feed_chunks m chunks).0 ≡ send_frames r c (driven_from s (concat chunks)).completed)
      × (or_default (lookup c (feed_chunks m chunks).1) ≡ (driven_from s (concat chunks)).state)

  AsOne-cons :
      (m : HashMap ConnectionId ConnectionState) (chunk : Bytes) (chunks : List Bytes)
      → (driven_from (or_default (lookup c m)) chunk).overflows ≡ 0
      → (driven_from (or_default (lookup c m)) chunk).invalid_hex ≡ 0
      → AsOne
          (drive_fsm m chunk r c lenient).1
          (driven_from (or_default (lookup c m)) chunk).state
          chunks
      → AsOne m (or_default (lookup c m)) (chunk ∷ chunks)
  unfolding AsOne feed_chunks
  AsOne-cons m chunk chunks o i (sent, left) =
      let s = or_default (lookup c m) in
      let whole = driven_from-append s chunk (concat chunks) in
      (
        ap (λ es. es ++ (feed_chunks (drive_fsm m chunk r c lenient).1 chunks).0)
              (drive_clean m chunk o i)
            ∙ ap (λ es. send_frames r c (driven_from s chunk).completed ++ es) sent
            ∙ sym (
                send_frames-append r c (driven_from s chunk).completed
                  (driven_from (driven_from s chunk).state (concat chunks)).completed)
            ∙ sym (ap (λ d. send_frames r c d.completed) whole),
        left ∙ sym (ap (λ d. d.state) whole),
      )

  after_drive :
      (m : HashMap ConnectionId ConnectionState) (chunk : Bytes)
      → or_default (lookup c (drive_fsm m chunk r c lenient).1)
        ≡ (driven_from (or_default (lookup c m)) chunk).state
  unfolding drive_fsm
  after_drive m chunk = restored c (driven_from (or_default (lookup c m)) chunk).state m

  feed_chunks-AsOne :
      (chunks : List Bytes) (m : HashMap ConnectionId ConnectionState) (s : ConnectionState)
      → or_default (lookup c m) ≡ s
      → (driven_from s (concat chunks)).overflows ≡ 0
      → (driven_from s (concat chunks)).invalid_hex ≡ 0
      → AsOne m s chunks
  unfolding AsOne feed_chunks on_bytes send_frames
  feed_chunks-AsOne [] m s e o i = (refl, e)
  feed_chunks-AsOne (chunk ∷ chunks) m s e o i =
      subst (λ s. AsOne m s (chunk ∷ chunks)) e
        (AsOne-cons m chunk chunks (omega (arith, over, o)) (omega (arith, inv, i)) (
          feed_chunks-AsOne chunks (drive_fsm m chunk r c lenient).1
            (driven_from (or_default (lookup c m)) chunk).state (after_drive m chunk)
            (omega (arith, over, o)) (omega (arith, inv, i))))
    where
      whole :
          driven_from s (chunk ++ concat chunks)
          ≡ joined
              (driven_from (or_default (lookup c m)) chunk)
              (driven_from (driven_from (or_default (lookup c m)) chunk).state (concat chunks))
      whole =
          ap (λ s. driven_from s (chunk ++ concat chunks)) (sym e)
          ∙ driven_from-append (or_default (lookup c m)) chunk (concat chunks)

      over :
          (driven_from s (chunk ++ concat chunks)).overflows
          ≡ (driven_from (or_default (lookup c m)) chunk).overflows
            + (driven_from
                (driven_from (or_default (lookup c m)) chunk).state
                (concat chunks)).overflows
      over = ap (λ d. d.overflows) whole

      inv :
          (driven_from s (chunk ++ concat chunks)).invalid_hex
          ≡ (driven_from (or_default (lookup c m)) chunk).invalid_hex
            + (driven_from
                (driven_from (or_default (lookup c m)) chunk).state
                (concat chunks)).invalid_hex
      inv = ap (λ d. d.invalid_hex) whole

  on_bytes-encoded :
      (adus : List ApplicationDataUnit) (xs : List Bytes)
      → All Sendable adus
      → on_bytes lenient (encoded adus) (record (started default_state) { completed = xs })
        ≡ record (started default_state) { completed = xs ++ payloads adus }
  unfolding on_bytes
  on_bytes-encoded [] xs h =
      ap (λ c. record (started default_state) { completed = c }) (sym (append-nil xs))
  on_bytes-encoded (adu ∷ adus) xs (hs, h) =
      on_bytes-append lenient (encode adu) (encoded adus)
        (record (started default_state) { completed = xs })
      ∙ ap (on_bytes lenient (encoded adus))
          (on_bytes-encode lenient adu (record (started default_state) { completed = xs }) hs)
      ∙ on_bytes-encoded adus (xs ++ (encode_bytes (coded adu) ∷ [])) h
      ∙ ap (λ c. record (started default_state) { completed = c })
          (append_assoc xs (encode_bytes (coded adu) ∷ []) (payloads adus))

  send_frames-payloads :
      (adus : List ApplicationDataUnit)
      → All Sendable adus
      → send_frames r c (payloads adus) ≡ message_events r c adus
  unfolding send_frames
  send_frames-payloads [] h = refl
  send_frames-payloads (adu ∷ adus) (hs, h) =
      rw (decode_payload-encode_bytes adu hs.message, send_frames-payloads adus h)

  -- Messages of bytes with at most 253 bytes of payload, encoded one after the other and cut into
  -- chunks at any places, are framed into exactly those messages, in order and without an error, on a
  -- connection that is idle; the connection is idle afterwards.
  pub feed_chunks-encoded :
      (m : HashMap ConnectionId ConnectionState) (chunks : List Bytes)
      (adus : List ApplicationDataUnit)
      → or_default (lookup c m) ≡ default_state
      → All Sendable adus
      → concat chunks ≡ encoded adus
      → ((feed_chunks m chunks).0 ≡ message_events r c adus)
        × (or_default (lookup c (feed_chunks m chunks).1) ≡ default_state)
  unfolding AsOne
  feed_chunks-encoded m chunks adus idle sendable e =
      let found = ap (driven_from default_state) e ∙ on_bytes-encoded adus [] sendable in
      let (sent, left) =
        feed_chunks-AsOne chunks m default_state idle (ap (λ d. d.overflows) found)
          (ap (λ d. d.invalid_hex) found) in
      (
        sent ∙ ap (λ d. send_frames r c d.completed) found ∙ send_frames-payloads adus sendable,
        left ∙ ap (λ d. d.state) found,
      )

  -- Whatever bytes arrived on a connection, and whatever comes before it in the same chunk, a whole
  -- frame at the end of a chunk is framed: the chunk's last event is the message.
  pub drive_fsm_recovers :
      (m : HashMap ConnectionId ConnectionState) (garbage : Bytes) (adu : ApplicationDataUnit)
      → Sendable adu
      → (before : List Event) × ((drive_fsm m (garbage ++ encode adu) r c lenient).0
          ≡ before ++ (message_event r c adu ∷ []))
        × (or_default (lookup c (drive_fsm m (garbage ++ encode adu) r c lenient).1)
            ≡ default_state)
  unfolding drive_fsm send_frames
  drive_fsm_recovers m garbage adu s =
      let d = driven_from (or_default (lookup c m)) garbage in
      let overflows = replicate d.overflows (framing_error ModbusError.invalid_data) in
      let invalid = replicate d.invalid_hex (framing_error ModbusError.invalid_hex) in
      let whole =
        on_bytes-append lenient garbage (encode adu) (started (or_default (lookup c m)))
        ∙ on_bytes-encode lenient adu d s in
      let frames =
        send_frames-append r c d.completed (encode_bytes (coded adu) ∷ [])
        ∙ ap (λ f. send_frames r c d.completed ++ (frame_event r c f ∷ []))
            (decode_payload-encode_bytes adu s.message) in
      (
        overflows ++ (invalid ++ send_frames r c d.completed),
        ap
              (λ d.
                replicate d.overflows (framing_error ModbusError.invalid_data)
                ++ (replicate d.invalid_hex (framing_error ModbusError.invalid_hex)
                    ++ send_frames r c d.completed))
              whole
            ∙ ap (λ es. overflows ++ (invalid ++ es)) frames
            ∙ ap (λ es. overflows ++ es)
                (sym
                  (append_assoc invalid (send_frames r c d.completed) (message_event r c adu ∷ [])))
            ∙ sym (
                append_assoc overflows (invalid ++ send_frames r c d.completed)
                  (message_event r c adu ∷ [])),
        after_drive m (garbage ++ encode adu) ∙ ap (λ d. d.state) whole,
      )
