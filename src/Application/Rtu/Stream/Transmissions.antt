-- ===== src/Application/Rtu/Stream/Transmissions.antt =====
-- src/layers/application/rtu.rs: the frames of a serial line, one after the other.
use rs_modbus.Prelude.{
  ℕ, ◌≤◌, ◌<◌, ◌≡◌, ◌≢◌, refl, ap, ◌∙◌, sym, subst, arith, Option, none, some, Bool, List, [], ◌∷◌,
  ◌++◌, append_assoc, append-nil, map, All, concat,
}
use rs_modbus.Prelude.{Bytes, length, length-append}
use rs_modbus.Prelude.HashMap.{HashMap, lookup, remove, nat_eq, lookup-remove, beq_self}
use rs_modbus.Types.{ApplicationDataUnit, ConnectionId, ResponseFn}
use rs_modbus.Slave.Dispatch.{CustomFunctionCode}
use rs_modbus.Application.Rtu.{encode}
use rs_modbus.Application.Rtu.Codec.{length-encode}
use rs_modbus.Application.Rtu.Events.{
  Buffers, Outcome, sending_first, Happening, react, react_all, frame_gap,
}
use rs_modbus.Application.Rtu.Stream.{Sized}
use rs_modbus.Application.Rtu.Stream.Flush.{events}
use rs_modbus.Application.Rtu.Stream.Framed.{message, events-message, arrivals}
use rs_modbus.Application.Rtu.Stream.Serial.{Waits, Kept, keep, fired}

-- Each frame arrives in pieces, and then the gap behind it is seen.
abbrev pub transmissions : ResponseFn → ConnectionId → List (List Bytes) → List Happening
transmissions r c [] = []
transmissions r c (pieces ∷ more) = arrivals r c pieces ++ (frame_gap r c ∷ transmissions r c more)

sending_nothing : (o : Option Outcome) → sending_first [] o ≡ o
sending_nothing none = refl
sending_nothing (some (events, m)) = refl

module _ {S : Type 0} (interval_ms inter_char_ms : ℕ) (is_response : Bool)
    (custom_fcs : HashMap ℕ (CustomFunctionCode S)) (r : ResponseFn) (c : ConnectionId) where
  -- The pieces of a frame leave it in the pool, and nothing is sent.
  record Gathered (pieces : List Bytes) (buffers : Buffers) (w : Bytes) : Type 0 where
    after : Buffers
    runs :
        (hs : List Happening)
        → react_all interval_ms inter_char_ms is_response custom_fcs
            (arrivals r c pieces ++ hs)
            buffers
          ≡ react_all interval_ms inter_char_ms is_response custom_fcs hs after
    waits : Waits (lookup c after) w
    others : (j : ConnectionId) → j ≢ c → lookup j after ≡ lookup j buffers

  next_piece :
      (piece : Bytes) (pieces : List Bytes) (buffers : Buffers) (w v : Bytes)
      → (k : Kept interval_ms inter_char_ms is_response custom_fcs r c piece buffers w)
      → Gathered pieces k.after v
      → Gathered (piece ∷ pieces) buffers v
  unfolding react_all react
  next_piece piece pieces buffers w v k g = record {
    after = g.after;
    runs = λ hs. rw (k.runs, react_all) (sending_nothing _ ∙ g.runs hs);
    waits = g.waits;
    others = λ j n. g.others j n ∙ k.others j n;
  }

  gather :
      (pieces : List Bytes) (buffers : Buffers) (w : Bytes)
      → 0 < interval_ms
      → Waits (lookup c buffers) w
      → length (w ++ concat pieces) < 256
      → Gathered pieces buffers (w ++ concat pieces)
  gather [] buffers w serial h few = record {
    after = buffers;
    runs = λ hs. refl;
    waits = subst (λ v. Waits (lookup c buffers) v) (sym (append-nil w)) h;
    others = λ j n. refl;
  }
  gather (piece ∷ pieces) buffers w serial h few =
      let k = keep interval_ms inter_char_ms is_response custom_fcs r c piece buffers w serial h (
        omega (
          arith,
          few,
          length-append w (piece ++ concat pieces),
          length-append piece (concat pieces),
        )) in
      next_piece piece pieces buffers w (w ++ (piece ++ concat pieces)) k (
        subst (λ v. Gathered pieces k.after v) (append_assoc w piece (concat pieces))
          (gather pieces k.after (w ++ piece) serial k.waits
            (omega (arith, few, ap length (append_assoc w piece (concat pieces))))))

  -- The outcome of frames that arrive when the connection has no buffer.
  record Transmitted (pieces : List (List Bytes)) (buffers : Buffers)
      (adus : List ApplicationDataUnit) : Type 0 where
    after : Buffers
    runs :
        react_all interval_ms inter_char_ms is_response custom_fcs
          (transmissions r c pieces)
          buffers
        ≡ some (events r c adus, after)
    empty : lookup c after ≡ none
    others : (j : ConnectionId) → j ≢ c → lookup j after ≡ lookup j buffers

  one_more :
      (pieces : List Bytes) (more : List (List Bytes)) (buffers : Buffers)
      (adu : ApplicationDataUnit) (adus : List ApplicationDataUnit)
      → Sized is_response custom_fcs adu
      → (g : Gathered pieces buffers (encode adu)) → Transmitted more (remove c g.after) adus
      → Transmitted (pieces ∷ more) buffers (adu ∷ adus)
  unfolding react_all react
  one_more pieces more buffers adu adus s g t = record {
    after = t.after;
    runs =
        g.runs (frame_gap r c ∷ transmissions r c more)
        ∙ rw
            (
              fired interval_ms inter_char_ms is_response custom_fcs r c adu g.after s g.waits,
              t.runs,
              react_all,
            )
            refl;
    empty = t.empty;
    others = λ j n. t.others j n ∙ ground (arith, n, lookup-remove c j g.after) ∙ g.others j n;
  }

  transmit :
      (pieces : List (List Bytes)) (buffers : Buffers) (adus : List ApplicationDataUnit)
      → 0 < interval_ms
      → lookup c buffers ≡ none
      → All (Sized is_response custom_fcs) adus
      → All (λ adu. length adu.payload ≤ 251) adus
      → map concat pieces ≡ map encode adus
      → Transmitted pieces buffers adus
  unfolding react_all
  transmit [] buffers [] serial fresh s fits e = record {
    after = buffers;
    runs = refl;
    empty = fresh;
    others = λ j n. refl;
  }
  transmit [] buffers (adu ∷ adus) serial fresh s fits e = absurd (ground (arith, e))
  transmit (p ∷ more) buffers [] serial fresh s fits e = absurd (ground (arith, e))
  transmit (p ∷ more) buffers (adu ∷ adus) serial fresh (s, ss) (fit, fits) e =
      let whole : concat p ≡ encode adu = ground (arith, e) in
      let g =
        subst (λ v. Gathered p buffers v) whole
          (gather p buffers [] serial
            (subst (λ o. Waits o []) (sym fresh)
              (record { held = refl; on_time = refl; front = refl }))
            (omega (arith, ap length whole, length-encode adu, fit))) in
      one_more p more buffers adu adus s g (
        transmit more (remove c g.after) adus serial
          (lookup-remove c c g.after ∙ rw (beq_self c) refl) ss fits (ground (arith, e)))

  -- On a transport with an interval between frames: messages whose function codes are not the user's,
  -- with frames of fewer than 256 bytes and of the lengths that the predictor tells, each of which
  -- arrives in any pieces, without a gap among them and with the t3.5 timer behind it, are framed on
  -- a connection without a buffer into exactly those messages, in order and with no error. Afterwards
  -- the connection has no buffer, and the other connections keep theirs.
  pub react_all-transmissions :
      (pieces : List (List Bytes)) (buffers : Buffers) (adus : List ApplicationDataUnit)
      → 0 < interval_ms
      → lookup c buffers ≡ none
      → All (Sized is_response custom_fcs) adus
      → All (λ adu. length adu.payload ≤ 251) adus
      → map concat pieces ≡ map encode adus
      → (after : Buffers) × (react_all interval_ms inter_char_ms is_response custom_fcs
            (transmissions r c pieces)
            buffers
          ≡ some (map (message r c) adus, after))
        × (lookup c after ≡ none)
        × ((j : ConnectionId) → j ≢ c → lookup j after ≡ lookup j buffers)
  react_all-transmissions pieces buffers adus serial fresh s fits e =
      let t = transmit pieces buffers adus serial fresh s fits e in
      (t.after, t.runs ∙ ap (λ es. some (es, t.after)) (events-message r c adus), t.empty, t.others)
