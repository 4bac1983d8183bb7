-- ===== src/Application/Rtu/Stream/Flush.antt =====
-- src/layers/application/rtu.rs: a flush on a network transport, at the front of a stream of frames.
use rs_modbus.Prelude.{
  ℕ, zero, suc, ◌+◌, ◌<◌, ◌≡◌, refl, ap, ◌∙◌, sym, arith, some, Bool, false, List, [], ◌∷◌, ◌++◌,
  map, All,
}
use rs_modbus.Prelude.{
  Bytes, nested, length, length-append, take, drop, take-length_append, drop-length_append, ◌==◌,
  leb, Bool-cases, ◌⊎◌, inl, inr,
}
use rs_modbus.Prelude.HashMap.{HashMap}
use rs_modbus.Types.{ApplicationDataUnit, Event, ConnectionId, ResponseFn}
use rs_modbus.Slave.Dispatch.{CustomFunctionCode}
use rs_modbus.Application.Rtu.{
  frame, insufficient, encode, try_extract, RtuBuffer, drain, frame_event, Flushed, sending,
  starved, flush_loop,
}
use rs_modbus.Application.Rtu.Codec.{length-encode}
use rs_modbus.Application.Rtu.Stream.{Sized, extract_whole, extract_part}

abbrev pub wires : List ApplicationDataUnit → Bytes
wires [] = []
wires (adu ∷ rest) = encode adu ++ wires rest

abbrev pub events : ResponseFn → ConnectionId → List ApplicationDataUnit → List Event
events r c adus = map (λ adu. frame_event r c (encode adu)) adus

module _ {S : Type 0} (r : ResponseFn) (c : ConnectionId) (is_response : Bool)
    (custom_fcs : HashMap ℕ (CustomFunctionCode S)) where
  -- What the loop makes of a front of the stream, of which `later` is still to arrive.
  pub record Progress (fuel : ℕ) (b : RtuBuffer) (later : Bytes) (adus : List ApplicationDataUnit)
      : Type 0 where
    pub done : List ApplicationDataUnit
    pub todo : List ApplicationDataUnit
    pub rest : RtuBuffer
    pub split : adus ≡ done ++ todo
    pub runs :
        flush_loop r c false is_response custom_fcs fuel b
        ≡ some (record { sent = events r c done; rest = rest })
    pub left_ok : rest.window ++ later ≡ wires todo
    pub all_todo : All (Sized is_response custom_fcs) todo
    pub stalled : (todo ≡ []) ⊎ (0 < length later)
    pub on_time : rest.t15_expired ≡ false
    pub few : length rest.window < 256

  pub loop_empty :
      (strict : Bool) (fuel : ℕ) (b : RtuBuffer)
      → length b.window ≡ 0
      → flush_loop r c strict is_response custom_fcs (suc fuel) b
        ≡ some (record { sent = []; rest = b })
  unfolding flush_loop
  loop_empty strict fuel b e = rw (e, flush_loop) refl

  loop_part :
      (fuel : ℕ) (b : RtuBuffer)
      → length b.window < 256
      → b.t15_expired ≡ false
      → try_extract b.window is_response custom_fcs ≡ insufficient
      → flush_loop r c false is_response custom_fcs (suc fuel) b
        ≡ some (record { sent = []; rest = b })
  unfolding flush_loop starved
  loop_part fuel b few on_time part = elim (Bool-cases (length b.window == 0)) [
    | inl e ↦ rw (e, flush_loop) refl
    | inr e ↦ rw (e, part, below, on_time, flush_loop) refl
  ]
    where
      below : leb 256 (length b.window) ≡ false
      below = ground (arith, few)

  pub loop_whole :
      (strict : Bool) (fuel n : ℕ) (b : RtuBuffer) (f : Flushed)
      → 0 < length b.window
      → try_extract b.window is_response custom_fcs ≡ frame 0 n
      → flush_loop r c strict is_response custom_fcs fuel (drain n (drain 0 b)) ≡ some f
      → flush_loop r c strict is_response custom_fcs (suc fuel) b
        ≡ some (sending (frame_event r c (take n b.window)) f)
  unfolding flush_loop
  loop_whole strict fuel n b f long whole later = rw (busy, whole, later, flush_loop) refl
    where
      busy : (length b.window == 0) ≡ false
      busy = ground (arith, long)

  none_yet :
      (fuel : ℕ) (b : RtuBuffer) (later : Bytes) (adus : List ApplicationDataUnit)
      → flush_loop r c false is_response custom_fcs fuel b ≡ some (record { sent = []; rest = b })
      → b.window ++ later ≡ wires adus
      → All (Sized is_response custom_fcs) adus
      → (adus ≡ []) ⊎ (0 < length later)
      → b.t15_expired ≡ false
      → length b.window < 256
      → Progress fuel b later adus
  none_yet fuel b later adus runs e s stalled on_time few = record {
    done = [];
    todo = adus;
    rest = b;
    split = refl;
    runs = runs;
    left_ok = e;
    all_todo = s;
    stalled = stalled;
    on_time = on_time;
    few = few;
  }

  one_more :
      (fuel : ℕ) (b : RtuBuffer) (m later : Bytes) (adu : ApplicationDataUnit)
      (adus : List ApplicationDataUnit)
      → b.window ≡ encode adu ++ m
      → Sized is_response custom_fcs adu
      → Progress fuel (drain (4 + length adu.payload) (drain 0 b)) later adus
      → Progress (suc fuel) b later (adu ∷ adus)
  one_more fuel b m later adu adus p s ih = record {
    done = adu ∷ ih.done;
    todo = ih.todo;
    rest = ih.rest;
    split = ap (◌∷◌ adu) ih.split;
    runs =
        loop_whole false fuel (4 + length adu.payload) b
          (record { sent = events r c ih.done; rest = ih.rest }) long whole ih.runs
        ∙ ap
            (λ (t : Bytes).
              some (record { sent = frame_event r c t ∷ events r c ih.done; rest = ih.rest }))
            front;
    left_ok = ih.left_ok;
    all_todo = ih.all_todo;
    stalled = ih.stalled;
    on_time = ih.on_time;
    few = ih.few;
  }
    where
      long : 0 < length b.window
      long = omega (arith, ap length p, length-append (encode adu) m, length-encode adu)

      whole : try_extract b.window is_response custom_fcs ≡ frame 0 (4 + length adu.payload)
      whole =
          ap (λ w. try_extract w is_response custom_fcs) p
          ∙ extract_whole is_response custom_fcs adu m s

      front : take (4 + length adu.payload) b.window ≡ encode adu
      front =
          ap (take (4 + length adu.payload)) p
          ∙ ap (λ n. take n (encode adu ++ m)) (sym (length-encode adu))
          ∙ take-length_append (encode adu) m

  pub progress :
      (fuel : ℕ) (b : RtuBuffer) (later : Bytes) (adus : List ApplicationDataUnit)
      → length b.window < fuel
      → b.t15_expired ≡ false
      → All (Sized is_response custom_fcs) adus
      → b.window ++ later ≡ wires adus
      → Progress fuel b later adus
  progress zero b later adus h on_time s e = absurd (omega arith)
  progress (suc fuel) b later [] h on_time s e =
      none_yet (suc fuel) b later [] (loop_empty false fuel b nothing) e tt (inl refl) on_time
        (omega (arith, nothing))
    where
      nothing : length b.window ≡ 0
      nothing = omega (arith, ap length e, length-append b.window later)
  progress (suc fuel) b later (adu ∷ adus) h on_time (s, ss) e =
      elim (nested b.window later (encode adu) (wires adus) e) [
        | inl (m, p, q) ↦ one_more fuel b m later adu adus p s (
            progress fuel (drain (4 + length adu.payload) (drain 0 b)) later adus
              (omega (
                arith,
                h,
                ap length (rest_is m p),
                ap length p,
                length-append (encode adu) m,
                length-encode adu,
              ))
              on_time ss (ap (λ w. w ++ later) (rest_is m p) ∙ q))
        | inr (m, p, q, l) ↦
            let small = few m p l in
            none_yet (suc fuel) b later (adu ∷ adus)
              (loop_part fuel b small on_time
                (extract_part is_response custom_fcs adu b.window m s p l))
              e (s, ss) (inr (omega (arith, ap length q, length-append m (wires adus), l))) on_time
              small
      ]
    where
      rest_is :
          (m : Bytes) → b.window ≡ encode adu ++ m → drop (4 + length adu.payload) b.window ≡ m
      rest_is m p =
          ap (drop (4 + length adu.payload)) p
          ∙ ap (λ n. drop n (encode adu ++ m)) (sym (length-encode adu))
          ∙ drop-length_append (encode adu) m

      few : (m : Bytes) → encode adu ≡ b.window ++ m → 0 < length m → length b.window < 256
      few m p l = omega (arith, ap length p, length-append b.window m, length-encode adu, s.fits, l)
