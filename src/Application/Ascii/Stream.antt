-- ===== src/Application/Ascii/Stream.antt =====
-- src/layers/application/ascii.rs: the state machine of the framing over a run of bytes.
use rs_modbus.Prelude.{ℕ, ◌+◌, ◌/◌, ◌%◌, ◌≤◌, ◌<◌, ◌≡◌, refl, ap, ◌∙◌, sym, arith, Bool, true, ◌&&◌}
use rs_modbus.Prelude.{
  List, [], ◌∷◌, ◌++◌, append_assoc, append-nil, Bytes, IsByte, All, length, length-append, ◌==◌,
}
use rs_modbus.Prelude.{Bool-cases, inl, inr}
use rs_modbus.Prelude.HashMap.{HashMap, lookup, nat_eq, lookup-remove, beq_self, lookup-insert_self}
use rs_modbus.Types.{ApplicationDataUnit, ConnectionId, ResponseFn}
use rs_modbus.Application.Ascii.{
  FsmStatus, idle, reception, waiting_end, ConnectionState, default_state, Driven, on_byte,
  on_bytes, receive, is_hex_char, colon, cr, lf, started, store, send_frames,
}
use rs_modbus.Application.Ascii.{
  decode_payload, frame_event, encode, encode_bytes, coded, or_default, is_idle,
}
use rs_modbus.Application.Ascii.Hex.{
  IsMessage, is_hex_char-hex_encode, length-encode_bytes, length-coded, coded-IsByte,
}

-- A message of bytes whose frame fits the buffer.
pub record Sendable (adu : ApplicationDataUnit) : Type 0 where
  pub message : IsMessage adu
  pub fits : length adu.payload ≤ 253

module _ (lenient : Bool) where
  pub on_bytes-append :
      (xs ys : Bytes) (d : Driven)
      → on_bytes lenient (xs ++ ys) d ≡ on_bytes lenient ys (on_bytes lenient xs d)
  unfolding on_bytes
  on_bytes-append [] ys d = refl
  on_bytes-append (x ∷ xs) ys d = on_bytes-append xs ys (on_byte lenient d.state.status x d)

  abbrev at : FsmStatus → Bytes → Driven → Driven
  at status frame d = record d { state = record { status = status; frame = frame } }

  on_byte-colon :
      (status : FsmStatus) (d : Driven) → on_byte lenient status colon d ≡ at reception [] d
  unfolding on_byte
  on_byte-colon idle d = refl
  on_byte-colon reception d = refl
  on_byte-colon waiting_end d = refl

  -- A hex character is none of the marks.
  on_byte-hex :
      (c : ℕ) (frame : Bytes) (d : Driven)
      → is_hex_char c lenient ≡ true
      → length frame < 512
      → on_byte lenient reception c (at reception frame d) ≡ at reception (frame ++ (c ∷ [])) d
  unfolding on_byte receive is_hex_char
  on_byte-hex c frame d h fits = ground arith

  on_bytes-hex :
      (cs frame : Bytes) (d : Driven)
      → All (λ c. is_hex_char c lenient ≡ true) cs
      → length frame + length cs ≤ 512
      → on_bytes lenient cs (at reception frame d) ≡ at reception (frame ++ cs) d
  unfolding on_bytes
  on_bytes-hex [] frame d h fits = ap (λ f. at reception f d) (sym (append-nil frame))
  on_bytes-hex (c ∷ cs) frame d (hc, h) fits =
      ap (on_bytes lenient cs) (on_byte-hex c frame d hc (omega arith))
      ∙ on_bytes-hex cs (frame ++ (c ∷ [])) d h (omega (arith, length-append frame (c ∷ [])))
      ∙ ap (λ f. at reception f d) (append_assoc frame (c ∷ []) cs)

  encode_bytes-hex :
      (bs : Bytes) → All IsByte bs → All (λ c. is_hex_char c lenient ≡ true) (encode_bytes bs)
  unfolding encode_bytes
  encode_bytes-hex [] h = tt
  encode_bytes-hex (b ∷ bs) (hb, h) = (
    is_hex_char-hex_encode (b / 16) lenient (omega arith),
    (is_hex_char-hex_encode (b % 16) lenient (omega arith), encode_bytes-hex bs h),
  )

  abbrev pub completing : Bytes → Driven → Driven
  completing payload d = record d {
    state = default_state;
    completed = d.completed ++ (payload ∷ []);
  }

  -- From every state, a whole frame is completed, and leaves the machine idle.
  pub on_bytes-encode :
      (adu : ApplicationDataUnit) (d : Driven)
      → Sendable adu
      → on_bytes lenient (encode adu) d ≡ completing (encode_bytes (coded adu)) d
  unfolding on_bytes on_byte encode
  on_bytes-encode adu d s =
      ap (on_bytes lenient (encode_bytes (coded adu) ++ (cr ∷ lf ∷ [])))
        (on_byte-colon d.state.status d)
      ∙ on_bytes-append (encode_bytes (coded adu)) (cr ∷ lf ∷ []) (at reception [] d)
      ∙ ap (on_bytes lenient (cr ∷ lf ∷ [])) (
          on_bytes-hex (encode_bytes (coded adu)) [] d
            (encode_bytes-hex (coded adu) (coded-IsByte adu s.message))
            (omega (arith, length-encode_bytes (coded adu), length-coded adu, s.fits)))

-- The findings of `e` behind those of `d`.
abbrev pub joined : Driven → Driven → Driven
joined d e = record {
  state = e.state;
  completed = d.completed ++ e.completed;
  overflows = d.overflows + e.overflows;
  invalid_hex = d.invalid_hex + e.invalid_hex;
}

on_byte-joined :
    (lenient : Bool) (status : FsmStatus) (byte : ℕ) (d e : Driven)
    → on_byte lenient status byte (joined d e) ≡ joined d (on_byte lenient status byte e)
unfolding on_byte receive
on_byte-joined lenient idle byte d e = ground arith
on_byte-joined lenient reception byte d e = ground arith
on_byte-joined lenient waiting_end byte d e =
    ground (arith, append_assoc d.completed e.completed (e.state.frame ∷ []))

on_bytes-joined :
    (lenient : Bool) (bytes : Bytes) (d e : Driven)
    → on_bytes lenient bytes (joined d e) ≡ joined d (on_bytes lenient bytes e)
unfolding on_bytes
on_bytes-joined lenient [] d e = refl
on_bytes-joined lenient (b ∷ bytes) d e =
    ap (on_bytes lenient bytes) (on_byte-joined lenient e.state.status b d e)
    ∙ on_bytes-joined lenient bytes d (on_byte lenient e.state.status b e)

joined-started : (d : Driven) → d ≡ joined d (started d.state)
joined-started d = ground (arith, append-nil d.completed)

-- What a run adds does not depend on what was found before.
pub on_bytes-started :
    (lenient : Bool) (bytes : Bytes) (d : Driven)
    → on_bytes lenient bytes d ≡ joined d (on_bytes lenient bytes (started d.state))
on_bytes-started lenient bytes d =
    ap (on_bytes lenient bytes) (joined-started d)
    ∙ on_bytes-joined lenient bytes d (started d.state)

pub send_frames-append :
    (r : ResponseFn) (c : ConnectionId) (xs ys : List Bytes)
    → send_frames r c (xs ++ ys) ≡ send_frames r c xs ++ send_frames r c ys
unfolding send_frames
send_frames-append r c [] ys = refl
send_frames-append r c (x ∷ xs) ys =
    ap (λ es. frame_event r c (decode_payload x) ∷ es) (send_frames-append r c xs ys)

-- A state that is removed is the default one.
pub restored :
    (c : ConnectionId) (s : ConnectionState) (m : HashMap ConnectionId ConnectionState)
    → or_default (lookup c (store c s m)) ≡ s
unfolding store
restored c s m = elim (Bool-cases (is_idle s.status && length s.frame == 0)) [
  | inl e ↦ rw (e, lookup-remove c c m, beq_self c) (is_default s.status s.frame e)
  | inr e ↦ rw (e, lookup-insert_self c s m)
]
  where
    is_default :
        (status : FsmStatus) (frame : Bytes)
        → (is_idle status && length frame == 0) ≡ true
        → default_state ≡ record { status = status; frame = frame }
    is_default idle [] e = refl
    is_default idle (b ∷ frame) e = ground (arith, e)
    is_default reception frame e = cc
    is_default waiting_end frame e = cc
