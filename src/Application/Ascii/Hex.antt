-- ===== src/Application/Ascii/Hex.antt =====
-- src/layers/application/ascii.rs: what `encode` writes is decoded again.
use rs_modbus.Prelude.{
  ℕ, suc, ◌+◌, ◌-◌, ◌*◌, ◌/◌, ◌%◌, ◌≤◌, ◌<◌, ◌≡◌, refl, ap, ◌∙◌, sym, arith, none, some, Bool, true,
}
use rs_modbus.Prelude.{
  [], ◌∷◌, ◌++◌, append_assoc, Bytes, IsByte, All, byte_at, length, length-append, take,
  take-length_append, ok, err,
}
use rs_modbus.Prelude.{
  get_or-append_length, ==_self, ge→ltb, ◌==◌, if◌then◌else◌, bit_or, Bool-cases, inl, inr,
}
use rs_modbus.Prelude.Bits.{all_below, agree_below}
use rs_modbus.Errors.{ModbusError}
use rs_modbus.Types.{ApplicationDataUnit}
use rs_modbus.Utils.Lrc.{lrc, lrc-IsByte}
use rs_modbus.Application.Ascii.{
  hex_encode, hex_value, hex_decode_byte, is_hex_char, decode_pairs, check_bytes, checked_pairs,
  decode_payload, encode_bytes, coded, encode, decode, with_raw, colon, cr, lf,
}

hex_value-hex_encode : (n : ℕ) → n < 16 → hex_value (hex_encode n) ≡ some n
unfolding hex_value
hex_value-hex_encode n h = ground arith

pub is_hex_char-hex_encode :
    (n : ℕ) (lenient : Bool) → n < 16 → is_hex_char (hex_encode n) lenient ≡ true
unfolding is_hex_char
is_hex_char-hex_encode n lenient h = ground arith

nibbles_table : all_below 256 (λ b. bit_or (b / 16 * 16 % 256) (b % 16) == b) ≡ true
unfolding all_below
nibbles_table = refl

join_nibbles : (b : ℕ) → IsByte b → bit_or (b / 16 * 16 % 256) (b % 16) ≡ b
join_nibbles b h =
    agree_below 256 (λ b. bit_or (b / 16 * 16 % 256) (b % 16)) (λ b. b) b nibbles_table h

hex_decode_byte-hex_encode :
    (b : ℕ) → IsByte b → hex_decode_byte (hex_encode (b / 16)) (hex_encode (b % 16)) ≡ some b
unfolding hex_decode_byte
hex_decode_byte-hex_encode b h = rw (
  hex_value-hex_encode (b / 16) (omega arith),
  hex_value-hex_encode (b % 16) (omega arith),
  join_nibbles b h,
)

decode_pairs-encode_bytes : (bs : Bytes) → All IsByte bs → decode_pairs (encode_bytes bs) ≡ some bs
unfolding decode_pairs encode_bytes
decode_pairs-encode_bytes [] h = refl
decode_pairs-encode_bytes (b ∷ bs) (hb, h) =
    rw (hex_decode_byte-hex_encode b hb, decode_pairs-encode_bytes bs h)

pub length-encode_bytes : (bs : Bytes) → length (encode_bytes bs) ≡ 2 * length bs
unfolding encode_bytes
length-encode_bytes [] = refl
length-encode_bytes (b ∷ bs) = omega (arith, length-encode_bytes bs)

-- A message of bytes.
pub record IsMessage (adu : ApplicationDataUnit) : Type 0 where
  pub unit : IsByte adu.unit
  pub fc : IsByte adu.fc
  pub payload : All IsByte adu.payload

All-snoc : (bs : Bytes) (b : ℕ) → All IsByte bs → IsByte b → All IsByte (bs ++ (b ∷ []))
All-snoc [] b h hb = (hb, tt)
All-snoc (x ∷ bs) b (hx, h) hb = (hx, All-snoc bs b h hb)

abbrev body : ApplicationDataUnit → Bytes
body adu = adu.unit ∷ adu.fc ∷ adu.payload

pub coded-IsByte : (adu : ApplicationDataUnit) → IsMessage adu → All IsByte (coded adu)
coded-IsByte adu h =
    All-snoc (body adu) (lrc (body adu)) (h.unit, (h.fc, h.payload)) (lrc-IsByte (body adu))

pub length-coded : (adu : ApplicationDataUnit) → length (coded adu) ≡ length adu.payload + 3
length-coded adu = omega (arith, length-append adu.payload (lrc (body adu) ∷ []))

check_bytes-coded :
    (p : Bytes) (adu : ApplicationDataUnit)
    → check_bytes p (coded adu)
      ≡ ok (record adu { transaction = none }, colon ∷ (p ++ (cr ∷ lf ∷ [])))
unfolding check_bytes
check_bytes-coded p adu = rw (
  ge→ltb (length (coded adu)) 3 (omega (arith, length-coded adu)),
  short,
  front,
  last,
  ==_self (lrc (body adu)),
  take-length_append adu.payload (lrc (body adu) ∷ []),
)
  where
    short : length (coded adu) - 1 ≡ length (body adu)
    short = omega (arith, length-coded adu)

    front : take (length (body adu)) (coded adu) ≡ body adu
    front = take-length_append (body adu) (lrc (body adu) ∷ [])

    last : byte_at (coded adu) (length (body adu)) ≡ lrc (body adu)
    last = get_or-append_length (body adu) [] (lrc (body adu)) 0

-- The payload of an ASCII frame that is made from a message of bytes is decoded to the message's unit,
-- function code and payload, and the raw frame that is given with it is the encoding.
pub decode_payload-encode_bytes :
    (adu : ApplicationDataUnit)
    → IsMessage adu
    → decode_payload (encode_bytes (coded adu)) ≡ ok (record adu { transaction = none }, encode adu)
unfolding decode_payload encode
decode_payload-encode_bytes adu h =
    rw (even, decode_pairs-encode_bytes (coded adu) (coded-IsByte adu h), checked_pairs)
      (check_bytes-coded (encode_bytes (coded adu)) adu)
  where
    even : (length (encode_bytes (coded adu)) % 2 == 0) ≡ true
    even = ground (arith, length-encode_bytes (coded adu))

-- The last byte of a frame.
last_behind : (p : Bytes) (i : ℕ) → i ≡ suc (length p) → byte_at (p ++ (cr ∷ lf ∷ [])) i ≡ lf
last_behind p i e = rw e (
    ap (λ xs. byte_at xs (suc (length p))) (sym (append_assoc p (cr ∷ []) (lf ∷ [])))
    ∙ ap (byte_at ((p ++ (cr ∷ [])) ++ (lf ∷ []))) (omega (arith, length-append p (cr ∷ [])))
    ∙ get_or-append_length (p ++ (cr ∷ [])) [] lf 0)

-- A frame between its marks, from its length on.
decode-marked :
    (p : Bytes)
    → 7 ≤ length p
    → decode (colon ∷ (p ++ (cr ∷ lf ∷ [])))
      ≡ with_raw (colon ∷ (p ++ (cr ∷ lf ∷ []))) (decode_payload p)
unfolding decode
decode-marked p long = rw (
  ge→ltb (length (colon ∷ (p ++ (cr ∷ lf ∷ [])))) 10 (omega (arith, size, long)),
  second,
  first,
  get_or-append_length p (lf ∷ []) cr 0,
  last_behind p (suc (length p)) refl,
  take-length_append p (cr ∷ lf ∷ []),
)
  where
    size : length (p ++ (cr ∷ lf ∷ [])) ≡ length p + 2
    size = length-append p (cr ∷ lf ∷ [])

    second : length (colon ∷ (p ++ (cr ∷ lf ∷ []))) - 2 ≡ suc (length p)
    second = omega (arith, size)

    first : length (colon ∷ (p ++ (cr ∷ lf ∷ []))) - 1 ≡ suc (suc (length p))
    first = omega (arith, size)

decode-short :
    (bytes : Bytes) → length bytes < 10 → decode bytes ≡ err ModbusError.insufficient_data
unfolding decode
decode-short bytes h = ground arith

-- An ASCII frame of a message of bytes is decoded to the message, exactly if the message has a
-- payload: the frame of an empty one, such as the request of FC17, is refused as too short.
pub ascii_decode-encode :
    (adu : ApplicationDataUnit)
    → IsMessage adu
    → decode (encode adu) ≡ (
        if length adu.payload == 0
        then err ModbusError.insufficient_data
        else ok (record { adu = record adu { transaction = none }; raw = encode adu }))
unfolding encode
ascii_decode-encode adu h = elim (Bool-cases (length adu.payload == 0)) [
  | inl e ↦ rw e (
      decode-short (encode adu)
        (ground (arith, e, size, length-coded adu, length-encode_bytes (coded adu))))
  | inr e ↦ rw e (
      decode-marked (encode_bytes (coded adu))
        (ground (arith, e, length-coded adu, length-encode_bytes (coded adu)))
      ∙ ap (with_raw (encode adu)) (decode_payload-encode_bytes adu h))
]
  where
    size :
        length (encode_bytes (coded adu) ++ (cr ∷ lf ∷ [])) ≡ length (encode_bytes (coded adu)) + 2
    size = length-append (encode_bytes (coded adu)) (cr ∷ lf ∷ [])
