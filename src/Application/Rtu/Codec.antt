-- ===== src/Application/Rtu/Codec.antt =====
-- src/layers/application/rtu.rs: `encode` and `decode`.
use rs_modbus.Prelude.{ℕ, suc, ◌+◌, ◌-◌, ◌≤◌, ◌≡◌, refl, ap, ◌∙◌, arith, none, [], ◌∷◌, ◌++◌}
use rs_modbus.Prelude.{
  Bytes, IsU16, byte_at, be16-hi-lo, hi, lo, to_le_bytes, length, length-append, take, drop, ok,
}
use rs_modbus.Prelude.{take-length_append, ==_self, ge→ltb}
use rs_modbus.Types.{ApplicationDataUnit}
use rs_modbus.Utils.Crc.{crc}
use rs_modbus.Utils.Crc.Residue.{crc-IsU16}
use rs_modbus.Application.Rtu.{encode, decode_inner, frame_crc}

pub length-encode : (adu : ApplicationDataUnit) → length (encode adu) ≡ 4 + length adu.payload
unfolding encode
length-encode adu =
    omega (arith, length-append adu.payload (to_le_bytes (crc (adu.unit ∷ adu.fc ∷ adu.payload))))

-- Bytes behind a body.
byte_at-behind :
    (body : Bytes) (a b : ℕ) (rest : Bytes)
    → (byte_at (body ++ (a ∷ b ∷ rest)) (length body) ≡ a)
      × (byte_at (body ++ (a ∷ b ∷ rest)) (suc (length body)) ≡ b)
byte_at-behind [] a b rest = (refl, refl)
byte_at-behind (x ∷ body) a b rest = byte_at-behind body a b rest

pub framed_crc :
    (body rest : Bytes) (c n : ℕ)
    → IsU16 c
    → n ≡ length body + 2
    → frame_crc (body ++ (lo c ∷ hi c ∷ rest)) n ≡ c
framed_crc body rest c n h e =
    rw
      (
        last,
        before,
        (byte_at-behind body (lo c) (hi c) rest).0,
        (byte_at-behind body (lo c) (hi c) rest).1,
      )
      (be16-hi-lo c h)
  where
    last : n - 1 ≡ suc (length body)
    last = omega (arith, e)

    before : n - 2 ≡ length body
    before = omega (arith, e)

-- A body with its CRC behind it is decoded.
decode_inner-framed :
    (body : Bytes)
    → 2 ≤ length body
    → decode_inner (body ++ to_le_bytes (crc body))
      ≡ ok (record {
        transaction = none;
        unit = byte_at (body ++ to_le_bytes (crc body)) 0;
        fc = byte_at (body ++ to_le_bytes (crc body)) 1;
        payload = drop 2 body;
      })
unfolding decode_inner
decode_inner-framed body long = rw (
  ge→ltb (length (body ++ to_le_bytes (crc body))) 4 (omega (arith, size, long)),
  framed_crc body [] (crc body) (length (body ++ to_le_bytes (crc body))) (crc-IsU16 body) size,
  front,
  ==_self (crc body),
)
  where
    size : length (body ++ to_le_bytes (crc body)) ≡ length body + 2
    size = length-append body (to_le_bytes (crc body))

    before : length (body ++ to_le_bytes (crc body)) - 2 ≡ length body
    before = omega (arith, size)

    front :
        take (length (body ++ to_le_bytes (crc body)) - 2) (body ++ to_le_bytes (crc body)) ≡ body
    front =
        ap (λ (k : ℕ). take k (body ++ to_le_bytes (crc body))) before
        ∙ take-length_append body (to_le_bytes (crc body))

-- A frame of the RTU layer is decoded to the unit, function code and payload that it was made from;
-- the transaction ID, which RTU has none of, is not kept.
pub decode_inner-encode :
    (adu : ApplicationDataUnit) → decode_inner (encode adu) ≡ ok (record adu { transaction = none })
unfolding encode
decode_inner-encode adu = decode_inner-framed (adu.unit ∷ adu.fc ∷ adu.payload) (omega arith)
