-- ===== src/Application/Rtu/Stream.antt =====
-- src/layers/application/rtu.rs: a frame that the predictor sizes, at the front of a pool.
pub mod Flush
pub mod Pools
pub mod Chunks
pub mod Framed
pub mod Serial
pub mod Transmissions
use rs_modbus.Prelude.{
  ℕ, zero, suc, ◌+◌, ◌-◌, ◌≤◌, ◌<◌, ◌≡◌, ◌≢◌, refl, ap, ◌∙◌, sym, arith, Option, none, some, Bool,
  true, false, List, [], ◌∷◌, ◌++◌, append_assoc,
}
use rs_modbus.Prelude.{
  Bytes, byte_at, length, length-append, take, drop, take-length_append, hi, lo, ==_self, ◌==◌, ltb,
  leb, ◌&&◌, ◌||◌, if◌then◌else◌, Bool-cases, ◌⊎◌, inl, inr, to_le_bytes,
}
use rs_modbus.Prelude.HashMap.{HashMap, lookup, nat_eq}
use rs_modbus.Types.{ApplicationDataUnit}
use rs_modbus.Utils.Crc.{crc}
use rs_modbus.Utils.Crc.Residue.{crc-IsU16}
use rs_modbus.Utils.Predict.{PredictResult, predict_rtu_frame_length}
use rs_modbus.Utils.Predict.Stable.{predict-append}
use rs_modbus.Slave.Dispatch.{CustomFunctionCode}
use rs_modbus.Application.Rtu.{
  frame, insufficient, encode, frame_crc, crc_matches, check_expected, builtin_extract, extract_by,
  try_extract,
}
use rs_modbus.Application.Rtu.Codec.{framed_crc, length-encode}

crc_body :
    (body rest : Bytes) (n : ℕ)
    → n ≡ length body + 2
    → crc_matches (body ++ (lo (crc body) ∷ hi (crc body) ∷ rest)) n ≡ true
unfolding crc_matches
crc_body body rest n e =
    rw (framed_crc body rest (crc body) n (crc-IsU16 body) e, all_there, front) (==_self (crc body))
  where
    framed : Bytes
    framed = body ++ (lo (crc body) ∷ hi (crc body) ∷ rest)

    all_there : (ltb n 2 || ltb (length framed) n) ≡ false
    all_there = ground (arith, e, length-append body (lo (crc body) ∷ hi (crc body) ∷ rest))

    front : take (n - 2) framed ≡ body
    front = ap (λ k. take k framed) (omega (arith, e)) ∙ take-length_append body _

crc_whole :
    (adu : ApplicationDataUnit) (rest : Bytes)
    → crc_matches (encode adu ++ rest) (4 + length adu.payload) ≡ true
unfolding encode
crc_whole adu rest =
    let body = adu.unit ∷ adu.fc ∷ adu.payload in
    ap (λ b. crc_matches b (4 + length adu.payload))
      (append_assoc body (to_le_bytes (crc body)) rest)
    ∙ crc_body body rest (4 + length adu.payload) (omega arith)

-- A message whose function code is not the user's, and whose frame has at most 256 bytes and the
-- length that the predictor tells.
pub record Sized {S : Type 0} (is_response : Bool) (custom_fcs : HashMap ℕ (CustomFunctionCode S))
    (adu : ApplicationDataUnit) : Type 0 where
  pub builtin : lookup adu.fc custom_fcs ≡ none
  pub sized :
      predict_rtu_frame_length (encode adu) is_response
      ≡ PredictResult.frame_length (4 + length adu.payload)
  pub fits : length adu.payload ≤ 252

check_whole :
    (b : Bytes) (n : ℕ)
    → 4 ≤ n
    → n ≤ 256
    → n ≤ length b
    → crc_matches b n ≡ true
    → check_expected b n ≡ frame 0 n
unfolding check_expected crc_matches
check_whole b n low high long checked = ground (arith, low, high, long, checked)

check_part :
    (b : Bytes) (n more : ℕ)
    → 4 ≤ n
    → n ≤ 256
    → length b + more ≡ n
    → 0 < more
    → check_expected b n ≡ insufficient
unfolding check_expected
check_part b n more low high size h = ground (arith, low, high, size, h)

module _ {S : Type 0} (is_response : Bool) (custom_fcs : HashMap ℕ (CustomFunctionCode S)) where
  predict_whole :
      (adu : ApplicationDataUnit) (rest : Bytes)
      → Sized is_response custom_fcs adu
      → predict_rtu_frame_length (encode adu ++ rest) is_response
        ≡ PredictResult.frame_length (4 + length adu.payload)
  predict_whole adu rest s =
      predict-append (encode adu) rest is_response (λ e. ground (arith, e, s.sized)) ∙ s.sized

  -- A whole frame at the front is extracted.
  pub extract_whole :
      (adu : ApplicationDataUnit) (rest : Bytes)
      → Sized is_response custom_fcs adu
      → try_extract (encode adu ++ rest) is_response custom_fcs ≡ frame 0 (4 + length adu.payload)
  unfolding try_extract extract_by builtin_extract check_expected
  extract_whole adu rest s =
      rw (long_enough, code, s.builtin, predict_whole adu rest s)
        (check_whole (encode adu ++ rest) (4 + length adu.payload) (omega arith)
          (omega (arith, s.fits)) (omega (arith, size)) (crc_whole adu rest))
    where
      size : length (encode adu ++ rest) ≡ 4 + length adu.payload + length rest
      size = length-append (encode adu) rest ∙ ap (λ n. n + length rest) (length-encode adu)

      long_enough : ltb (length (encode adu ++ rest)) 4 ≡ false
      long_enough = ground (arith, size)

      code : byte_at (encode adu ++ rest) 1 ≡ adu.fc
      code = unfold encode in refl

  -- A proper part of a frame is not enough.
  pub extract_part :
      (adu : ApplicationDataUnit) (b more : Bytes)
      → Sized is_response custom_fcs adu
      → encode adu ≡ b ++ more
      → 0 < length more
      → try_extract b is_response custom_fcs ≡ insufficient
  unfolding try_extract extract_by builtin_extract
  extract_part adu b more s e h = elim (Bool-cases (ltb (length b) 4)) [
    | inl short ↦ rw short refl
    | inr long ↦
        rw (long, code b more e long, s.builtin)
          (predicted (predict_rtu_frame_length b is_response) refl)
  ]
    where
      size : length b + length more ≡ 4 + length adu.payload
      size = sym (length-append b more) ∙ sym (ap length e) ∙ length-encode adu

      code :
          (b more : Bytes)
          → encode adu ≡ b ++ more
          → ltb (length b) 4 ≡ false
          → byte_at b 1 ≡ adu.fc
      code [] more e l = absurd (ground (arith, l))
      code (x ∷ []) more e l = absurd (ground (arith, l))
      code (x ∷ y ∷ b) more e l = ap (λ w. byte_at w 1) (sym e) ∙ unfold encode in refl

      answer :
          (p : PredictResult)
          → predict_rtu_frame_length b is_response ≡ p
          → predict_rtu_frame_length b is_response ≢ PredictResult.need_more
          → p ≡ PredictResult.frame_length (4 + length adu.payload)
      answer p q known =
          sym q
          ∙ sym (predict-append b more is_response known)
          ∙ ap (λ w. predict_rtu_frame_length w is_response) (sym e)
          ∙ s.sized

      length_of :
          (k : ℕ)
          → predict_rtu_frame_length b is_response ≡ PredictResult.frame_length k
          → k ≡ 4 + length adu.payload
      length_of k q = ground (arith, answer _ q (λ x. ground (arith, x, q)))

      predicted :
          (p : PredictResult)
          → predict_rtu_frame_length b is_response ≡ p
          → builtin_extract b p ≡ insufficient
      predicted PredictResult.need_more q = refl
      predicted (PredictResult.frame_length k) q =
          let same = length_of k q in
          check_part b k (length more) (omega (arith, same)) (omega (arith, same, s.fits))
            (size ∙ sym same) h
      predicted PredictResult.unknown q =
          absurd (ground (arith, answer _ q (λ x. ground (arith, x, q))))
