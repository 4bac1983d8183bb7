-- ===== src/Application/Rtu/Loop.antt =====
-- src/layers/application/rtu.rs: the loop of `flush_pool`, by the ways in which it can end.
use rs_modbus.Prelude.{
  ℕ, zero, suc, ◌-◌, ◌≤◌, ◌<◌, ◌≡◌, refl, arith, Option, none, some, Bool, true, false,
}
use rs_modbus.Prelude.{[], Bytes, ◌⊎◌, inl, inr, length, length-drop, take, drop, byte_at}
use rs_modbus.Prelude.{Bool-cases, ◌==◌, ltb, leb, if◌then◌else◌}
use rs_modbus.Prelude.HashMap.{HashMap, lookup, nat_eq}
use rs_modbus.Types.{ConnectionId, ResponseFn, CustomFcPredict}
use rs_modbus.Errors.{ModbusError}
use rs_modbus.Utils.Crc.{crc}
use rs_modbus.Utils.Predict.{PredictResult, predict_rtu_frame_length}
use rs_modbus.Slave.Dispatch.{CustomFunctionCode}
use rs_modbus.Application.Rtu.{
  ExtractResult, frame, insufficient, skip, invalid, frame_crc, crc_matches, check_expected,
  builtin_extract,
}
use rs_modbus.Application.Rtu.{
  custom_extract, extract_by, try_extract, RtuBuffer, drain, compact, frame_event, Flushed, starved,
}
use rs_modbus.Application.Rtu.{flush_loop, flush_buffer, send_first, sending, failed}

-- A frame that is found stands at the front, has 4 to 256 bytes, all in the buffer, and its CRC.
unfoldable pub IsFound : Bytes → ℕ → ℕ → Type 0
IsFound b skipped n =
    (skipped ≡ 0) × (4 ≤ n) × (n ≤ 256) × (n ≤ length b) × (frame_crc b n ≡ crc (take (n - 2) b))

check_expected-IsFound :
    (b : Bytes) (expected skipped n : ℕ)
    → check_expected b expected ≡ frame skipped n
    → IsFound b skipped n
unfolding check_expected crc_matches IsFound
check_expected-IsFound b expected skipped n h = ground arith

builtin-IsFound :
    (b : Bytes) (p : PredictResult) (skipped n : ℕ)
    → builtin_extract b p ≡ frame skipped n
    → IsFound b skipped n
unfolding builtin_extract
builtin-IsFound b (PredictResult.frame_length k) skipped n h =
    check_expected-IsFound b k skipped n h
builtin-IsFound b PredictResult.need_more skipped n h = cc
builtin-IsFound b PredictResult.unknown skipped n h = cc

custom-IsFound :
    (b : Bytes) (p : CustomFcPredict) (skipped n : ℕ)
    → custom_extract b p ≡ frame skipped n
    → IsFound b skipped n
unfolding custom_extract
custom-IsFound b (CustomFcPredict.frame_length k) skipped n h =
    check_expected-IsFound b k skipped n h
custom-IsFound b CustomFcPredict.need_more skipped n h = cc

module _ {S : Type 0} where
  extract_by-IsFound :
      (b : Bytes) (is_response : Bool) (o : Option (CustomFunctionCode S)) (skipped n : ℕ)
      → extract_by b is_response o ≡ frame skipped n
      → IsFound b skipped n
  unfolding extract_by
  extract_by-IsFound b is_response none skipped n h =
      builtin-IsFound b (predict_rtu_frame_length b is_response) skipped n h
  extract_by-IsFound b true (some cfc) skipped n h =
      custom-IsFound b (cfc.predict_response_length b) skipped n h
  extract_by-IsFound b false (some cfc) skipped n h =
      custom-IsFound b (cfc.predict_request_length b) skipped n h

  try_extract-IsFound :
      (b : Bytes) (is_response : Bool) (custom_fcs : HashMap ℕ (CustomFunctionCode S))
      (skipped n : ℕ)
      → try_extract b is_response custom_fcs ≡ frame skipped n
      → IsFound b skipped n
  unfolding try_extract
  try_extract-IsFound b is_response custom_fcs skipped n h = elim (Bool-cases (ltb (length b) 4)) [
    | inl e ↦ absurd (ground (arith, e, h))
    | inr e ↦
        extract_by-IsFound b is_response (lookup (byte_at b 1) custom_fcs) skipped n
          (ground (arith, e, h))
  ]

ExtractResult-cases :
    (r : ExtractResult)
    → ((skipped n : ℕ) × (r ≡ frame skipped n)) ⊎ (r ≡ insufficient) ⊎ (r ≡ skip) ⊎ (r ≡ invalid)
ExtractResult-cases (frame skipped n) = inl (skipped, n, refl)
ExtractResult-cases insufficient = inr (inl refl)
ExtractResult-cases skip = inr (inr (inl refl))
ExtractResult-cases invalid = inr (inr (inr refl))

-- What holds of every outcome of the loop, if it holds of its ends and of a frame sent before.
pub record Closed (r : ResponseFn) (c : ConnectionId) (strict : Bool) (P : Flushed → Type 0)
    : Type 0 where
  pub empty : (b : RtuBuffer) → length b.window ≡ 0 → P (record { sent = []; rest = b })
  pub starves : (b : RtuBuffer) → length b.window < 256 → P (starved strict b)
  pub bad_crc : (b : RtuBuffer) → strict ≡ true → P (failed ModbusError.crc_check_failed b)
  pub is_invalid : (b : RtuBuffer) → P (failed ModbusError.invalid_data b)
  pub sends :
      (b : RtuBuffer) (skipped n : ℕ) (f : Flushed)
      → IsFound b.window skipped n
      → P f
      → P (sending (frame_event r c (take n (drop skipped b.window))) f)

module _ {S : Type 0} (r : ResponseFn) (c : ConnectionId) (strict is_response : Bool)
    (custom_fcs : HashMap ℕ (CustomFunctionCode S)) (P : Flushed → Type 0)
    (closed : Closed r c strict P) where
  Ends : Option Flushed → Type 0
  Ends o = (f : Flushed) × (o ≡ some f) × P f

  send_first-Ends :
      (b : RtuBuffer) (skipped n : ℕ) (o : Option Flushed)
      → IsFound b.window skipped n
      → Ends o
      → Ends (send_first (frame_event r c (take n (drop skipped b.window))) o)
  unfolding Ends
  send_first-Ends b skipped n o found (f, x, p) = (
    sending (frame_event r c (take n (drop skipped b.window))) f,
    rw x,
    closed.sends b skipped n f found p,
  )

  insufficient-Ends :
      (b : RtuBuffer) (one : Option Flushed)
      → Ends one
      → Ends (if leb 256 (length b.window) then one else some (starved strict b))
  unfolding Ends
  insufficient-Ends b one (f, x, p) = elim (Bool-cases (leb 256 (length b.window))) [
    | inl e ↦ rw e (f, x, p)
    | inr e ↦ rw e (starved strict b, refl, closed.starves b (ground (arith, e)))
  ]

  skip-Ends :
      (b : RtuBuffer) (one : Option Flushed)
      → Ends one
      → Ends (if strict then some (failed ModbusError.crc_check_failed b) else one)
  unfolding Ends
  skip-Ends b one (f, x, p) = elim (Bool-cases strict) [
    | inl e ↦ rw e (failed ModbusError.crc_check_failed b, refl, closed.bad_crc b e)
    | inr e ↦ rw e (f, x, p)
  ]

  flush_loop-Ends :
      (fuel : ℕ) (b : RtuBuffer)
      → length b.window < fuel
      → Ends (flush_loop r c strict is_response custom_fcs fuel b)
  unfolding Ends flush_loop IsFound
  flush_loop-Ends zero b h = absurd (omega arith)
  flush_loop-Ends (suc fuel) b h =
      let found = try_extract-IsFound b.window is_response custom_fcs in
      elim (Bool-cases (length b.window == 0)) [
        | inl e ↦
            rw (e, flush_loop)
              (record { sent = []; rest = b }, refl, closed.empty b (ground (arith, e)))
        | inr e ↦
            let one =
              flush_loop-Ends fuel (drain 1 b) (ground (arith, length-drop 1 b.window, h, e)) in
            elim (ExtractResult-cases (try_extract b.window is_response custom_fcs)) [
              | inl (skipped, n, x) ↦
                  rw (e, x, flush_loop)
                    (send_first-Ends b skipped n _ (found skipped n x) (
                      flush_loop-Ends fuel (drain n (drain skipped b)) (
                        ground (
                          arith,
                          length-drop n (drop skipped b.window),
                          length-drop skipped b.window,
                          h,
                          e,
                          found skipped n x,
                        ))))
              | inr (inl x) ↦ rw (e, x, flush_loop) (insufficient-Ends b _ one)
              | inr (inr (inl x)) ↦ rw (e, x, flush_loop) (skip-Ends b _ one)
              | inr (inr (inr x)) ↦
                  rw (e, x, flush_loop)
                    (failed ModbusError.invalid_data b, refl, closed.is_invalid b)
            ]
      ]

  -- The buffer comes back compacted.
  pub flush_buffer-Ends :
      (b : RtuBuffer)
      → (f : Flushed) × (flush_buffer r c strict is_response custom_fcs b
          ≡ some (record f { rest = compact f.rest }))
        × P f
  unfolding flush_buffer Ends
  flush_buffer-Ends b =
      let (f, e, p) = flush_loop-Ends (suc (length b.window)) b (omega arith) in
      (f, rw (e, flush_buffer), p)
