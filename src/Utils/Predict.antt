-- ===== src/Utils/Predict.antt =====
-- src/utils.rs: the length of an RTU frame predicted from its leading bytes.
pub mod Stable
use rs_modbus.Prelude.{ℕ, zero, suc, ◌+◌, Option, none, some, Bool, true, false, not, ◌&&◌, ◌||◌}
use rs_modbus.Prelude.{Bytes, byte_at, length, ltb, leb, ◌==◌, if◌then◌else◌, bit_and}
use rs_modbus.Vars.{exception_offset, mei_read_device_id, read_device_identification}

pub data PredictResult : Type 0 where
  frame_length : ℕ → PredictResult
  need_more unknown : PredictResult

-- `(fc & EXCEPTION_OFFSET) != 0`
unfoldable pub is_exception : ℕ → Bool
is_exception fc = not (bit_and fc exception_offset == 0)

unfoldable pub is_standard_fc : ℕ → Bool → Bool
unfolding is_exception
is_standard_fc fc is_response =
    if is_response && is_exception fc
    then true
    else if is_response
    then fc == 0x05
      || fc == 0x06
      || fc == 0x0f
      || fc == 0x10
      || fc == 0x16
      || fc == 0x01
      || fc == 0x02
      || fc == 0x03
      || fc == 0x04
      || fc == 0x11
      || fc == 0x17
      || fc == 0x2b
    else (leb 0x01 fc && leb fc 0x06)
      || fc == 0x11
      || fc == 0x16
      || fc == 0x2b
      || fc == 0x0f
      || fc == 0x10
      || fc == 0x17

-- The function codes whose frames have one length.
unfoldable pub fixed_length : Bool → ℕ → Option ℕ
fixed_length true fc =
    if fc == 0x05 || fc == 0x06 || fc == 0x0f || fc == 0x10
    then some 8
    else if fc == 0x16
    then some 10
    else none
fixed_length false fc =
    if leb 0x01 fc && leb fc 0x06
    then some 8
    else if fc == 0x11
    then some 4
    else if fc == 0x16
    then some 10
    else if fc == 0x2b
    then some 7
    else none

-- The function codes whose frames have a count byte: its offset, and the length without the payload.
unfoldable pub byte_count_at : Bool → ℕ → Option (ℕ × ℕ)
byte_count_at true fc =
    if fc == 0x01 || fc == 0x02 || fc == 0x03 || fc == 0x04 || fc == 0x11 || fc == 0x17
    then some (2, 5)
    else none
byte_count_at false fc =
    if fc == 0x0f || fc == 0x10 then some (6, 9) else if fc == 0x17 then some (10, 13) else none

-- The loop over the objects that are left, at `offset`.
unfoldable pub walk_objects : ℕ → ℕ → Bytes → PredictResult
walk_objects zero offset buffer = frame_length (offset + 2)
walk_objects (suc more) offset buffer =
    let rest = walk_objects more (offset + (2 + byte_at buffer (offset + 1))) buffer in
    if ltb (length buffer) (offset + 2) then need_more else rest

unfoldable pub predict_fc43_14_response : Bytes → PredictResult
unfolding walk_objects
predict_fc43_14_response buffer =
    if ltb (length buffer) 8
    then need_more
    else if not (byte_at buffer 2 == mei_read_device_id)
    then unknown
    else walk_objects (byte_at buffer 7) 8 buffer

-- What is left when the function code has no fixed length.
unfoldable pub predict_variable : Bool → ℕ → Option (ℕ × ℕ) → Bytes → PredictResult
unfolding predict_fc43_14_response
predict_variable is_response fc (some (offset, extra)) buffer =
    if leb (length buffer) offset then need_more else frame_length (extra + byte_at buffer offset)
predict_variable is_response fc none buffer =
    if is_response && fc == read_device_identification
    then predict_fc43_14_response buffer
    else unknown

unfoldable pub predict_known : Bool → ℕ → Option ℕ → Bytes → PredictResult
unfolding predict_variable byte_count_at
predict_known is_response fc (some n) buffer = frame_length n
predict_known is_response fc none buffer =
    predict_variable is_response fc (byte_count_at is_response fc) buffer

unfoldable pub predict_rtu_frame_length : Bytes → Bool → PredictResult
unfolding predict_known fixed_length is_exception
predict_rtu_frame_length buffer is_response =
    if ltb (length buffer) 2
    then need_more
    else if is_response && is_exception (byte_at buffer 1)
    then frame_length 5
    else predict_known is_response (byte_at buffer 1) (fixed_length is_response (byte_at buffer 1))
        buffer
