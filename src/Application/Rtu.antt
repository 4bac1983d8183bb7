-- ===== src/Application/Rtu.antt =====
-- src/layers/application/rtu.rs: frames in bytes, and the pool of a connection. The pool is kept as
-- the bytes between `start` and `end`, with `start`; the bytes outside are never read. A timer is
-- a flag; when it fires is an event of its own.
pub mod Codec
pub mod Events
pub mod Loop
pub mod Left
pub mod Pool
pub mod Genuine
pub mod Stream
use rs_modbus.Prelude.{
  ℕ, zero, suc, ◌+◌, ◌-◌, ◌≤◌, Option, none, some, Bool, true, false, not, ◌&&◌, ◌||◌, List, [],
  ◌∷◌, ◌++◌,
}
use rs_modbus.Prelude.{
  Bytes, byte_at, be16, to_le_bytes, length, take, drop, min, ltb, leb, ◌==◌, if◌then◌else◌, Result,
  ok, err,
}
use rs_modbus.Prelude.HashMap.{HashMap, lookup, insert, remove, nat_eq}
use rs_modbus.Errors.{ModbusError}
use rs_modbus.Types.{
  ApplicationDataUnit, FramedDataUnit, Framing, Event, framing, framing_error, ConnectionId,
  ResponseFn, CustomFcPredict,
}
use rs_modbus.Utils.Crc.{crc}
use rs_modbus.Utils.Predict.{PredictResult, predict_rtu_frame_length}
use rs_modbus.Slave.Dispatch.{CustomFunctionCode}

abbrev pub max_frame_length : ℕ
max_frame_length = 256

abbrev pub min_frame_length : ℕ
min_frame_length = 4

abbrev pub pool_size : ℕ
pool_size = 512

pub data ExtractResult : Type 0 where
  frame : ℕ → ℕ → ExtractResult
  insufficient skip invalid : ExtractResult

-- `from_le_bytes([buffer[length - 2], buffer[length - 1]])`
abbrev pub frame_crc : Bytes → ℕ → ℕ
frame_crc buffer n = be16 (byte_at buffer (n - 1)) (byte_at buffer (n - 2))

unfoldable pub crc_matches : Bytes → ℕ → Bool
crc_matches buffer n =
    if ltb n 2 || ltb (length buffer) n
    then false
    else frame_crc buffer n == crc (take (n - 2) buffer)

unfoldable pub check_expected : Bytes → ℕ → ExtractResult
unfolding crc_matches
check_expected buffer expected =
    if not (leb min_frame_length expected && leb expected max_frame_length)
    then invalid
    else if ltb (length buffer) expected
    then insufficient
    else if crc_matches buffer expected
    then frame 0 expected
    else skip

unfoldable pub builtin_extract : Bytes → PredictResult → ExtractResult
unfolding check_expected
builtin_extract buffer (PredictResult.frame_length n) = check_expected buffer n
builtin_extract buffer PredictResult.need_more = insufficient
builtin_extract buffer PredictResult.unknown = invalid

unfoldable pub custom_extract : Bytes → CustomFcPredict → ExtractResult
unfolding check_expected
custom_extract buffer (CustomFcPredict.frame_length n) = check_expected buffer n
custom_extract buffer CustomFcPredict.need_more = insufficient

module _ {S : Type 0} where
  unfoldable pub extract_by : Bytes → Bool → Option (CustomFunctionCode S) → ExtractResult
  unfolding builtin_extract custom_extract
  extract_by buffer is_response (some cfc) = custom_extract buffer (
      if is_response then cfc.predict_response_length buffer else cfc.predict_request_length buffer)
  extract_by buffer is_response none =
      builtin_extract buffer (predict_rtu_frame_length buffer is_response)

  unfoldable pub try_extract : Bytes → Bool → HashMap ℕ (CustomFunctionCode S) → ExtractResult
  unfolding extract_by
  try_extract buffer is_response custom_fcs =
      if ltb (length buffer) min_frame_length
      then insufficient
      else extract_by buffer is_response (lookup (byte_at buffer 1) custom_fcs)

pub record RtuBuffer : Type 0 where
  pub window : Bytes
  pub offset : ℕ
  pub timer : Bool
  pub inter_char_timer : Bool
  pub t15_expired : Bool

abbrev pub new_buffer : RtuBuffer
new_buffer = record {
  window = [];
  offset = 0;
  timer = false;
  inter_char_timer = false;
  t15_expired = false;
}

abbrev pub available : RtuBuffer → ℕ
available b = pool_size - (b.offset + length b.window)

-- `drain`, `compact` and `clear`.
abbrev pub drain : ℕ → RtuBuffer → RtuBuffer
drain n b = record b { window = drop n b.window; offset = b.offset + n }

abbrev pub compact : RtuBuffer → RtuBuffer
compact b = record b { offset = 0 }

abbrev pub clear : RtuBuffer → RtuBuffer
clear b = record b { window = []; offset = 0 }

-- The unit of a frame, its function code and its payload.
abbrev pub frame_adu : Bytes → ApplicationDataUnit
frame_adu bytes = record {
  transaction = none;
  unit = byte_at bytes 0;
  fc = byte_at bytes 1;
  payload = drop 2 (take (length bytes - 2) bytes);
}

abbrev pub frame_event : ResponseFn → ConnectionId → Bytes → Event
frame_event response connection bytes =
    framing
      (record { adu = frame_adu bytes; raw = bytes; response = response; connection = connection })

-- What the loop of `flush_pool` leaves.
pub record Flushed : Type 0 where
  pub sent : List Event
  pub rest : RtuBuffer

abbrev pub sending : Event → Flushed → Flushed
sending e f = record f { sent = e ∷ f.sent }

-- The branch for too few bytes, below the longest frame.
unfoldable pub starved : Bool → RtuBuffer → Flushed
starved strict b =
    if strict
    then (record {
      sent =
          framing_error
            (if b.t15_expired then ModbusError.t1_5_exceeded else ModbusError.incomplete_frame)
          ∷ [];
      rest = record (clear b) { t15_expired = false };
    })
    else if b.t15_expired
    then (record {
      sent = framing_error ModbusError.t1_5_exceeded ∷ [];
      rest = record (clear b) { t15_expired = false };
    })
    else record { sent = []; rest = b }

abbrev pub failed : ModbusError → RtuBuffer → Flushed
failed e b = record { sent = framing_error e ∷ []; rest = clear b }

abbrev send_first : Event → Option Flushed → Option Flushed
send_first e none = none
send_first e (some f) = some (sending e f)

-- The loop; `none` is a lack of fuel. Every round takes a byte off the window, or ends the loop.
module _ {S : Type 0} (response : ResponseFn) (connection : ConnectionId)
    (strict is_response : Bool) (custom_fcs : HashMap ℕ (CustomFunctionCode S)) where
  unfoldable pub flush_loop : ℕ → RtuBuffer → Option Flushed
  unfolding try_extract starved
  flush_loop zero b = none
  flush_loop (suc fuel) b =
      let one = flush_loop fuel (drain 1 b) in
      if length b.window == 0
      then some (record { sent = []; rest = b })
      else elim (try_extract b.window is_response custom_fcs) [
        | frame skipped n ↦
            send_first (frame_event response connection (take n (drop skipped b.window)))
              (flush_loop fuel (drain n (drain skipped b)))
        | insufficient ↦
            (if leb max_frame_length (length b.window) then one else some (starved strict b))
        | skip ↦ (if strict then some (failed ModbusError.crc_check_failed b) else one)
        | invalid ↦ some (failed ModbusError.invalid_data b)
      ]

  abbrev compacted : Option Flushed → Option Flushed
  compacted none = none
  compacted (some f) = some (record f { rest = compact f.rest })

  unfoldable pub flush_buffer : RtuBuffer → Option Flushed
  unfolding flush_loop
  flush_buffer b = compacted (flush_loop (suc (length b.window)) b)

  -- An empty buffer is removed, and with it its flags.
  abbrev store : RtuBuffer → HashMap ConnectionId RtuBuffer → HashMap ConnectionId RtuBuffer
  store b buffers =
      if length b.window == 0 then remove connection buffers else insert connection b buffers

  abbrev put_back :
      HashMap ConnectionId RtuBuffer
      → Option Flushed
      → Option (List Event × HashMap ConnectionId RtuBuffer)
  put_back buffers none = none
  put_back buffers (some f) = some (f.sent, store f.rest buffers)

  unfoldable pub flush_found :
      HashMap ConnectionId RtuBuffer
      → Option RtuBuffer
      → Option (List Event × HashMap ConnectionId RtuBuffer)
  unfolding flush_buffer
  flush_found buffers none = some ([], buffers)
  flush_found buffers (some b) = put_back buffers (flush_buffer b)

  unfoldable pub flush_pool :
      HashMap ConnectionId RtuBuffer → Option (List Event × HashMap ConnectionId RtuBuffer)
  unfolding flush_found
  flush_pool buffers = flush_found buffers (lookup connection buffers)

unfoldable pub decode_inner : Bytes → Result ModbusError ApplicationDataUnit
decode_inner bytes =
    if ltb (length bytes) 4
    then err ModbusError.insufficient_data
    else if not (frame_crc bytes (length bytes) == crc (take (length bytes - 2) bytes))
    then err ModbusError.crc_check_failed
    else ok (frame_adu bytes)

abbrev with_raw : Bytes → Result ModbusError ApplicationDataUnit → Result ModbusError FramedDataUnit
with_raw bytes (err e) = err e
with_raw bytes (ok adu) = ok (record { adu = adu; raw = bytes })

unfoldable pub decode : Bytes → Result ModbusError FramedDataUnit
unfolding decode_inner
decode bytes = with_raw bytes (decode_inner bytes)

unfoldable pub encode : ApplicationDataUnit → Bytes
encode adu = let body = adu.unit ∷ adu.fc ∷ adu.payload in body ++ to_le_bytes (crc body)
