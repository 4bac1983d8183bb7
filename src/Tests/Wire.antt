-- ===== src/Tests/Wire.antt =====
-- Frames on the wire.
use rs_modbus.Prelude.{
  ℕ, ◌≡◌, ◌≢◌, ◌↔◌, ◌⊎◌, inr, refl, arith, none, some, true, false, List, [], ◌∷◌, Bytes, All, ok,
}
use rs_modbus.Prelude.HashMap.{HashMap, lookup}
use rs_modbus.Types.{ApplicationDataUnit, Event, ConnectionId}
use rs_modbus.Utils.Crc.{crc, crc_with_seed}
use rs_modbus.Utils.Crc.Bitwise.{bitwise_crc, crc_with_seed-bitwise_crc}
use rs_modbus.Utils.Crc.Detect.{crc_detects_two}
use rs_modbus.Utils.Coils.{pack_coils, parse_coils}
use rs_modbus.Utils.Coils.RoundTrip.{parse_coils-pack_coils}
use rs_modbus.Utils.Range.{check_range, Covered, check_range-Covered}
use rs_modbus.Utils.Predict.{
  predict_rtu_frame_length, need_more, predict_known, fixed_length, is_exception,
}
use rs_modbus.Utils.Predict.Stable.{predict-append}
use rs_modbus.Application.Tcp as Tcp
use rs_modbus.Application.Tcp.{process_data_event}
use rs_modbus.Application.Tcp.Codec.{decode-encode}
use rs_modbus.Application.Tcp.Frames.{IsGenuine, process_data_event-IsGenuine}
use rs_modbus.Application.Tcp.Stream.{Sendable, Framed, process_stream}
use rs_modbus.Application.Rtu.{RtuBuffer, encode, decode_inner, flush_pool}
use rs_modbus.Application.Rtu.Codec.{decode_inner-encode}
use rs_modbus.Application.Rtu.Genuine.{IsDecoded, flush_pool-IsDecoded}

-- The request to read register 1 of unit 1.
abbrev request : ApplicationDataUnit
request = record { transaction = some 258; unit = 1; fc = 3; payload = 0 ∷ 1 ∷ 0 ∷ 1 ∷ [] }

sendable : Sendable request
sendable = record { tid = 258; tid_IsU16 = omega arith; has_tid = refl; fits = omega arith }

process_stream_example :
    Framed 0 0 []
      ((1 ∷ 2 ∷ 0 ∷ []) ∷ (0 ∷ 0 ∷ 6 ∷ 1 ∷ 3 ∷ 0 ∷ 1 ∷ []) ∷ (0 ∷ 1 ∷ []) ∷ [])
      (request ∷ [])
unfolding Tcp.encode lookup
process_stream_example =
    process_stream 0 0 [] ((1 ∷ 2 ∷ 0 ∷ []) ∷ (0 ∷ 0 ∷ 6 ∷ 1 ∷ 3 ∷ 0 ∷ 1 ∷ []) ∷ (0 ∷ 1 ∷ []) ∷ [])
      (request ∷ []) refl (sendable, tt) refl

process_data_event-IsGenuine_example :
    (out : List Event × HashMap ConnectionId Bytes) × (process_data_event []
        (1 ∷ 2 ∷ 0 ∷ 0 ∷ 0 ∷ 2 ∷ 1 ∷ 17 ∷ [])
        0
        0
      ≡ some out)
    × All (IsGenuine 0 0) out.0
process_data_event-IsGenuine_example =
    process_data_event-IsGenuine [] (1 ∷ 2 ∷ 0 ∷ 0 ∷ 0 ∷ 2 ∷ 1 ∷ 17 ∷ []) 0 0

decode-encode_example :
    Tcp.decode (Tcp.encode request 5).0
    ≡ ok (record { adu = request; raw = (Tcp.encode request 5).0 })
unfolding Tcp.pick_tid
decode-encode_example = decode-encode request 5 (omega arith) (omega arith)

abbrev pool : RtuBuffer
pool = record {
  window = 1 ∷ 3 ∷ 0 ∷ 1 ∷ 0 ∷ 1 ∷ 0xd5 ∷ 0xca ∷ 9 ∷ [];
  offset = 3;
  timer = false;
  inter_char_timer = false;
  t15_expired = false;
}

flush_pool-IsDecoded_example :
    (out : List Event × HashMap ConnectionId RtuBuffer) × (flush_pool {S = ℕ} 0 0 false false []
        ((0, pool) ∷ [])
      ≡ some out)
    × All (IsDecoded 0 0) out.0
flush_pool-IsDecoded_example = flush_pool-IsDecoded 0 0 false false [] ((0, pool) ∷ [])

decode_inner-encode_example :
    decode_inner (encode request) ≡ ok (record request { transaction = none })
decode_inner-encode_example = decode_inner-encode request

crc_with_seed-bitwise_crc_example :
    crc_with_seed (1 ∷ 3 ∷ 200 ∷ []) 0xffff ≡ bitwise_crc (1 ∷ 3 ∷ 200 ∷ []) 0xffff
crc_with_seed-bitwise_crc_example =
    crc_with_seed-bitwise_crc (1 ∷ 3 ∷ 200 ∷ []) 0xffff
      (omega arith, (omega arith, (omega arith, tt)))

crc_detects_two_example : crc (1 ∷ 9 ∷ 8 ∷ 7 ∷ []) ≢ crc (1 ∷ 9 ∷ 200 ∷ 7 ∷ [])
crc_detects_two_example =
    crc_detects_two (1 ∷ []) (7 ∷ []) 9 8 9 200 (omega arith) (omega arith) (omega arith)
      (omega arith) (omega arith, tt) (inr (λ e. omega (arith, e)))

parse_coils-pack_coils_example :
    parse_coils (pack_coils (true ∷ false ∷ true ∷ []) 3) 3 ≡ some (true ∷ false ∷ true ∷ [])
parse_coils-pack_coils_example =
    parse_coils-pack_coils (true ∷ false ∷ true ∷ []) 3 refl (omega arith)

predicted : predict_rtu_frame_length (1 ∷ 3 ∷ []) false ≢ need_more
unfolding predict_rtu_frame_length predict_known fixed_length is_exception
predicted = λ e. cc

predict-append_example :
    predict_rtu_frame_length (1 ∷ 3 ∷ 0 ∷ []) false ≡ predict_rtu_frame_length (1 ∷ 3 ∷ []) false
predict-append_example = predict-append (1 ∷ 3 ∷ []) (0 ∷ []) false predicted

abbrev range : List (ℕ × ℕ)
range = (0, 4) ∷ []

check_range-Covered_example :
    (check_range (1 ∷ 3 ∷ []) range ≡ true) ↔ ((range ≡ []) ⊎ Covered (1 ∷ 3 ∷ []) range)
check_range-Covered_example = check_range-Covered (1 ∷ 3 ∷ []) range
