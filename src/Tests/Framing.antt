-- ===== src/Tests/Framing.antt =====
-- Streams of bytes that are framed by the ASCII and the RTU layer.
use rs_modbus.Prelude.{◌≡◌, refl, arith, none, some, true, false, List, [], ◌∷◌, ◌++◌, ok}
use rs_modbus.Prelude.HashMap.{lookup, nat_eq}
use rs_modbus.Types.{ApplicationDataUnit, Event}
use rs_modbus.Utils.Lrc.{lrc}
use rs_modbus.Application.Ascii.{default_state, drive_fsm, encode, decode, or_default}
use rs_modbus.Application.Ascii.Hex.{IsMessage, ascii_decode-encode}
use rs_modbus.Application.Ascii.Stream.{Sendable}
use rs_modbus.Application.Ascii.Chunks.{
  message_event, message_events, feed_chunks, feed_chunks-encoded, drive_fsm_recovers,
}
use rs_modbus.Application.Ascii.Bounded.{AreBounded, drive_fsm-AreBounded}
use rs_modbus.Application.Rtu.Events.{
  Outcome, bytes_arrive, frame_gap, char_gap, closed, react_all, process_data_event,
}
use rs_modbus.Application.Rtu.Left.{ArePooled}
use rs_modbus.Application.Rtu.Pool.{Timed, react_all-ArePooled, process_data_event-Timed}

-- The request to read register 1 of unit 1.
abbrev request : ApplicationDataUnit
request = record { transaction = none; unit = 1; fc = 3; payload = 0 ∷ 1 ∷ 0 ∷ 1 ∷ [] }

request-IsMessage : IsMessage request
request-IsMessage = record {
  unit = omega arith;
  fc = omega arith;
  payload = (omega arith, (omega arith, (omega arith, (omega arith, tt))));
}

request-Sendable : Sendable request
request-Sendable = record { message = request-IsMessage; fits = omega arith }

ascii_decode-encode_example :
    decode (encode request) ≡ ok (record { adu = request; raw = encode request })
ascii_decode-encode_example = ascii_decode-encode request request-IsMessage

feed_chunks-encoded_example :
    ((feed_chunks 0 7 true [] (
        (58 ∷ 48 ∷ 49 ∷ [])
        ∷ (48 ∷ 51 ∷ 48 ∷ 48 ∷ 48 ∷ 49 ∷ 48 ∷ [])
        ∷ (48 ∷ 48 ∷ 49 ∷ 70 ∷ 65 ∷ 13 ∷ 10 ∷ [])
        ∷ [])).0
      ≡ message_events 0 7 (request ∷ []))
    × (or_default (
          lookup 7
            (feed_chunks 0 7 true [] (
              (58 ∷ 48 ∷ 49 ∷ [])
              ∷ (48 ∷ 51 ∷ 48 ∷ 48 ∷ 48 ∷ 49 ∷ 48 ∷ [])
              ∷ (48 ∷ 48 ∷ 49 ∷ 70 ∷ 65 ∷ 13 ∷ 10 ∷ [])
              ∷ [])).1)
        ≡ default_state)
unfolding encode lookup lrc
feed_chunks-encoded_example =
    feed_chunks-encoded 0 7 true []
      ((58 ∷ 48 ∷ 49 ∷ [])
        ∷ (48 ∷ 51 ∷ 48 ∷ 48 ∷ 48 ∷ 49 ∷ 48 ∷ [])
        ∷ (48 ∷ 48 ∷ 49 ∷ 70 ∷ 65 ∷ 13 ∷ 10 ∷ [])
        ∷ [])
      (request ∷ []) refl (request-Sendable, tt) refl

drive_fsm_recovers_example :
    (before : List Event) × ((drive_fsm [] ((58 ∷ 48 ∷ 71 ∷ []) ++ encode request) 0 7 true).0
      ≡ before ++ (message_event 0 7 request ∷ []))
    × (or_default (lookup 7 (drive_fsm [] ((58 ∷ 48 ∷ 71 ∷ []) ++ encode request) 0 7 true).1)
        ≡ default_state)
drive_fsm_recovers_example =
    drive_fsm_recovers 0 7 true [] (58 ∷ 48 ∷ 71 ∷ []) request request-Sendable

no_states-AreBounded : AreBounded true []
unfolding AreBounded lookup
no_states-AreBounded c s e = cc

drive_fsm-AreBounded_example : AreBounded true (drive_fsm [] (58 ∷ 48 ∷ 49 ∷ []) 0 7 true).1
drive_fsm-AreBounded_example =
    drive_fsm-AreBounded true [] (58 ∷ 48 ∷ 49 ∷ []) 0 7 no_states-AreBounded

no_buffers-ArePooled : ArePooled []
unfolding ArePooled lookup
no_buffers-ArePooled c b e = cc

react_all-ArePooled_example :
    (out : Outcome) × (react_all {S = Unit {0}} 4 2 false []
        (bytes_arrive (1 ∷ 3 ∷ []) 0 7
          ∷ char_gap 7
          ∷ bytes_arrive (0 ∷ []) 0 7
          ∷ frame_gap 0 7
          ∷ closed 7
          ∷ [])
        []
      ≡ some out)
    × ArePooled out.1
react_all-ArePooled_example =
    react_all-ArePooled {S = Unit {0}} 4 2 false []
      (bytes_arrive (1 ∷ 3 ∷ []) 0 7
        ∷ char_gap 7
        ∷ bytes_arrive (0 ∷ []) 0 7
        ∷ frame_gap 0 7
        ∷ closed 7
        ∷ [])
      [] no_buffers-ArePooled

process_data_event-Timed_example :
    (out : Outcome) × (process_data_event {S = Unit {0}} 4 2 false [] 0 7 (1 ∷ 3 ∷ []) []
      ≡ some out)
    × Timed {S = Unit {0}} 4 2 false [] 0 7 out.1 (lookup 7 out.1)
process_data_event-Timed_example =
    process_data_event-Timed {S = Unit {0}} 4 2 false [] 0 7 (1 ∷ 3 ∷ []) [] (omega arith)
      no_buffers-ArePooled
