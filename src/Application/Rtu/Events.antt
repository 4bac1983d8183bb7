-- ===== src/Application/Rtu/Events.antt =====
-- src/layers/application/rtu.rs: the events of a connection: bytes, the timers, and its close. The
-- timers fire in any order with the other events; a timer that was replaced is aborted.
use rs_modbus.Prelude.{
  ℕ, zero, suc, ◌+◌, ◌*◌, Option, none, some, Bool, true, false, not, ◌&&◌, ◌||◌, List, [], ◌∷◌,
  ◌++◌,
}
use rs_modbus.Prelude.{Bytes, length, take, drop, min, ltb, leb, ◌==◌, if◌then◌else◌, ◌>>=◌}
use rs_modbus.Prelude.HashMap.{HashMap, lookup, insert, remove, nat_eq}
use rs_modbus.Errors.{ModbusError}
use rs_modbus.Types.{Event, framing_error, ConnectionId, ResponseFn}
use rs_modbus.Slave.Dispatch.{CustomFunctionCode}
use rs_modbus.Application.Rtu.{
  max_frame_length, RtuBuffer, new_buffer, available, clear, flush_pool,
}

abbrev pub Buffers : Type 0
Buffers = HashMap ConnectionId RtuBuffer

-- `entry(connection).or_insert_with(RtuBuffer::new)`
abbrev pub or_new : Option RtuBuffer → RtuBuffer
or_new none = new_buffer
or_new (some b) = b

-- The number of bytes copied, and the buffer with them.
unfoldable pub extend_from_slice : Bytes → RtuBuffer → ℕ × RtuBuffer
extend_from_slice bytes b =
    let n = min (length bytes) (available b) in (n, record b { window = b.window ++ take n bytes })

-- The frame in progress is dropped when the gap before new bytes was too long.
unfoldable pub check_gap : RtuBuffer → List Event × RtuBuffer
check_gap b =
    if b.t15_expired && not (length b.window == 0)
    then (framing_error ModbusError.t1_5_exceeded ∷ [], record (clear b) { t15_expired = false })
    else ([], record b { t15_expired = false })

abbrev pub cancel_timers : RtuBuffer → RtuBuffer
cancel_timers b = record b { timer = false; inter_char_timer = false }

abbrev pub Outcome : Type 0
Outcome = List Event × Buffers

abbrev pub sending_first : List Event → Option Outcome → Option Outcome
sending_first events none = none
sending_first events (some (later, buffers)) = some (events ++ later, buffers)

abbrev pub is_strict : ℕ → Bool
is_strict interval_ms = ltb 0 interval_ms

module _ {S : Type 0} (interval_ms inter_char_ms : ℕ) (is_response : Bool)
    (custom_fcs : HashMap ℕ (CustomFunctionCode S)) (response : ResponseFn)
    (connection : ConnectionId) where
  abbrev pub flush : Buffers → Option Outcome
  flush buffers =
      flush_pool response connection (is_strict interval_ms) is_response custom_fcs buffers

  -- The pool is still full after a flush: the rest of the chunk is dropped.
  unfoldable pub overflowed : RtuBuffer → Buffers → Outcome
  overflowed b buffers =
      (framing_error ModbusError.invalid_data ∷ [], insert connection (clear b) buffers)

  -- What follows a flush within the loop, which goes on as `continue`.
  unfoldable pub after_flush : (Buffers → Option Outcome) → Outcome → Option Outcome
  unfolding overflowed
  after_flush continue (events, buffers) =
      let b = or_new (lookup connection buffers) in
      if available b == 0
      then some (events ++ (overflowed b buffers).0, (overflowed b buffers).1)
      else sending_first events (continue (insert connection b buffers))

  -- The loop over the chunk; `none` is a lack of fuel.
  unfoldable pub consume : ℕ → Bytes → Buffers → Option Outcome
  unfolding extend_from_slice after_flush
  consume zero bytes buffers = none
  consume (suc fuel) bytes buffers =
      let (copied, b) = extend_from_slice bytes (or_new (lookup connection buffers)) in
      let more = consume fuel (drop copied bytes) (insert connection b buffers) in
      let retry = flush buffers >>= after_flush (consume fuel bytes) in
      if length bytes == 0 then some ([], buffers) else if copied == 0 then retry else more

  -- The timers are armed if the connection still has a buffer.
  unfoldable pub arm_timers : Buffers → Buffers
  arm_timers buffers = elim (lookup connection buffers) [
    | none ↦ buffers
    | some b ↦
        insert connection
          (record b { timer = true; inter_char_timer = ltb 0 inter_char_ms || b.inter_char_timer })
          buffers
  ]

  -- The flush at the end of the chunk, or the timers.
  unfoldable pub settle_chunk : Buffers → Option Outcome
  unfolding arm_timers
  settle_chunk buffers =
      if not (is_strict interval_ms)
        || leb max_frame_length (length (or_new (lookup connection buffers)).window)
      then flush buffers
      else some ([], arm_timers buffers)

  unfoldable pub process_data_event : Bytes → Buffers → Option Outcome
  unfolding check_gap consume settle_chunk
  process_data_event bytes buffers =
      let (gap, b) = check_gap (or_new (lookup connection buffers)) in
      consume (2 * length bytes + 2) bytes (insert connection (cancel_timers b) buffers) >>= λ out.
      sending_first (gap ++ out.0) (settle_chunk out.1)

-- The t1.5 timer fires.
unfoldable pub inter_char_expired : ConnectionId → Buffers → Buffers
inter_char_expired connection buffers = elim (lookup connection buffers) [
  | none ↦ buffers
  | some b ↦ insert connection (record b { t15_expired = true }) buffers
]

unfoldable pub close_connection : ConnectionId → Buffers → Buffers
close_connection connection buffers = remove connection buffers

-- What happens to a layer, in the order in which it happens.
pub data Happening : Type 0 where
  bytes_arrive : Bytes → ResponseFn → ConnectionId → Happening
  frame_gap : ResponseFn → ConnectionId → Happening
  char_gap : ConnectionId → Happening
  closed : ConnectionId → Happening

module _ {S : Type 0} (interval_ms inter_char_ms : ℕ) (is_response : Bool)
    (custom_fcs : HashMap ℕ (CustomFunctionCode S)) where
  unfoldable pub react : Happening → Buffers → Option Outcome
  unfolding process_data_event inter_char_expired close_connection
  react (bytes_arrive bytes r c) buffers =
      process_data_event interval_ms inter_char_ms is_response custom_fcs r c bytes buffers
  react (frame_gap r c) buffers = flush interval_ms inter_char_ms is_response custom_fcs r c buffers
  react (char_gap c) buffers = some ([], inter_char_expired c buffers)
  react (closed c) buffers = some ([], close_connection c buffers)

  unfoldable pub react_all : List Happening → Buffers → Option Outcome
  unfolding react
  react_all [] buffers = some ([], buffers)
  react_all (h ∷ hs) buffers = react h buffers >>= λ out. sending_first out.0 (react_all hs out.1)
