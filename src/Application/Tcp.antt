-- ===== src/Application/Tcp.antt =====
-- src/layers/application/tcp.rs: MBAP framing. A frame is a header of seven bytes, the function
-- code and the payload; a connection's bytes are buffered until its frames are complete.
pub mod Codec
pub mod Frames
pub mod Stream
use rs_modbus.Prelude.{ℕ, zero, suc, ◌+◌, ◌%◌, Option, none, some, Bool, true, not, ◌||◌, ◌>>=◌}
use rs_modbus.Prelude.{
  List, [], ◌∷◌, ◌++◌, Bytes, byte_at, be16, to_be_bytes, u16, length, take, drop,
}
use rs_modbus.Prelude.{ltb, ◌==◌, if◌then◌else◌, Result, ok, err}
use rs_modbus.Prelude.HashMap.{HashMap, lookup, insert, remove, nat_eq}
use rs_modbus.Errors.{ModbusError, insufficient_data, invalid_data}
use rs_modbus.Types.{ApplicationDataUnit, FramedDataUnit, Framing, Event, framing, framing_error}
use rs_modbus.Types.{ConnectionId, ResponseFn}

abbrev pub max_tcp_frame : ℕ
max_tcp_frame = 260

pub data ExtractResult : Type 0 where
  frame : ℕ → ExtractResult
  insufficient invalid : ExtractResult

unfoldable pub try_extract_frame : Bytes → ExtractResult
try_extract_frame buffer =
    if ltb (length buffer) 8
    then insufficient
    else if not (byte_at buffer 2 == 0) || not (byte_at buffer 3 == 0)
    then invalid
    else let n = be16 (byte_at buffer 4) (byte_at buffer 5) in
      let total = 6 + n in
      if ltb max_tcp_frame total || ltb n 2
      then invalid
      else if ltb (length buffer) total
      then insufficient
      else frame total

-- The data unit in the bytes of one frame.
unfoldable pub frame_adu : Bytes → ApplicationDataUnit
frame_adu bytes = record {
  transaction = some (be16 (byte_at bytes 0) (byte_at bytes 1));
  unit = byte_at bytes 6;
  fc = byte_at bytes 7;
  payload = drop 8 bytes;
}

-- The message that is sent for the bytes of one frame.
unfoldable pub frame_event : ResponseFn → ConnectionId → Bytes → Event
unfolding frame_adu
frame_event response connection frame_bytes = framing (record {
  adu = frame_adu frame_bytes;
  raw = frame_bytes;
  response = response;
  connection = connection;
})

-- The loop of `process_data_event` over one buffer: the events sent and the bytes left. Each frame
-- takes eight bytes at least, so the length of the buffer is enough fuel; `none` is a lack of it.
unfoldable pub extract_loop : ℕ → ResponseFn → ConnectionId → Bytes → Option (List Event × Bytes)
unfolding try_extract_frame frame_event
extract_loop zero response connection buffer = none
extract_loop (suc fuel) response connection buffer = elim (try_extract_frame buffer) [
  | frame total ↦ do
    (events, rest) ← extract_loop fuel response connection (drop total buffer)
    some (frame_event response connection (take total buffer) ∷ events, rest)
  | insufficient ↦ some ([], buffer)
  | invalid ↦ some (framing_error invalid_data ∷ [], [])
]

abbrev or_default : Option Bytes → Bytes
or_default none = []
or_default (some buffer) = buffer

-- The entry of a connection whose buffer has been used up is dropped.
unfoldable pub store :
    ConnectionId → Bytes → HashMap ConnectionId Bytes → HashMap ConnectionId Bytes
store connection [] buffers = remove connection buffers
store connection (b ∷ bs) buffers = insert connection (b ∷ bs) buffers

unfoldable pub process_data_event :
    HashMap ConnectionId Bytes
    → Bytes
    → ResponseFn
    → ConnectionId
    → Option (List Event × HashMap ConnectionId Bytes)
unfolding extract_loop store
process_data_event buffers chunk response connection =
    let buffer = or_default (lookup connection buffers) ++ chunk in
    do
      (events, rest) ← extract_loop (suc (length buffer)) response connection buffer
      some (events, store connection rest buffers)

-- `connection_close`
pub close_connection : HashMap ConnectionId Bytes → ConnectionId → HashMap ConnectionId Bytes
close_connection buffers connection = remove connection buffers

unfoldable pub flush : HashMap ConnectionId Bytes → HashMap ConnectionId Bytes
flush buffers = []

-- The state of a layer but for its role, which stands in Application/Role. `tasks` are the tasks that
-- listen to the physical layer.
pub record TcpApplicationLayer : Type 0 where
  pub buffers : HashMap ConnectionId Bytes
  pub transaction_id : ℕ
  pub destroyed : Bool
  pub tasks : List ℕ

unfoldable pub destroy : TcpApplicationLayer → TcpApplicationLayer
unfolding flush
destroy layer =
    if layer.destroyed
    then layer
    else record layer { destroyed = true; tasks = []; buffers = flush layer.buffers }

unfoldable pub decode_inner : Bytes → Result ModbusError ApplicationDataUnit
unfolding frame_adu
decode_inner bytes =
    if ltb (length bytes) 8
    then err insufficient_data
    else if not (byte_at bytes 2 == 0) || not (byte_at bytes 3 == 0)
    then err invalid_data
    else if not (be16 (byte_at bytes 4) (byte_at bytes 5) + 6 == length bytes)
    then err invalid_data
    else ok (frame_adu bytes)

unfoldable pub decode : Bytes → Result ModbusError FramedDataUnit
unfolding decode_inner
decode bytes = elim (decode_inner bytes) [
  | ok adu ↦ ok (record { adu = adu; raw = bytes })
  | err e ↦ err e
]

-- `unwrap_or_else`: the transaction ID that is sent, and the layer's counter afterwards.
unfoldable pub pick_tid : Option ℕ → ℕ → ℕ × ℕ
pick_tid (some tid) counter = (tid, counter)
pick_tid none counter = (u16 (counter + 1), (if counter == 0 then 1 else u16 (counter + 1)))

-- The frame and the counter `transaction_id` of the layer afterwards.
unfoldable pub encode : ApplicationDataUnit → ℕ → Bytes × ℕ
unfolding pick_tid
encode adu counter =
    let (tx, counter') = pick_tid adu.transaction counter in
    (
      to_be_bytes tx
          ++ 0 ∷ 0 ∷ to_be_bytes (u16 (length adu.payload + 2))
          ++ adu.unit ∷ adu.fc ∷ adu.payload,
      counter',
    )
