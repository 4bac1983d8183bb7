-- ===== src/Application/Ascii.antt =====
-- src/layers/application/ascii.rs: the state machine that frames ASCII messages, and their coding.
pub mod Hex
pub mod Bounded
pub mod Stream
pub mod Chunks
use rs_modbus.Prelude.{
  ℕ, ◌+◌, ◌-◌, ◌*◌, ◌/◌, ◌%◌, Option, none, some, Bool, true, false, not, ◌&&◌, ◌||◌, List, [], ◌∷◌,
  ◌++◌, map,
}
use rs_modbus.Prelude.{
  Bytes, byte_at, length, take, drop, replicate, ltb, leb, ◌==◌, if◌then◌else◌, Result, ok, err,
  bit_or, ◌>>=◌,
}
use rs_modbus.Prelude.HashMap.{HashMap, lookup, insert, remove, nat_eq}
use rs_modbus.Errors.{ModbusError}
use rs_modbus.Types.{
  ApplicationDataUnit, FramedDataUnit, Framing, Event, framing, framing_error, ConnectionId,
  ResponseFn,
}
use rs_modbus.Utils.Lrc.{lrc}

abbrev pub colon : ℕ
colon = b':'

abbrev pub cr : ℕ
cr = 13

abbrev pub lf : ℕ
lf = 10

abbrev pub max_ascii_payload : ℕ
max_ascii_payload = 512

-- `HEX_ENCODE[n]`
abbrev pub hex_encode : ℕ → ℕ
hex_encode n = if ltb n 10 then b'0' + n else b'A' + (n - 10)

pub data FsmStatus : Type 0 where
  idle reception waiting_end : FsmStatus

pub record ConnectionState : Type 0 where
  pub status : FsmStatus
  pub frame : Bytes

abbrev pub default_state : ConnectionState
default_state = record { status = idle; frame = [] }

-- One of the two matches of `hex_decode_byte`.
unfoldable pub hex_value : ℕ → Option ℕ
hex_value b =
    if leb b'0' b && leb b b'9'
    then some (b - b'0')
    else if leb b'A' b && leb b b'F'
    then some (b - b'A' + 10)
    else if leb b'a' b && leb b b'f'
    then some (b - b'a' + 10)
    else none

unfoldable pub hex_decode_byte : ℕ → ℕ → Option ℕ
unfolding hex_value
hex_decode_byte hi lo = hex_value hi >>= λ h. hex_value lo >>= λ l. some (bit_or (h * 16 % 256) l)

unfoldable pub is_hex_char : ℕ → Bool → Bool
is_hex_char b lenient =
    (leb b'0' b && leb b b'9')
    || (leb b'A' b && leb b b'F')
    || (lenient && (leb b'a' b && leb b b'f'))

-- What the loop of `drive_fsm` changes.
pub record Driven : Type 0 where
  pub state : ConnectionState
  pub completed : List Bytes
  pub overflows : ℕ
  pub invalid_hex : ℕ

abbrev go : FsmStatus → Bytes → Driven → Driven
go status frame d = record d { state = record { status = status; frame = frame } }

-- The `other` byte of the state `Reception`.
unfoldable pub receive : Bool → ℕ → Driven → Driven
unfolding is_hex_char
receive lenient byte d =
    if leb max_ascii_payload (length d.state.frame)
    then record (go idle [] d) { overflows = d.overflows + 1 }
    else if not (is_hex_char byte lenient)
    then record (go idle [] d) { invalid_hex = d.invalid_hex + 1 }
    else go reception (d.state.frame ++ (byte ∷ [])) d

unfoldable pub on_byte : Bool → FsmStatus → ℕ → Driven → Driven
unfolding receive
on_byte lenient idle byte d = if byte == colon then go reception [] d else d
on_byte lenient reception byte d =
    if byte == colon
    then go reception [] d
    else if byte == cr
    then go waiting_end d.state.frame d
    else receive lenient byte d
on_byte lenient waiting_end byte d =
    if byte == colon
    then go reception [] d
    else if byte == lf
    then record (go idle [] d) { completed = d.completed ++ (d.state.frame ∷ []) }
    else go idle [] d

unfoldable pub on_bytes : Bool → Bytes → Driven → Driven
unfolding on_byte
on_bytes lenient [] d = d
on_bytes lenient (byte ∷ rest) d = on_bytes lenient rest (on_byte lenient d.state.status byte d)

-- `hex_decode_byte` on the pairs of an even number of characters, up to the first that fails.
unfoldable pub decode_pairs : Bytes → Option Bytes
unfolding hex_decode_byte
decode_pairs [] = some []
decode_pairs (a ∷ []) = none
decode_pairs (a ∷ b ∷ rest) =
    hex_decode_byte a b >>= λ byte. decode_pairs rest >>= λ bytes. some (byte ∷ bytes)

-- The checks on the decoded bytes.
unfoldable pub check_bytes : Bytes → Bytes → Result ModbusError (ApplicationDataUnit × Bytes)
check_bytes payload bytes =
    if ltb (length bytes) 3
    then err ModbusError.insufficient_data
    else if not (byte_at bytes (length bytes - 1) == lrc (take (length bytes - 1) bytes))
    then err ModbusError.lrc_check_failed
    else ok (
      record {
        transaction = none;
        unit = byte_at bytes 0;
        fc = byte_at bytes 1;
        payload = drop 2 (take (length bytes - 1) bytes);
      },
      colon ∷ (payload ++ (cr ∷ lf ∷ [])),
    )

abbrev checked_pairs : Bytes → Option Bytes → Result ModbusError (ApplicationDataUnit × Bytes)
checked_pairs payload none = err ModbusError.invalid_hex
checked_pairs payload (some bytes) = check_bytes payload bytes

unfoldable pub decode_payload : Bytes → Result ModbusError (ApplicationDataUnit × Bytes)
unfolding decode_pairs check_bytes
decode_payload payload =
    if not (length payload % 2 == 0)
    then err ModbusError.invalid_data
    else checked_pairs payload (decode_pairs payload)

-- What is sent for one completed frame.
abbrev pub frame_event :
    ResponseFn → ConnectionId → Result ModbusError (ApplicationDataUnit × Bytes) → Event
frame_event response connection (ok (adu, raw)) =
    framing (record { adu = adu; raw = raw; response = response; connection = connection })
frame_event response connection (err e) = framing_error e

abbrev pub or_default : Option ConnectionState → ConnectionState
or_default none = default_state
or_default (some s) = s

unfoldable pub send_frames : ResponseFn → ConnectionId → List Bytes → List Event
unfolding decode_payload
send_frames response connection [] = []
send_frames response connection (payload ∷ rest) =
    frame_event response connection (decode_payload payload) ∷ send_frames response connection rest

abbrev pub is_idle : FsmStatus → Bool
is_idle idle = true
is_idle reception = false
is_idle waiting_end = false

abbrev pub started : ConnectionState → Driven
started s = record { state = s; completed = []; overflows = 0; invalid_hex = 0 }

unfoldable pub store :
    ConnectionId
    → ConnectionState
    → HashMap ConnectionId ConnectionState
    → HashMap ConnectionId ConnectionState
store connection s states =
    if is_idle s.status && length s.frame == 0
    then remove connection states
    else insert connection s states

-- The events that are sent, in order, and the states afterwards.
unfoldable pub drive_fsm :
    HashMap ConnectionId ConnectionState
    → Bytes
    → ResponseFn
    → ConnectionId
    → Bool
    → List Event × HashMap ConnectionId ConnectionState
unfolding on_bytes send_frames store
drive_fsm states chunk response connection lenient =
    let d = on_bytes lenient chunk (started (or_default (lookup connection states))) in
    (
      replicate d.overflows (framing_error ModbusError.invalid_data)
          ++ (replicate d.invalid_hex (framing_error ModbusError.invalid_hex)
              ++ send_frames response connection d.completed),
      store connection d.state states,
    )

-- `connection_close`
unfoldable pub close_connection :
    HashMap ConnectionId ConnectionState → ConnectionId → HashMap ConnectionId ConnectionState
close_connection states connection = remove connection states

-- `flush`, and `destroy` with the flag that it sets.
unfoldable pub flush_states :
    HashMap ConnectionId ConnectionState → HashMap ConnectionId ConnectionState
flush_states states = []

unfoldable pub destroy_states :
    Bool → HashMap ConnectionId ConnectionState → Bool × HashMap ConnectionId ConnectionState
destroy_states destroyed states = if destroyed then (true, states) else (true, [])

unfoldable pub encode_bytes : Bytes → Bytes
encode_bytes [] = []
encode_bytes (b ∷ rest) = hex_encode (b / 16) ∷ hex_encode (b % 16) ∷ encode_bytes rest

-- The bytes that a message is coded from: the unit, the function code, the payload and the LRC.
abbrev pub coded : ApplicationDataUnit → Bytes
coded adu = (adu.unit ∷ adu.fc ∷ adu.payload) ++ (lrc (adu.unit ∷ adu.fc ∷ adu.payload) ∷ [])

unfoldable pub encode : ApplicationDataUnit → Bytes
unfolding encode_bytes
encode adu = colon ∷ (encode_bytes (coded adu) ++ (cr ∷ lf ∷ []))

abbrev with_raw :
    Bytes → Result ModbusError (ApplicationDataUnit × Bytes) → Result ModbusError FramedDataUnit
with_raw bytes (ok (adu, raw)) = ok (record { adu = adu; raw = bytes })
with_raw bytes (err e) = err e

unfoldable pub decode : Bytes → Result ModbusError FramedDataUnit
unfolding decode_payload
decode bytes =
    if ltb (length bytes) 10
    then err ModbusError.insufficient_data
    else if not (byte_at bytes 0 == colon)
        || not (byte_at bytes (length bytes - 2) == cr)
        || not (byte_at bytes (length bytes - 1) == lf)
    then err ModbusError.invalid_data
    else with_raw bytes (decode_payload (drop 1 (take (length bytes - 2) bytes)))
