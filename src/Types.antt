-- ===== src/Types.antt =====
-- src/types.rs and the event types of the layers: the data that the components exchange.
use rs_modbus.Prelude.{ℕ, Option, none, some, Bool, List, Bytes}
use rs_modbus.Errors.{ModbusError}

-- The field `data` of the source is `payload`. Numbers are u16 (transaction) and u8 (the rest).
pub record ApplicationDataUnit : Type 0 where
  pub transaction : Option ℕ
  pub unit : ℕ
  pub fc : ℕ
  pub payload : Bytes

unfoldable pub new : ℕ → ℕ → Bytes → ApplicationDataUnit
new unit fc payload = record { transaction = none; unit = unit; fc = fc; payload = payload }

pub with_transaction : ApplicationDataUnit → ℕ → ApplicationDataUnit
with_transaction adu transaction = record adu { transaction = some transaction }

pub record FramedDataUnit : Type 0 where
  pub adu : ApplicationDataUnit
  pub raw : Bytes

pub record ServerId : Type 0 where
  pub server_id : Bytes
  pub run_indicator_status : Bool
  pub additional_data : Bytes

-- A text is the sequence of its UTF-8 bytes.
pub record DeviceObject : Type 0 where
  pub id : ℕ
  pub value : Bytes

pub record DeviceIdentification : Type 0 where
  pub read_device_id_code : ℕ
  pub conformity_level : ℕ
  pub more_follows : Bool
  pub next_object_id : ℕ
  pub objects : List DeviceObject

pub record AddressRange : Type 0 where
  pub discrete_inputs : List (ℕ × ℕ)
  pub coils : List (ℕ × ℕ)
  pub input_registers : List (ℕ × ℕ)
  pub holding_registers : List (ℕ × ℕ)

-- Connections and reply closures are known by their identity only.
abbrev pub ConnectionId : Type 0
ConnectionId = ℕ

abbrev pub ResponseFn : Type 0
ResponseFn = ℕ

pub record Framing : Type 0 where
  pub adu : ApplicationDataUnit
  pub raw : Bytes
  pub response : ResponseFn
  pub connection : ConnectionId

-- What an application layer sends on its two broadcast channels, in order.
pub data Event : Type 0 where
  framing : Framing → Event
  framing_error : ModbusError → Event

pub data CustomFcPredict : Type 0 where
  frame_length : ℕ → CustomFcPredict
  need_more : CustomFcPredict

pub record MasterResponse (T : Type 0) : Type 0 where
  pub transaction : Option ℕ
  pub unit : ℕ
  pub fc : ℕ
  pub payload : T
  pub raw : Bytes
