-- ===== src/Master/Requests.antt =====
-- src/master.rs: the request of each operation, the checks on its response, and how the response
-- is read. `none` is a panic: an index out of range.
use rs_modbus.Prelude.{
  ℕ, zero, suc, ◌+◌, ◌-◌, ◌*◌, ◌/◌, Option, none, some, Bool, true, false, not, ◌&&◌, List, [], ◌∷◌,
  ◌++◌,
}
use rs_modbus.Prelude.{
  Bytes, byte_at, u8, u16, to_be_bytes, length, get_elem?, take, drop, replicate, ltb, leb, ◌==◌,
  if◌then◌else◌,
}
use rs_modbus.Prelude.{Result, ok, err, ◌>>=◌}
use rs_modbus.Errors.{ModbusError}
use rs_modbus.Types.{
  ApplicationDataUnit, new, Framing, MasterResponse, ServerId, DeviceObject, DeviceIdentification,
}
use rs_modbus.Utils.Coils.{chunks, pack_chunks, parse_coils}
use rs_modbus.Utils.Registers.{be_bytes, parse_registers}
use rs_modbus.Session.{PreCheck, PreCheckOutcome, pass, need_length, fail, insufficient_data}

unfoldable pub check_unit_fc : ℕ → ℕ → PreCheck
check_unit_fc unit fc f =
    if f.adu.unit == unit && f.adu.fc == fc then pass else fail ModbusError.invalid_response

unfoldable pub check_length : ℕ → PreCheck
check_length expected f = need_length expected

unfoldable pub check_byte_count : ℕ → PreCheck
check_byte_count expected f =
    if not (length f.adu.payload == 0) && byte_at f.adu.payload 0 == expected
    then pass
    else fail ModbusError.invalid_response

-- `==` on byte vectors.
unfoldable pub same_bytes : Bytes → Bytes → Bool
same_bytes [] [] = true
same_bytes [] (b ∷ bs) = false
same_bytes (a ∷ as') [] = false
same_bytes (a ∷ as') (b ∷ bs) = a == b && same_bytes as' bs

unfoldable pub check_echo : Bytes → PreCheck
unfolding same_bytes
check_echo expected f =
    if same_bytes f.adu.payload expected then pass else fail ModbusError.invalid_response

pub record Request : Type 0 where
  pub adu : ApplicationDataUnit
  pub checks : List PreCheck

abbrev pub response_of : {T : Type 0} → Framing → T → MasterResponse T
response_of f value = record {
  transaction = f.adu.transaction;
  unit = f.adu.unit;
  fc = f.adu.fc;
  payload = value;
  raw = f.raw;
}

-- The request of FC1 to FC4: a response has `byte_count` bytes behind its count.
unfoldable pub read_request : ℕ → ℕ → ℕ → ℕ → ℕ → Request
read_request unit fc address n byte_count = record {
  adu = new unit fc (to_be_bytes address ++ to_be_bytes n);
  checks = check_unit_fc unit fc ∷ check_length (1 + byte_count) ∷ check_byte_count byte_count ∷ [];
}

unfoldable pub read_coils : ℕ → ℕ → ℕ → Request
read_coils unit address n = read_request unit 0x01 address n (u16 (n + 7) / 8)

unfoldable pub read_discrete_inputs : ℕ → ℕ → ℕ → Request
read_discrete_inputs unit address n = read_request unit 0x02 address n (u16 (n + 7) / 8)

unfoldable pub read_holding_registers : ℕ → ℕ → ℕ → Request
read_holding_registers unit address n = read_request unit 0x03 address n (u16 (n * 2))

unfoldable pub read_input_registers : ℕ → ℕ → ℕ → Request
read_input_registers unit address n = read_request unit 0x04 address n (u16 (n * 2))

unfoldable pub coils_response : ℕ → Framing → Option (MasterResponse (List Bool))
coils_response n f = parse_coils f.adu.payload n >>= λ coils. some (response_of f coils)

unfoldable pub registers_response : ℕ → Framing → Option (MasterResponse (List ℕ))
registers_response n f =
    parse_registers f.adu.payload n >>= λ registers. some (response_of f registers)

-- The request of FC5, FC6 and FC22: the response repeats it. The caller gets the value it wrote.
unfoldable pub echo_request : ℕ → ℕ → Bytes → Request
echo_request unit fc payload = record {
  adu = new unit fc payload;
  checks = check_unit_fc unit fc ∷ check_length (length payload) ∷ check_echo payload ∷ [];
}

unfoldable pub write_single_coil : ℕ → ℕ → Bool → Request
write_single_coil unit address value =
    echo_request unit 0x05 (to_be_bytes address ++ to_be_bytes (if value then 0xff00 else 0x0000))

unfoldable pub write_single_register : ℕ → ℕ → ℕ → Request
write_single_register unit address value =
    echo_request unit 0x06 (to_be_bytes address ++ to_be_bytes value)

unfoldable pub mask_write_register : ℕ → ℕ → ℕ → ℕ → Request
mask_write_register unit address and_mask or_mask =
    echo_request unit 0x16 (to_be_bytes address ++ (to_be_bytes and_mask ++ to_be_bytes or_mask))

-- A buffer of `count` bytes into which `body` is written from its start on.
unfoldable pub filled : ℕ → Bytes → Option Bytes
filled count body =
    if ltb count (length body) then none else some (body ++ replicate (count - length body) 0)

-- The request of FC15 and FC16: the response repeats the address and the number of values.
unfoldable pub write_many : ℕ → ℕ → ℕ → ℕ → ℕ → Bytes → Option Request
write_many unit fc address n byte_count body = filled byte_count body >>= λ values. some (record {
  adu = new unit fc (to_be_bytes address ++ (to_be_bytes (u16 n) ++ (byte_count ∷ values)));
  checks =
      check_unit_fc unit fc
      ∷ check_length 4
      ∷ check_echo (to_be_bytes address ++ to_be_bytes (u16 n))
      ∷ [];
})

unfoldable pub write_multiple_coils : ℕ → ℕ → List Bool → Option Request
write_multiple_coils unit address values =
    write_many unit 0x0f address (length values) (u8 ((length values + 7) / 8))
      (pack_chunks (chunks 8 values))

unfoldable pub write_multiple_registers : ℕ → ℕ → List ℕ → Option Request
write_multiple_registers unit address values =
    write_many unit 0x10 address (length values) (u8 (length values * 2)) (be_bytes values)

unfoldable pub read_and_write_multiple_registers : ℕ → ℕ → ℕ → ℕ → List ℕ → Option Request
read_and_write_multiple_registers unit read_address read_length write_address values =
    filled (u8 (length values * 2)) (be_bytes values) >>= λ written. some (record {
      adu = new unit 0x17 (
          to_be_bytes read_address
          ++ (to_be_bytes read_length
              ++ (to_be_bytes write_address
                  ++ (to_be_bytes (u16 (length values)) ++ (u8 (length values * 2) ∷ written)))));
      checks =
          check_unit_fc unit 0x17
          ∷ check_length (1 + u16 (read_length * 2))
          ∷ check_byte_count (u16 (read_length * 2))
          ∷ [];
    })

unfoldable pub check_server_id : PreCheck
check_server_id f =
    if not (length f.adu.payload == 0)
    then need_length (1 + byte_at f.adu.payload 0)
    else insufficient_data

unfoldable pub report_server_id : ℕ → Request
report_server_id unit = record {
  adu = new unit 0x11 [];
  checks = check_unit_fc unit 0x11 ∷ check_server_id ∷ [];
}

unfoldable pub server_id_response : ℕ → Framing → Result ModbusError (MasterResponse ServerId)
server_id_response server_id_length f =
    if ltb (length f.adu.payload) (1 + server_id_length + 1)
    then err ModbusError.invalid_response
    else ok (
        response_of f (record {
          server_id = take server_id_length (drop 1 f.adu.payload);
          run_indicator_status = byte_at f.adu.payload (1 + server_id_length) == 0xff;
          additional_data = drop (1 + server_id_length + 1) f.adu.payload;
        }))

-- The loop of the check over the objects: the index, and the total length, which is equal to it.
unfoldable pub objects_length : ℕ → ℕ → ℕ → Bytes → PreCheckOutcome
objects_length zero idx total payload = need_length total
objects_length (suc more) idx total payload =
    let n = byte_at payload (idx + 1) in
    let rest = objects_length more (idx + (2 + n)) (total + (2 + n)) payload in
    if ltb (length payload) (idx + 2) then insufficient_data else rest

unfoldable pub check_identification : ℕ → PreCheck
unfolding objects_length
check_identification code f =
    if leb 6 (length f.adu.payload)
      && (byte_at f.adu.payload 0 == 0x0e && byte_at f.adu.payload 1 == code)
    then objects_length (byte_at f.adu.payload 5) 6 6 f.adu.payload
    else fail ModbusError.invalid_response

unfoldable pub read_device_identification : ℕ → ℕ → ℕ → Request
read_device_identification unit code object_id = record {
  adu = new unit 0x2b (0x0e ∷ code ∷ object_id ∷ []);
  checks = check_unit_fc unit 0x2b ∷ check_identification code ∷ [];
}

-- `&data[idx..idx + n]`
unfoldable pub slice : ℕ → ℕ → Bytes → Option Bytes
slice idx n payload =
    if ltb (length payload) (idx + n) then none else some (take n (drop idx payload))

-- The loop that reads the objects; `lossy` is `String::from_utf8_lossy`.
unfoldable pub read_objects : (Bytes → Bytes) → ℕ → ℕ → Bytes → Option (List DeviceObject)
read_objects lossy zero idx payload = some []
read_objects lossy (suc more) idx payload =
    let n = byte_at payload (idx + 1) in
    let rest = read_objects lossy more (idx + (2 + n)) payload in
    get_elem? payload idx >>= λ id. get_elem? payload (idx + 1) >>= λ obj_len.
    slice (idx + 2) obj_len payload >>= λ value.
    rest >>= λ objects. some (record { id = id; value = lossy value } ∷ objects)

unfoldable pub identification_response :
    (Bytes → Bytes) → Framing → Option (MasterResponse DeviceIdentification)
unfolding read_objects
identification_response lossy f =
    read_objects lossy (byte_at f.adu.payload 5) 6 f.adu.payload >>= λ objects. some (
      response_of f (record {
        read_device_id_code = byte_at f.adu.payload 1;
        conformity_level = byte_at f.adu.payload 2;
        more_follows = byte_at f.adu.payload 3 == 0xff;
        next_object_id = byte_at f.adu.payload 4;
        objects = objects;
      }))

unfoldable pub send_custom_fc : ℕ → ℕ → Bytes → Request
send_custom_fc unit fc payload = record {
  adu = new unit fc payload;
  checks = check_unit_fc unit fc ∷ [];
}
