-- ===== src/Slave/Ids.antt =====
-- src/slave.rs: the handlers of FC17 and FC43/14, which report the identity of the device.
use rs_modbus.Prelude.{
  ℕ, ◌+◌, Option, none, some, Bool, false, not, ◌&&◌, ◌||◌, List, [], ◌∷◌, ◌++◌,
}
use rs_modbus.Prelude.{Bytes, byte_at, u8, length, ok, err, Result, ltb, leb, ◌==◌, if◌then◌else◌}
use rs_modbus.Errors.{ErrorCode, ModbusError, get_error_by_code}
use rs_modbus.Types.{ApplicationDataUnit, ServerId}
use rs_modbus.Slave.Model.{ModbusSlaveModel}
use rs_modbus.Slave.Reply.{Link, Handler, handled, reply, response_error, response_adu}

-- The server ID, or the unit of the model where it is empty.
abbrev or_unit : Bytes → ℕ → Bytes
or_unit [] unit = unit ∷ []
or_unit (b ∷ bs) unit = b ∷ bs

-- The payload of an FC17 response; `none` where it does not fit a count byte.
unfoldable pub server_id_payload : ServerId → ℕ → Option Bytes
server_id_payload id unit =
    let bytes = or_unit id.server_id unit in
    let byte_count = length bytes + 1 + length id.additional_data in
    if ltb 255 byte_count
    then none
    else some (
        u8 byte_count
        ∷ (bytes ++ ((if id.run_indicator_status then 0xff else 0x00) ∷ id.additional_data)))

-- Requested object IDs that name no object of the category are read as 0; `none` is a refusal.
unfoldable pub start_object : ℕ → ℕ → Result ErrorCode ℕ
start_object code object_id =
    if code == 0x01
    then ok (
        if ltb 0x02 object_id || (ltb 0x06 object_id && ltb object_id 0x80)
        then 0x00
        else object_id)
    else if code == 0x02
    then ok (if ltb 0x06 object_id then 0x00 else object_id)
    else if code == 0x03
    then ok (if ltb 0x06 object_id && ltb object_id 0x80 then 0x00 else object_id)
    else if code == 0x04
    then (if ltb 0x06 object_id && ltb object_id 0x80
        then err ErrorCode.illegal_data_address
        else ok object_id)
    else err ErrorCode.illegal_data_value

abbrev pub Objects : Type 0
Objects = List (ℕ × Bytes)

-- `position` and assignment, or `push`.
unfoldable pub put_object : ℕ × Bytes → Objects → Objects
put_object o [] = o ∷ []
put_object o (p ∷ rest) = let more = put_object o rest in if p.0 == o.0 then o ∷ rest else p ∷ more

unfoldable pub put_all : Objects → Objects → Objects
unfolding put_object
put_all [] objects = objects
put_all (o ∷ more) objects = put_all more (put_object o objects)

-- `sort_by_key`, which is stable.
unfoldable pub insert_sorted : ℕ × Bytes → Objects → Objects
insert_sorted o [] = o ∷ []
insert_sorted o (p ∷ rest) =
    let more = insert_sorted o rest in if leb o.0 p.0 then o ∷ p ∷ rest else p ∷ more

unfoldable pub sort_objects : Objects → Objects
unfolding insert_sorted
sort_objects [] = []
sort_objects (o ∷ rest) = insert_sorted o (sort_objects rest)

-- "null", the value of a mandatory object that the model does not give.
abbrev null_text : Bytes
null_text = 0x6e ∷ 0x75 ∷ 0x6c ∷ 0x6c ∷ []

abbrev mandatory : Objects
mandatory = (0x00, null_text) ∷ (0x01, null_text) ∷ (0x02, null_text) ∷ []

unfoldable pub all_objects : Objects → Objects
unfolding put_all sort_objects
all_objects identification = sort_objects (put_all identification mandatory)

unfoldable pub has_object : ℕ → Objects → Bool
has_object id [] = false
has_object id (o ∷ rest) = o.0 == id || has_object id rest

-- `objects.last().map(|(id, _)| *id).unwrap_or(0)`
unfoldable pub max_id : Objects → ℕ
max_id [] = 0
max_id (o ∷ []) = o.0
max_id (o ∷ p ∷ rest) = max_id (p ∷ rest)

unfoldable pub conformity_level : ℕ → ℕ
conformity_level max_id' =
    if leb 0x80 max_id' then 0x83 else if ltb 0x02 max_id' then 0x82 else 0x81

-- The variables of the loop that chooses the objects of one response.
pub record Chosen : Type 0 where
  pub ids : List ℕ
  pub total_length : ℕ
  pub last_id : ℕ

abbrev skip_object : ℕ → Chosen → Chosen
skip_object id c = record c { last_id = if c.last_id == 0 then id else c.last_id }

abbrev take_object : ℕ → ℕ → Chosen → Chosen
take_object id n c = record c { ids = c.ids ++ (id ∷ []); total_length = c.total_length + (2 + n) }

-- The loop; `none` is the early return for a value that is too long.
unfoldable pub choose : ℕ → ℕ → Objects → Chosen → Option Chosen
choose code object_id [] c = some c
choose code object_id ((id, value) ∷ rest) c =
    let before = choose code object_id rest c in
    let skipped = choose code object_id rest (skip_object id c) in
    let taken = choose code object_id rest (take_object id (length value) c) in
    if ltb id object_id
    then before
    else if ltb 245 (length value)
    then none
    else if ltb 253 (c.total_length + 2 + length value)
    then skipped
    else if code == 0x04
    then some (take_object id (length value) c)
    else taken

unfoldable pub find_object : ℕ → Objects → Option Bytes
find_object id [] = none
find_object id ((k, value) ∷ rest) =
    let more = find_object id rest in if k == id then some value else more

abbrev object_bytes : ℕ → Option Bytes → Bytes
object_bytes id none = []
object_bytes id (some value) = id ∷ u8 (length value) ∷ value

unfoldable pub objects_payload : List ℕ → Objects → Bytes
unfolding find_object
objects_payload [] objects = []
objects_payload (id ∷ ids) objects =
    object_bytes id (find_object id objects) ++ objects_payload ids objects

unfoldable pub identification_payload : ℕ → Objects → Chosen → Bytes
unfolding objects_payload conformity_level max_id
identification_payload code objects c =
    0x0e
    ∷ code
    ∷ conformity_level (max_id objects)
    ∷ (if c.last_id == 0 then 0x00 else 0xff)
    ∷ c.last_id
    ∷ u8 (length c.ids)
    ∷ objects_payload c.ids objects

-- The payload of an FC43/14 response to the objects of the model, or the refusal.
unfoldable pub identify : ℕ → ℕ → Objects → Result ErrorCode Bytes
unfolding all_objects has_object choose identification_payload
identify code object_id identification =
    let objects = all_objects identification in
    let present = has_object object_id objects in
    if not present && code == 0x04
    then err ErrorCode.illegal_data_address
    else elim (choose code (if present then object_id else 0x00) objects
        (record { ids = []; total_length = 10; last_id = 0 })) [
          | none ↦ err ErrorCode.server_device_failure
          | some c ↦ ok (identification_payload code objects c)
        ]

module _ {S : Type 0} (link : Link) (model : ModbusSlaveModel S) where
  unfoldable pub answer_payload : ApplicationDataUnit → Result ErrorCode Bytes → Handler S
  answer_payload adu (ok payload) w = reply link (response_adu adu payload) w
  answer_payload adu (err code) w = response_error link adu (get_error_by_code code) w

  -- `ok_or`
  abbrev or_code {ℓ} : {A : Type ℓ} → Option A → ErrorCode → Result ErrorCode A
  or_code none e = err e
  or_code (some a) e = ok a

  unfoldable pub report : ApplicationDataUnit → Result ModbusError ServerId → Handler S
  unfolding answer_payload
  report adu (ok id) w =
      answer_payload adu (or_code (server_id_payload id model.unit) ErrorCode.server_device_failure)
        w
  report adu (err e) w = response_error link adu e w

  unfoldable pub handle_fc17 : ApplicationDataUnit → Handler S
  unfolding report
  handle_fc17 adu w =
      if not (length adu.payload == 0)
      then handled (ok tt) w
      else let (result, s) = model.report_server_id w.state in
        report adu result (record w { state = s })

  unfoldable pub identified : ApplicationDataUnit → ℕ → ℕ → Result ModbusError Objects → Handler S
  unfolding answer_payload
  identified adu code object_id (ok identification) w =
      answer_payload adu (identify code object_id identification) w
  identified adu code object_id (err e) w = response_error link adu e w

  unfoldable pub read_identification : ApplicationDataUnit → ℕ → Result ErrorCode ℕ → Handler S
  unfolding identified
  read_identification adu code (ok object_id) w =
      let (result, s) = model.read_device_identification w.state in
      identified adu code object_id result (record w { state = s })
  read_identification adu code (err e) w = response_error link adu (get_error_by_code e) w

  unfoldable pub handle_fc43_14 : ApplicationDataUnit → Handler S
  unfolding read_identification
  handle_fc43_14 adu w =
      if not (length adu.payload == 3) || not (byte_at adu.payload 0 == 0x0e)
      then response_error link adu (get_error_by_code ErrorCode.illegal_function) w
      else let code = byte_at adu.payload 1 in
        read_identification adu code (start_object code (byte_at adu.payload 2)) w
