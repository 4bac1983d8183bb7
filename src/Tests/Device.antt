-- ===== src/Tests/Device.antt =====
-- A device with four holding registers behind the server, and a client that reads and writes them.
use rs_modbus.Prelude.{
  ℕ, ◌+◌, ◌≡◌, ◌≢◌, ◌≤◌, refl, arith, none, some, true, false, List, [], ◌∷◌, ◌++◌, ok, length,
  take, drop, ◌==◌,
}
use rs_modbus.Prelude.HashMap.{HashMap, lookup, nat_eq}
use rs_modbus.Types.{
  ApplicationDataUnit, new, FramedDataUnit, Framing, MasterResponse, DeviceIdentification,
}
use rs_modbus.Application.Role.{ApplicationProtocol}
use rs_modbus.Utils.Registers.{pack_registers, be_bytes}
use rs_modbus.Utils.Range.{check_range, check_any, all_in_range, in_range}
use rs_modbus.Slave.Model.{ModbusSlaveModel, Method, unsupported, no_intercept}
use rs_modbus.Slave.Reply.{World, Link, world_of, reply, write_reply, answer, finish}
use rs_modbus.Slave.Reads.{handle_fc3}
use rs_modbus.Slave.Writes.{handle_fc16}
use rs_modbus.Slave.Dispatch.{
  process_frame, process_model, process_models, intercepted, dispatch, settle, models_snapshot,
}
use rs_modbus.Slave.Dispatch.Replies.{Served, process_frame-Served}
use rs_modbus.Session.{
  new_session, tid, key_eq, start, handle_frame, verdict, run_pre_checks, passed,
}
use rs_modbus.Session.Routing.{handle_frame-start}
use rs_modbus.Session.Once.{initial, step, starts, frames, times, held, Reachable-once}
use rs_modbus.Master.Requests.{
  Request, read_holding_registers, read_request, registers_response, response_of, check_unit_fc,
  write_multiple_registers,
}
use rs_modbus.Master.Requests.{
  read_device_identification, check_identification, objects_length, identification_response,
}
use rs_modbus.Master.Wait.{ModbusMaster, begin_response, allocate_tid, awaiting}
use rs_modbus.Master.Transactions.{
  allocate_many, allocate_tid-distinct, handle_frame-begin_response,
}
use rs_modbus.Errors.{ModbusError, as_u8, get_code_by_error}
use rs_modbus.Session.{reject}
use rs_modbus.Master.Exchange.Refused.{bad_length, handle_fc3-Refused}
use rs_modbus.Master.Exchange.{registers_response-handle_fc3}
use rs_modbus.Master.Total.{registers_response_total}
use rs_modbus.Master.Exchange.Identity.{identity, server_id_response-server_id_payload}
use rs_modbus.Master.Requests.{
  read_request, report_server_id, server_id_response, check_length, check_byte_count,
}
use rs_modbus.Slave.Ids.{server_id_payload}
use rs_modbus.Master.Exchange.Write.{handle_fc16-write_multiple_registers}
use rs_modbus.Master.Total.{identification_response_total}

abbrev read_registers : ℕ → ℕ → Method (List ℕ) (List ℕ)
read_registers address n s = (ok (take n (drop address s)), s)

abbrev write_registers : ℕ → List ℕ → Method (List ℕ) (Unit {0})
write_registers address values s =
    (ok tt, take address s ++ (values ++ drop (address + length values) s))

abbrev pub device : ModbusSlaveModel (List ℕ)
device = record {
  unit = 1;
  address_range = record {
    discrete_inputs = [];
    coils = [];
    input_registers = [];
    holding_registers = (0, 4) ∷ [];
  };
  intercept = no_intercept;
  read_coils = λ a n. unsupported;
  write_single_coil = λ a v. unsupported;
  write_multiple_coils = λ a vs. unsupported;
  read_discrete_inputs = λ a n. unsupported;
  read_holding_registers = read_registers;
  write_single_register = λ a v. unsupported;
  write_multiple_registers = write_registers;
  mask_write_register = λ a m o. unsupported;
  read_input_registers = λ a n. unsupported;
  report_server_id = unsupported;
  read_device_identification = unsupported;
}

-- The frame is the payload, and every write succeeds.
abbrev link : Link
link = record {
  encode = λ adu. adu.unit ∷ adu.fc ∷ adu.payload;
  respond = λ sent bytes. ok tt;
  broadcast = false;
}

abbrev world : World (List ℕ)
world = record { state = 10 ∷ 20 ∷ 300 ∷ 40 ∷ []; sent = [] }

abbrev reading : FramedDataUnit
reading = record {
  adu = record { transaction = some 7; unit = 1; fc = 3; payload = 0 ∷ 1 ∷ 0 ∷ 2 ∷ [] };
  raw = [];
}

abbrev pub models : HashMap ℕ (ModbusSlaveModel (List ℕ))
models = (1, device) ∷ []

process_frame_reads :
    (process_frame link.encode link.respond models [] reading world).sent
    ≡ (1 ∷ 3 ∷ 4 ∷ 0 ∷ 20 ∷ 1 ∷ 44 ∷ []) ∷ []
unfolding process_frame process_models process_model intercepted dispatch settle models_snapshot
    lookup handle_fc3 no_intercept check_range check_any all_in_range in_range answer finish reply
    write_reply pack_registers be_bytes
process_frame_reads = refl

process_frame-Served_example :
    Served
      (record { encode = link.encode; respond = link.respond; broadcast = reading.adu.unit == 0 })
      reading.adu
      world
      (process_frame link.encode link.respond models [] reading world)
process_frame-Served_example = process_frame-Served link.encode link.respond models [] reading world

abbrev read_answer : Framing
read_answer = record {
  adu = record { transaction = some 7; unit = 1; fc = 3; payload = 4 ∷ 0 ∷ 20 ∷ 1 ∷ 44 ∷ [] };
  raw = [];
  response = 0;
  connection = 0;
}

pub in_device : check_range (1 ∷ 3 ∷ []) device.address_range.holding_registers ≡ true
unfolding check_range check_any all_in_range in_range
in_device = refl

registers_response-handle_fc3_example :
    ((world_of (
        handle_fc3 link device
          (record (read_holding_registers 1 1 2).adu { transaction = some 7 })
          world)).sent
      ≡ (link.encode read_answer.adu ∷ []))
    × (run_pre_checks read_answer (read_holding_registers 1 1 2).checks ≡ passed)
    × (registers_response 2 read_answer ≡ some (response_of read_answer (20 ∷ 300 ∷ [])))
unfolding read_holding_registers read_request new pack_registers be_bytes
registers_response-handle_fc3_example =
    registers_response-handle_fc3 link device world (some 7) 1 1 2 (20 ∷ 300 ∷ []) world.state
      read_answer (omega arith) (omega arith) (omega arith) in_device refl refl refl
      (omega arith, (omega arith, tt)) refl

-- 200 registers are too many: the exception with code 3.
abbrev refusal : Framing
refusal = record {
  adu = record { transaction = some 7; unit = 1; fc = 0x83; payload = 3 ∷ [] };
  raw = [];
  response = 0;
  connection = 0;
}

handle_fc3-Refused_example :
    ((world_of (
        handle_fc3 link device
          (record (read_holding_registers 1 1 200).adu { transaction = some 7 })
          world)).sent
      ≡ (link.encode refusal.adu ∷ []))
    × (refusal.adu.fc ≡ 0x83)
    × (run_pre_checks refusal (read_holding_registers 1 1 200).checks
        ≡ reject ModbusError.invalid_response)
unfolding read_holding_registers read_request new as_u8 get_code_by_error
handle_fc3-Refused_example =
    handle_fc3-Refused link device world (some 7) 1 1 200 ModbusError.illegal_data_value refusal
      (omega arith) (omega arith) refl (bad_length refl) refl

abbrev write_answer : Framing
write_answer = record {
  adu = record { transaction = none; unit = 1; fc = 0x10; payload = 0 ∷ 1 ∷ 0 ∷ 2 ∷ [] };
  raw = [];
  response = 0;
  connection = 0;
}

handle_fc16-write_multiple_registers_example :
    (r : Request) × (write_multiple_registers 1 1 (5 ∷ 6 ∷ []) ≡ some r)
    × (world_of (handle_fc16 link device (record r.adu { transaction = none }) world)
        ≡ record { state = 10 ∷ 5 ∷ 6 ∷ 40 ∷ []; sent = link.encode write_answer.adu ∷ [] })
    × (run_pre_checks write_answer r.checks ≡ passed)
handle_fc16-write_multiple_registers_example =
    handle_fc16-write_multiple_registers link device world none 1 1 (5 ∷ 6 ∷ []) (ok tt)
      (10 ∷ 5 ∷ 6 ∷ 40 ∷ []) write_answer (omega arith) (omega arith) (omega arith)
      (omega arith, (omega arith, tt)) in_device refl refl

Reachable-once_example :
    times 0 (handle_frame read_answer (start (tid 7) [] new_session)).sent
      + held 0 (handle_frame read_answer (start (tid 7) [] new_session)).waiters
    ≤ 1
Reachable-once_example =
    Reachable-once (handle_frame read_answer (start (tid 7) [] new_session))
      (step (step initial (starts (tid 7) [])) (frames read_answer)) 0

handle_frame-start_example :
    ((handle_frame read_answer (start (tid 7) [] new_session)).sent
      ≡ (0, verdict read_answer (run_pre_checks read_answer [])) ∷ [])
    × (lookup (tid 7) (handle_frame read_answer (start (tid 7) [] new_session)).waiters ≡ none)
handle_frame-start_example = handle_frame-start (tid 7) [] read_answer new_session

abbrev pub client : ModbusMaster
client = record {
  concurrent = false;
  protocol = ApplicationProtocol.tcp;
  session = new_session;
  next_tid = 7;
  clean_level = 0;
  written = [];
}

abbrev request : ApplicationDataUnit
request = record { transaction = none; unit = 1; fc = 3; payload = 0 ∷ 1 ∷ 0 ∷ 2 ∷ [] }

handle_frame-begin_response_example :
    ((begin_response link.encode (λ b. ok tt) request [] client).0 ≡ awaiting (tid 7) 0)
    × ((handle_frame read_answer
          (begin_response link.encode (λ b. ok tt) request [] client).1.session).sent
        ≡ (0, verdict read_answer (run_pre_checks read_answer [])) ∷ [])
handle_frame-begin_response_example =
    handle_frame-begin_response link.encode (λ b. ok tt) request [] client read_answer refl refl
      (λ e. omega (arith, e)) refl refl

allocate_tid-distinct_example :
    (1 ≤ (allocate_tid (allocate_many 2 client)).0)
    × ((allocate_tid (allocate_many 2 client)).0 ≤ 65535)
    × ((allocate_tid (allocate_many 2 client)).0 ≢ (allocate_tid (allocate_many 5 client)).0)
allocate_tid-distinct_example =
    allocate_tid-distinct client 2 5 (omega arith) (omega arith) (omega arith) (omega arith)

abbrev identity_answer : Framing
identity_answer = record {
  adu = record {
    transaction = none;
    unit = 1;
    fc = 0x2b;
    payload = 0x0e ∷ 1 ∷ 0x81 ∷ 0 ∷ 0 ∷ 1 ∷ 0 ∷ 2 ∷ 65 ∷ 66 ∷ [];
  };
  raw = [];
  response = 0;
  connection = 0;
}

identity_accepted :
    run_pre_checks identity_answer (read_device_identification 1 1 0).checks ≡ passed
unfolding run_pre_checks read_device_identification check_unit_fc check_identification
    objects_length
identity_accepted = refl

identification_response_total_example :
    (response : MasterResponse DeviceIdentification) × (identification_response
        (λ b. b)
        identity_answer
      ≡ some response)
    × (length response.payload.objects ≡ 1)
identification_response_total_example =
    identification_response_total (λ b. b) 1 1 0 identity_answer identity_accepted

read_accepted : run_pre_checks read_answer (read_holding_registers 1 1 2).checks ≡ passed
unfolding run_pre_checks read_holding_registers read_request check_unit_fc check_length
    check_byte_count
read_accepted = refl

registers_response_total_example :
    (registers : List ℕ) × (registers_response 2 read_answer
      ≡ some (response_of read_answer registers))
    × (length registers ≡ 2)
registers_response_total_example =
    registers_response_total 1 1 2 read_answer (omega arith) read_accepted

abbrev server_answer : Framing
server_answer = record {
  adu = record { transaction = none; unit = 1; fc = 0x11; payload = 4 ∷ 65 ∷ 66 ∷ 0xff ∷ 7 ∷ [] };
  raw = [];
  response = 0;
  connection = 0;
}

server_payload :
    server_id_payload (identity 65 (66 ∷ []) true (7 ∷ [])) 1 ≡ some server_answer.adu.payload
unfolding server_id_payload
server_payload = refl

server_id_response-server_id_payload_example :
    (run_pre_checks server_answer (report_server_id 1).checks ≡ passed)
    × (server_id_response 2 server_answer
        ≡ ok (response_of server_answer (identity 65 (66 ∷ []) true (7 ∷ []))))
server_id_response-server_id_payload_example =
    server_id_response-server_id_payload 65 (66 ∷ []) true (7 ∷ []) 1 server_answer (omega arith)
      refl refl server_payload
