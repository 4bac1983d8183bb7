-- ===== src/Master/Total.antt =====
-- src/master.rs: reading a response never indexes out of range once the checks have passed.
use rs_modbus.Prelude.{
  ◌*◌, be16, u16, ℕ, zero, suc, ◌+◌, ◌≤◌, ◌<◌, ◌≡◌, ◌≢◌, refl, ap, arith, Option, some,
}
use rs_modbus.Prelude.{false, not, List, [], ◌∷◌, Bytes, ltb, ◌==◌, if◌then◌else◌, ◌>>=◌}
use rs_modbus.Prelude.{ge→ltb, length, get_elem?, take, drop, byte_at, ◌⊎◌, inl}
use rs_modbus.Errors.{ModbusError}
use rs_modbus.Types.{Framing, MasterResponse, DeviceObject, DeviceIdentification}
use rs_modbus.Utils.Registers.{parse_from, parse_registers}
use rs_modbus.Master.Requests.{
  read_holding_registers, read_request, registers_response, check_length,
}
use rs_modbus.Session.{
  PreCheck, run_pre_checks, passed, need_length, reject, PreCheckOutcome, pass, fail,
  insufficient_data,
}
use rs_modbus.Master.Requests.{objects_length, read_objects, slice, check_identification}
use rs_modbus.Master.Requests.{read_device_identification, identification_response, response_of}

get_elem?-byte_at : (xs : Bytes) (i : ℕ) → i < length xs → get_elem? xs i ≡ some (byte_at xs i)
get_elem?-byte_at [] i h = absurd (omega arith)
get_elem?-byte_at (x ∷ xs) zero h = refl
get_elem?-byte_at (x ∷ xs) (suc i) h = get_elem?-byte_at xs i (omega arith)

-- One round of the loop of the check.
objects_length-round :
    (more idx n : ℕ) (payload : Bytes) (l : ℕ)
    → byte_at payload (idx + 1) ≡ n
    → objects_length (suc more) idx idx payload ≡ need_length l
    → (ltb (length payload) (idx + 2) ≡ false)
      × (objects_length more (idx + (2 + n)) (idx + (2 + n)) payload ≡ need_length l)
unfolding objects_length
objects_length-round more idx n payload l e h = ground (arith, e, h)

-- The loop ends at or behind its index.
objects_length_end :
    (more idx : ℕ) (payload : Bytes) (l : ℕ)
    → objects_length more idx idx payload ≡ need_length l
    → idx ≤ l
unfolding objects_length
objects_length_end zero idx payload l h = ground (arith, h)
objects_length_end (suc more) idx payload l h =
    let (b, next) = objects_length-round more idx (byte_at payload (idx + 1)) payload l refl h in
    omega (arith, objects_length_end more (idx + (2 + byte_at payload (idx + 1))) payload l next)

-- A list of objects that ends with the payload is read in full.
read_objects_total :
    (lossy : Bytes → Bytes) (more idx : ℕ) (payload : Bytes)
    → objects_length more idx idx payload ≡ need_length (length payload)
    → (objects : List DeviceObject) × (read_objects lossy more idx payload ≡ some objects)
      × (length objects ≡ more)
unfolding read_objects slice
read_objects_total lossy zero idx payload h = ([], refl, refl)
read_objects_total lossy (suc more) idx payload h =
    let n = byte_at payload (idx + 1) in
    let (b, next) = objects_length-round more idx n payload (length payload) refl h in
    let (objects, read, count) = read_objects_total lossy more (idx + (2 + n)) payload next in
    let fits = objects_length_end more (idx + (2 + n)) payload (length payload) next in
    (
      record { id = byte_at payload idx; value = lossy (take n (drop (idx + 2) payload)) }
          ∷ objects,
      rw (
        get_elem?-byte_at payload idx (omega (arith, fits)),
        get_elem?-byte_at payload (idx + 1) (omega (arith, fits)),
        ge→ltb (length payload) (idx + 2 + n) (omega (arith, fits)),
        read,
      ),
      ap suc count,
    )

-- A check that a frame passes.
passed-cases :
    (f : Framing) (check : PreCheck) (checks : List PreCheck)
    → run_pre_checks f (check ∷ checks) ≡ passed
    → ((check f ≡ pass) ⊎ (check f ≡ need_length (length f.adu.payload)))
      × (run_pre_checks f checks ≡ passed)
unfolding run_pre_checks
passed-cases f check checks h = outcome (check f) h
  where
    outcome :
        (o : PreCheckOutcome)
        → (elim o [
          | pass ↦ run_pre_checks f checks
          | need_length n ↦
              (if ltb (length f.adu.payload) n
                then reject ModbusError.insufficient_data
                else if not (length f.adu.payload == n)
                then reject ModbusError.invalid_response
                else run_pre_checks f checks)
          | fail e ↦ reject e
          | insufficient_data ↦ reject ModbusError.insufficient_data
        ])
          ≡ passed
        → ((o ≡ pass) ⊎ (o ≡ need_length (length f.adu.payload)))
          × (run_pre_checks f checks ≡ passed)
    outcome pass e = (inl refl, e)
    outcome (need_length n) e = ground (arith, e)
    outcome (fail er) e = ground (arith, e)
    outcome insufficient_data e = ground (arith, e)

objects_length-ne-pass :
    (more idx total : ℕ) (payload : Bytes) → objects_length more idx total payload ≢ pass
unfolding objects_length
objects_length-ne-pass zero idx total payload e = ground (arith, e)
objects_length-ne-pass (suc more) idx total payload e = ground (
  arith,
  e,
  objects_length-ne-pass more (idx + (2 + byte_at payload (idx + 1)))
      (total + (2 + byte_at payload (idx + 1))) payload,
)

-- The objects of a frame that the check of FC43/14 accepts.
check_identification-objects :
    (code : ℕ) (f : Framing)
    → ((check_identification code f ≡ pass)
        ⊎ (check_identification code f ≡ need_length (length f.adu.payload)))
    → objects_length (byte_at f.adu.payload 5) 6 6 f.adu.payload
      ≡ need_length (length f.adu.payload)
unfolding check_identification
check_identification-objects code f h =
    ground (arith, h, objects_length-ne-pass (byte_at f.adu.payload 5) 6 6 f.adu.payload)

-- A response to FC43/14 that passes the client's checks, whatever its bytes, is read without an
-- index out of range, and gives as many objects as it announces.
pub identification_response_total :
    (lossy : Bytes → Bytes) (unit code object_id : ℕ) (f : Framing)
    → run_pre_checks f (read_device_identification unit code object_id).checks ≡ passed
    → (response : MasterResponse DeviceIdentification) × (identification_response lossy f
        ≡ some response)
      × (length response.payload.objects ≡ byte_at f.adu.payload 5)
unfolding identification_response read_device_identification
identification_response_total lossy unit code object_id f h =
    let accepted = passed-cases f (check_identification code) [] (passed-cases f _ _ h).1 in
    let (objects, read, count) =
      read_objects_total lossy (byte_at f.adu.payload 5) 6 f.adu.payload
        (check_identification-objects code f accepted.0) in
    (
      _,
      ap
          (λ (o : Option (List DeviceObject)). o >>= λ os. some (
            response_of f (record {
              read_device_id_code = byte_at f.adu.payload 1;
              conformity_level = byte_at f.adu.payload 2;
              more_follows = byte_at f.adu.payload 3 == 0xff;
              next_object_id = byte_at f.adu.payload 4;
              objects = os;
            })))
          read,
      count,
    )

parse_from_total :
    (more i : ℕ) (payload : Bytes)
    → 1 + (i + more) * 2 ≤ length payload
    → (registers : List ℕ) × (parse_from more i payload ≡ some registers)
      × (length registers ≡ more)
unfolding parse_from
parse_from_total zero i payload h = ([], refl, refl)
parse_from_total (suc more) i payload h =
    let (registers, read, count) = parse_from_total more (i + 1) payload (omega (arith, h)) in
    (
      be16 (byte_at payload (1 + i * 2)) (byte_at payload (1 + i * 2 + 1)) ∷ registers,
      rw (
        get_elem?-byte_at payload (1 + i * 2) (omega (arith, h)),
        get_elem?-byte_at payload (1 + i * 2 + 1) (omega (arith, h)),
        read,
        parse_from,
      ),
      ap suc count,
    )

-- A response to FC3 for fewer than 32768 registers that passes the client's checks, whatever its
-- bytes, is read without an index out of range, and gives as many registers as were asked for.
pub registers_response_total :
    (unit address n : ℕ) (f : Framing)
    → n < 32768
    → run_pre_checks f (read_holding_registers unit address n).checks ≡ passed
    → (registers : List ℕ) × (registers_response n f ≡ some (response_of f registers))
      × (length registers ≡ n)
unfolding registers_response read_holding_registers read_request check_length parse_registers
registers_response_total unit address n f small h =
    let rest = (passed-cases f _ _ h).1 in
    let sized : 1 + u16 (n * 2) ≡ length f.adu.payload = exact (passed-cases f _ _ rest).0 in
    let (registers, read, count) =
      parse_from_total n 0 f.adu.payload (omega (arith, sized, small)) in
    (registers, ap (λ (o : Option (List ℕ)). o >>= λ rs. some (response_of f rs)) read, count)
  where
    exact : {k l : ℕ} → ((need_length k ≡ pass) ⊎ (need_length k ≡ need_length l)) → k ≡ l
    exact h = ground (arith, h)
