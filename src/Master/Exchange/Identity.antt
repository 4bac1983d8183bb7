-- ===== src/Master/Exchange/Identity.antt =====
-- src/master.rs and src/slave.rs: the answer to FC17 and how the client reads it.
use rs_modbus.Prelude.{
  ℕ, suc, ◌+◌, ◌≤◌, ◌≡◌, refl, ap, ◌∙◌, sym, arith, some, Bool, true, false, [], ◌∷◌, ◌++◌, Bytes,
  ok, byte_at, u8, length, length-append, take, drop, take-length_append, get_or-append_length, ltb,
  ◌==◌, if◌then◌else◌, ge→ltb,
}
use rs_modbus.Types.{Framing, ServerId}
use rs_modbus.Session.{run_pre_checks, passed}
use rs_modbus.Slave.Ids.{server_id_payload}
use rs_modbus.Master.Requests.{
  report_server_id, server_id_response, response_of, check_unit_fc, check_server_id,
}

drop-past : (xs ys : Bytes) (y : ℕ) → drop (length xs + 1) (xs ++ (y ∷ ys)) ≡ ys
drop-past [] ys y = refl
drop-past (x ∷ xs) ys y = ap (λ (k : ℕ). drop k (x ∷ (xs ++ (y ∷ ys)))) next ∙ drop-past xs ys y
  where
    next : suc (length xs) + 1 ≡ suc (length xs + 1)
    next = omega arith

abbrev status_byte : Bool → ℕ
status_byte run = if run then 0xff else 0x00

status-read : (run : Bool) → (status_byte run == 0xff) ≡ run
status-read true = refl
status-read false = refl

module _ (b : ℕ) (bs : Bytes) (run : Bool) (additional : Bytes) where
  abbrev pub identity : ServerId
  identity = record { server_id = b ∷ bs; run_indicator_status = run; additional_data = additional }

  abbrev count : ℕ
  count = length (b ∷ bs) + 1 + length additional

  -- The payload that the server makes of it.
  abbrev payload_of : Bytes
  payload_of = count ∷ ((b ∷ bs) ++ (status_byte run ∷ additional))

  server_id_payload_lem :
      (unit : ℕ) → count ≤ 255 → server_id_payload identity unit ≡ some payload_of
  unfolding server_id_payload
  server_id_payload_lem unit small = rw (ge→ltb 255 count small, narrow)
    where
      narrow : u8 count ≡ count
      narrow = omega (arith, small)

  read_parts :
      (f : Framing)
      → ltb (length f.adu.payload) (1 + length (b ∷ bs) + 1) ≡ false
      → take (length (b ∷ bs)) (drop 1 f.adu.payload) ≡ b ∷ bs
      → (byte_at f.adu.payload (1 + length (b ∷ bs)) == 0xff) ≡ run
      → drop (1 + length (b ∷ bs) + 1) f.adu.payload ≡ additional
      → server_id_response (length (b ∷ bs)) f ≡ ok (response_of f identity)
  unfolding server_id_response
  read_parts f long id status more = rw (long, id, status, more)

  read_back :
      (f : Framing)
      → f.adu.payload ≡ payload_of
      → server_id_response (length (b ∷ bs)) f ≡ ok (response_of f identity)
  read_back f e =
      read_parts f
        (ground (arith, ap length e, length-append (b ∷ bs) (status_byte run ∷ additional)))
        (ap (λ p. take (length (b ∷ bs)) (drop 1 p)) e
          ∙ take-length_append (b ∷ bs) (status_byte run ∷ additional))
        (ap (λ p. byte_at p (1 + length (b ∷ bs)) == 0xff) e
          ∙ ap (λ (k : ℕ). byte_at payload_of k == 0xff) one
          ∙ ap (λ (s : ℕ). s == 0xff) (get_or-append_length (b ∷ bs) additional (status_byte run) 0)
          ∙ status-read run)
        (ap (λ p. drop (1 + length (b ∷ bs) + 1) p) e
          ∙ ap (λ (k : ℕ). drop k payload_of) two
          ∙ drop-past (b ∷ bs) additional (status_byte run))
    where
      one : 1 + length (b ∷ bs) ≡ suc (length (b ∷ bs))
      one = omega arith

      two : 1 + length (b ∷ bs) + 1 ≡ suc (length (b ∷ bs) + 1)
      two = omega arith

  identity_checks :
      (unit : ℕ) (f : Framing)
      → f.adu.unit ≡ unit
      → f.adu.fc ≡ 0x11
      → f.adu.payload ≡ payload_of
      → run_pre_checks f (report_server_id unit).checks ≡ passed
  unfolding run_pre_checks report_server_id check_unit_fc check_server_id
  identity_checks unit f u c e = ground (
    arith,
    u,
    c,
    ap length e,
    ap (λ p. byte_at p 0) e,
    length-append (b ∷ bs) (status_byte run ∷ additional),
  )

-- A server ID that is not empty, and that fits the count byte with its status and its additional
-- data, is put into a payload; the frame of FC17 with this payload passes the client's checks, and a
-- client that knows the length of the ID reads from it the same ID, status and additional data.
pub server_id_response-server_id_payload :
    (b : ℕ) (bs : Bytes) (run : Bool) (additional : Bytes) (unit : ℕ) (f : Framing)
    → length (b ∷ bs) + 1 + length additional ≤ 255
    → f.adu.unit ≡ unit
    → f.adu.fc ≡ 0x11
    → server_id_payload (identity b bs run additional) unit ≡ some f.adu.payload
    → (run_pre_checks f (report_server_id unit).checks ≡ passed)
      × (server_id_response (length (b ∷ bs)) f ≡ ok (response_of f (identity b bs run additional)))
server_id_response-server_id_payload b bs run additional unit f small u c e =
    let same : f.adu.payload ≡ payload_of b bs run additional =
      some_injective (sym e ∙ server_id_payload_lem b bs run additional unit small) in
    (identity_checks b bs run additional unit f u c same, read_back b bs run additional f same)
  where
    some_injective : {x y : Bytes} → some x ≡ some y → x ≡ y
    some_injective h = cc
