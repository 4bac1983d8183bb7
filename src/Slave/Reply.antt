-- ===== src/Slave/Reply.antt =====
-- src/slave.rs: how a handler answers, and `response_error`.
use rs_modbus.Prelude.{Bool, true, false, List, [], ◌∷◌, ◌++◌, Bytes, Result, ok, err, bit_or}
use rs_modbus.Errors.{ModbusError, as_u8, get_code_by_error}
use rs_modbus.Types.{ApplicationDataUnit}
use rs_modbus.Slave.Model.{Method}

-- The state of the models, and the frames written to the peer so far.
pub record World (S : Type 0) : Type 0 where
  pub state : S
  pub sent : List Bytes

-- What a handler uses: `encode` of the application layer, the outcome of a write to the peer after
-- those before it, and whether the request was a broadcast (`unit == 0`), which is never answered.
pub record Link : Type 0 where
  pub encode : ApplicationDataUnit → Bytes
  pub respond : List Bytes → Bytes → Result ModbusError (Unit {0})
  pub broadcast : Bool

-- The result of a handler, and the state after it.
pub data Handled (S : Type 0) : Type 0 where
  handled : Result ModbusError (Unit {0}) → World S → Handled S

abbrev pub Handler : Type 0 → Type 0
Handler S = World S → Handled S

abbrev pub result_of : {S : Type 0} → Handled S → Result ModbusError (Unit {0})
result_of (handled r w) = r

abbrev pub world_of : {S : Type 0} → Handled S → World S
world_of (handled r w) = w

-- The response to a request: its transaction, unit and function code, with a new payload.
abbrev pub response_adu : ApplicationDataUnit → Bytes → ApplicationDataUnit
response_adu adu payload = record adu { payload = payload }

abbrev pub error_adu : ApplicationDataUnit → ModbusError → ApplicationDataUnit
error_adu adu error = record adu {
  fc = bit_or adu.fc 0x80;
  payload = as_u8 (get_code_by_error error) ∷ [];
}

module _ {S : Type 0} where
  -- `response(bytes).await`
  unfoldable pub write_reply : Bool → Link → Bytes → Handler S
  write_reply true link bytes w = handled (ok tt) w
  write_reply false link bytes w =
      handled (link.respond w.sent bytes) (record w { sent = w.sent ++ (bytes ∷ []) })

  unfoldable pub reply : Link → ApplicationDataUnit → Handler S
  unfolding write_reply
  reply link adu w = write_reply link.broadcast link (link.encode adu) w

  unfoldable pub response_error : Link → ApplicationDataUnit → ModbusError → Handler S
  unfolding reply
  response_error link adu error w = reply link (error_adu adu error) w

  -- `match model.method().await { Ok(a) => response(…), Err(e) => response_error(e) }`
  unfoldable pub finish :
      {A : Type 0}
      → Link
      → ApplicationDataUnit
      → (A → ApplicationDataUnit)
      → Result ModbusError A
      → Handler S
  unfolding response_error
  finish link adu build (ok a) w = reply link (build a) w
  finish link adu build (err e) w = response_error link adu e w

  unfoldable pub answer :
      {A : Type 0} → Link → ApplicationDataUnit → Method S A → (A → ApplicationDataUnit) → Handler S
  unfolding finish
  answer link adu method build w =
      let (result, s) = method w.state in finish link adu build result (record w { state = s })
