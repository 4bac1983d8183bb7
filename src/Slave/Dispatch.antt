-- ===== src/Slave/Dispatch.antt =====
-- src/slave.rs: `process_frame`, the whole way of a request through the server.
pub mod Replies
use rs_modbus.Prelude.{
  ℕ, Option, none, some, Bool, List, [], ◌∷◌, Bytes, ok, err, Result, ◌==◌, if◌then◌else◌,
}
use rs_modbus.Prelude.HashMap.{HashMap, lookup, nat_eq}
use rs_modbus.Errors.{ErrorCode, ModbusError, get_error_by_code}
use rs_modbus.Types.{ApplicationDataUnit, FramedDataUnit, CustomFcPredict}
use rs_modbus.Slave.Model.{ModbusSlaveModel, Method}
use rs_modbus.Slave.Reply.{
  World, Link, Handled, handled, world_of, reply, response_error, response_adu,
}
use rs_modbus.Slave.Reads.{handle_fc1, handle_fc2, handle_fc3, handle_fc4}
use rs_modbus.Slave.Writes.{
  handle_fc5, handle_fc6, handle_fc15, handle_fc16, handle_fc22, handle_fc23,
}
use rs_modbus.Slave.Ids.{handle_fc17, handle_fc43_14}

-- `CustomFunctionCode`; its three functions are the user's.
pub record CustomFunctionCode (S : Type 0) : Type 0 where
  pub fc : ℕ
  pub predict_request_length : Bytes → CustomFcPredict
  pub predict_response_length : Bytes → CustomFcPredict
  pub handle : Option (Bytes → ℕ → Method S Bytes)

module _ {S : Type 0} where
  abbrev handler_of : Option (CustomFunctionCode S) → Option (Bytes → ℕ → Method S Bytes)
  handler_of none = none
  handler_of (some cfc) = cfc.handle

  -- The outcome of a custom handler. The result of the write is dropped, so a failed one is not
  -- answered again.
  unfoldable pub custom_reply :
      Link → ApplicationDataUnit → Result ModbusError Bytes → World S → World S
  custom_reply link adu (ok payload) w = world_of (reply link (response_adu adu payload) w)
  custom_reply link adu (err e) w = world_of (response_error link adu e w)

  -- `if let Err(e) = result { let _ = response_error(e) }`
  unfoldable pub settle : Link → ApplicationDataUnit → Handled S → World S
  settle link adu (handled (ok done) w) = w
  settle link adu (handled (err e) w) = world_of (response_error link adu e w)

  unfoldable pub handle_custom :
      Link → ApplicationDataUnit → Option (Bytes → ℕ → Method S Bytes) → World S → World S
  unfolding custom_reply settle
  handle_custom link adu none w =
      settle link adu (response_error link adu (get_error_by_code ErrorCode.illegal_function) w)
  handle_custom link adu (some handler) w =
      let (result, s) = handler adu.payload adu.unit w.state in
      custom_reply link adu result (record w { state = s })

  -- The `match frame.adu.fc`.
  unfoldable pub dispatch :
      Link
      → HashMap ℕ (CustomFunctionCode S)
      → ModbusSlaveModel S
      → ApplicationDataUnit
      → World S
      → World S
  unfolding settle handle_custom
  dispatch link custom_fcs model adu w =
      if adu.fc == 0x01
      then settle link adu (handle_fc1 link model adu w)
      else if adu.fc == 0x02
      then settle link adu (handle_fc2 link model adu w)
      else if adu.fc == 0x03
      then settle link adu (handle_fc3 link model adu w)
      else if adu.fc == 0x04
      then settle link adu (handle_fc4 link model adu w)
      else if adu.fc == 0x05
      then settle link adu (handle_fc5 link model adu w)
      else if adu.fc == 0x06
      then settle link adu (handle_fc6 link model adu w)
      else if adu.fc == 0x0f
      then settle link adu (handle_fc15 link model adu w)
      else if adu.fc == 0x10
      then settle link adu (handle_fc16 link model adu w)
      else if adu.fc == 0x11
      then settle link adu (handle_fc17 link model adu w)
      else if adu.fc == 0x16
      then settle link adu (handle_fc22 link model adu w)
      else if adu.fc == 0x17
      then settle link adu (handle_fc23 link model adu w)
      else if adu.fc == 0x2b
      then settle link adu (handle_fc43_14 link model adu w)
      else handle_custom link adu (handler_of (lookup adu.fc custom_fcs)) w

  -- What follows the model's `intercept`.
  unfoldable pub intercepted :
      Link
      → HashMap ℕ (CustomFunctionCode S)
      → ModbusSlaveModel S
      → ApplicationDataUnit
      → Result ModbusError (Option Bytes)
      → World S
      → World S
  unfolding dispatch
  intercepted link custom_fcs model adu (ok (some payload)) w =
      world_of (reply link (response_adu adu payload) w)
  intercepted link custom_fcs model adu (ok none) w = dispatch link custom_fcs model adu w
  intercepted link custom_fcs model adu (err e) w = world_of (response_error link adu e w)

  -- The body of the loop over the models.
  unfoldable pub process_model :
      Link
      → HashMap ℕ (CustomFunctionCode S)
      → ModbusSlaveModel S
      → ApplicationDataUnit
      → World S
      → World S
  unfolding intercepted
  process_model link custom_fcs model adu w =
      let (result, s) = model.intercept adu.fc adu.payload w.state in
      intercepted link custom_fcs model adu result (record w { state = s })

  unfoldable pub process_models :
      Link
      → HashMap ℕ (CustomFunctionCode S)
      → List (ModbusSlaveModel S)
      → ApplicationDataUnit
      → World S
      → World S
  unfolding process_model
  process_models link custom_fcs [] adu w = w
  process_models link custom_fcs (model ∷ models) adu w =
      process_models link custom_fcs models adu (process_model link custom_fcs model adu w)

  -- `g.values()`
  abbrev values : HashMap ℕ (ModbusSlaveModel S) → List (ModbusSlaveModel S)
  values [] = []
  values ((unit, model) ∷ rest) = model ∷ values rest

  abbrev to_list : Option (ModbusSlaveModel S) → List (ModbusSlaveModel S)
  to_list none = []
  to_list (some model) = model ∷ []

  -- The models that a unit addresses: all of them for a broadcast, else the one of that unit.
  unfoldable pub models_snapshot : HashMap ℕ (ModbusSlaveModel S) → ℕ → List (ModbusSlaveModel S)
  models_snapshot models unit = if unit == 0 then values models else to_list (lookup unit models)

-- `process_frame`, with `encode` of the application layer and the outcomes of the writes.
unfoldable pub process_frame :
    {S : Type 0}
    → (ApplicationDataUnit → Bytes)
    → (List Bytes → Bytes → Result ModbusError (Unit {0}))
    → HashMap ℕ (ModbusSlaveModel S)
    → HashMap ℕ (CustomFunctionCode S)
    → FramedDataUnit
    → World S
    → World S
unfolding process_models models_snapshot
process_frame encode respond models custom_fcs frame w =
    process_models (record { encode = encode; respond = respond; broadcast = frame.adu.unit == 0 })
      custom_fcs (models_snapshot models frame.adu.unit) frame.adu w
