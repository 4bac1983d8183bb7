-- ===== src/Slave/Dispatch/Replies/Handlers.antt =====
-- src/slave.rs: each handler writes nothing, or one reply to its request.
use rs_modbus.Prelude.{ℕ, ◌≤◌, ◌≡◌, refl, Bool, true, false, ◌⊎◌, inl, inr, [], ◌∷◌, ◌++◌, Bytes}
use rs_modbus.Prelude.{Result, ok, err, if◌then◌else◌, bit_or}
use rs_modbus.Errors.{ModbusError, ErrorCode, as_u8, get_code_by_error, get_error_by_code}
use rs_modbus.Errors.Codes.{as_u8-get_code_by_error}
use rs_modbus.Types.{ApplicationDataUnit, ServerId}
use rs_modbus.Slave.Model.{ModbusSlaveModel, Method}
use rs_modbus.Slave.Reply.{
  World, Link, Handled, handled, result_of, world_of, write_reply, reply, response_error,
  response_adu, error_adu, finish, answer,
}
use rs_modbus.Slave.Reads.{handle_fc1, handle_fc2, handle_fc3, handle_fc4}
use rs_modbus.Slave.Writes.{
  handle_fc5, handle_fc6, handle_fc15, handle_fc16, handle_fc22, handle_fc23, read_after_write,
}
use rs_modbus.Slave.Ids.{
  handle_fc17, handle_fc43_14, Objects, answer_payload, report, identified, read_identification,
}

-- A reply keeps the transaction and the unit of its request. It has the request's function code,
-- or is an exception: the high bit is set, and its one byte is a code from 1 to 11.
pub record IsReply (request reply' : ApplicationDataUnit) : Type 0 where
  pub transaction : reply'.transaction ≡ request.transaction
  pub unit : reply'.unit ≡ request.unit
  pub kind :
      (reply'.fc ≡ request.fc)
      ⊎ ((code : ℕ) × (reply'.fc ≡ bit_or request.fc 0x80)
          × (reply'.payload ≡ code ∷ [])
          × (1 ≤ code)
          × (code ≤ 11))

-- What a handler does to the peer: nothing, and it succeeds; or one reply, whose write decides.
pub data Outcome {S : Type 0} (link : Link) (adu : ApplicationDataUnit) (w : World S)
    (out : Handled S) : Type 0 where
  silent : result_of out ≡ ok tt → (world_of out).sent ≡ w.sent → Outcome link adu w out
  replied :
      (pdu : ApplicationDataUnit)
      → IsReply adu pdu
      → link.broadcast ≡ false
      → result_of out ≡ link.respond w.sent (link.encode pdu)
      → (world_of out).sent ≡ w.sent ++ (link.encode pdu ∷ [])
      → Outcome link adu w out

pub same_kind :
    (adu : ApplicationDataUnit) (payload : Bytes) → IsReply adu (response_adu adu payload)
same_kind adu payload = record { transaction = refl; unit = refl; kind = inl refl }

self_kind : (adu : ApplicationDataUnit) → IsReply adu adu
self_kind adu = record { transaction = refl; unit = refl; kind = inl refl }

module _ {S : Type 0} (link : Link) where
  write-Outcome :
      (b : Bool) (adu pdu : ApplicationDataUnit) (w : World S)
      → link.broadcast ≡ b
      → IsReply adu pdu
      → Outcome link adu w (write_reply b link (link.encode pdu) w)
  unfolding write_reply
  write-Outcome true adu pdu w e h = silent refl refl
  write-Outcome false adu pdu w e h = replied pdu h e refl refl

  pub reply-Outcome :
      (adu pdu : ApplicationDataUnit) (w : World S)
      → IsReply adu pdu
      → Outcome link adu w (reply link pdu w)
  unfolding reply
  reply-Outcome adu pdu w h = write-Outcome link.broadcast adu pdu w refl h

  pub error-Outcome :
      (adu : ApplicationDataUnit) (e : ModbusError) (w : World S)
      → Outcome link adu w (response_error link adu e w)
  unfolding response_error
  error-Outcome adu e w = reply-Outcome adu (error_adu adu e) w (record {
    transaction = refl;
    unit = refl;
    kind = inr (
      as_u8 (get_code_by_error e),
      refl,
      refl,
      (as_u8-get_code_by_error e).0,
      (as_u8-get_code_by_error e).1,
    );
  })

  finish-Outcome :
      {A : Type 0} (adu : ApplicationDataUnit) (build : A → ApplicationDataUnit)
      (r : Result ModbusError A) (w : World S)
      → ((a : A) → IsReply adu (build a))
      → Outcome link adu w (finish link adu build r w)
  unfolding finish
  finish-Outcome adu build (ok a) w h = reply-Outcome adu (build a) w (h a)
  finish-Outcome adu build (err e) w h = error-Outcome adu e w

  -- A change of the models' state is no reply.
  Outcome-state :
      (adu : ApplicationDataUnit) (w : World S) (s : S) (out : Handled S)
      → Outcome link adu (record w { state = s }) out
      → Outcome link adu w out
  Outcome-state adu w s out (silent a b) = silent a b
  Outcome-state adu w s out (replied pdu h a b c) = replied pdu h a b c

  answer-Outcome :
      {A : Type 0} (adu : ApplicationDataUnit) (method : Method S A)
      (build : A → ApplicationDataUnit) (w : World S)
      → ((a : A) → IsReply adu (build a))
      → Outcome link adu w (answer link adu method build w)
  unfolding answer
  answer-Outcome adu method build w h =
      Outcome-state adu w (method w.state).1 _
        (finish-Outcome adu build (method w.state).0 (record w { state = (method w.state).1 }) h)

  done-Outcome : (adu : ApplicationDataUnit) (w : World S) → Outcome link adu w (handled (ok tt) w)
  done-Outcome adu w = silent refl refl

  branch :
      (adu : ApplicationDataUnit) (w : World S) (b : Bool) {x y : Handled S}
      → Outcome link adu w x
      → Outcome link adu w y
      → Outcome link adu w (if b then x else y)
  branch adu w true p q = p
  branch adu w false p q = q

ruleset outcomes = (branch, done-Outcome, error-Outcome, answer-Outcome, same_kind, self_kind)

module _ {S : Type 0} (link : Link) (model : ModbusSlaveModel S) (adu : ApplicationDataUnit)
    (w : World S) where
  pub fc1-Outcome : Outcome link adu w (handle_fc1 link model adu w)
  unfolding handle_fc1
  fc1-Outcome = search outcomes

  pub fc2-Outcome : Outcome link adu w (handle_fc2 link model adu w)
  unfolding handle_fc2
  fc2-Outcome = search outcomes

  pub fc3-Outcome : Outcome link adu w (handle_fc3 link model adu w)
  unfolding handle_fc3
  fc3-Outcome = search outcomes

  pub fc4-Outcome : Outcome link adu w (handle_fc4 link model adu w)
  unfolding handle_fc4
  fc4-Outcome = search outcomes

  pub fc5-Outcome : Outcome link adu w (handle_fc5 link model adu w)
  unfolding handle_fc5
  fc5-Outcome = search outcomes

  pub fc6-Outcome : Outcome link adu w (handle_fc6 link model adu w)
  unfolding handle_fc6
  fc6-Outcome = search outcomes

  pub fc15-Outcome : Outcome link adu w (handle_fc15 link model adu w)
  unfolding handle_fc15
  fc15-Outcome = search outcomes

  pub fc16-Outcome : Outcome link adu w (handle_fc16 link model adu w)
  unfolding handle_fc16
  fc16-Outcome = search outcomes

  pub fc22-Outcome : Outcome link adu w (handle_fc22 link model adu w)
  unfolding handle_fc22
  fc22-Outcome = search outcomes

  payload-Outcome :
      (r : Result ErrorCode Bytes) (w' : World S)
      → Outcome link adu w' (answer_payload link model adu r w')
  unfolding answer_payload
  payload-Outcome (ok payload) w' =
      reply-Outcome link adu (response_adu adu payload) w' (same_kind adu payload)
  payload-Outcome (err code) w' = error-Outcome link adu (get_error_by_code code) w'

  report-Outcome :
      (r : Result ModbusError ServerId) (w' : World S)
      → Outcome link adu w' (report link model adu r w')
  unfolding report
  report-Outcome (ok id) w' = payload-Outcome _ w'
  report-Outcome (err e) w' = error-Outcome link adu e w'

  pub fc17-Outcome : Outcome link adu w (handle_fc17 link model adu w)
  unfolding handle_fc17
  fc17-Outcome = branch link adu w _ (done-Outcome link adu w) (
      Outcome-state link adu w (model.report_server_id w.state).1 _ (
        report-Outcome (model.report_server_id w.state).0
          (record w { state = (model.report_server_id w.state).1 })))

  identified-Outcome :
      (code object_id : ℕ) (r : Result ModbusError Objects) (w' : World S)
      → Outcome link adu w' (identified link model adu code object_id r w')
  unfolding identified
  identified-Outcome code object_id (ok identification) w' = payload-Outcome _ w'
  identified-Outcome code object_id (err e) w' = error-Outcome link adu e w'

  identification-Outcome :
      (code : ℕ) (r : Result ErrorCode ℕ)
      → Outcome link adu w (read_identification link model adu code r w)
  unfolding read_identification
  identification-Outcome code (ok object_id) =
      Outcome-state link adu w (model.read_device_identification w.state).1 _ (
        identified-Outcome code object_id (model.read_device_identification w.state).0
          (record w { state = (model.read_device_identification w.state).1 }))
  identification-Outcome code (err e) = error-Outcome link adu (get_error_by_code e) w

  pub fc43-Outcome : Outcome link adu w (handle_fc43_14 link model adu w)
  unfolding handle_fc43_14
  fc43-Outcome =
      branch link adu w _ (error-Outcome link adu (get_error_by_code ErrorCode.illegal_function) w)
        (identification-Outcome _ _)

  written-Outcome :
      (address n : ℕ) (r : Result ModbusError (Unit {0})) (s : S)
      → Outcome link adu w (read_after_write link model adu address n r (record w { state = s }))
  unfolding read_after_write
  written-Outcome address n (ok done) s = Outcome-state link adu w s _ (
      answer-Outcome link adu (model.read_holding_registers address n) _ (record w { state = s })
        (λ registers. same_kind adu _))
  written-Outcome address n (err e) s =
      Outcome-state link adu w s _ (error-Outcome link adu e (record w { state = s }))

  pub fc23-Outcome : Outcome link adu w (handle_fc23 link model adu w)
  unfolding handle_fc23
  fc23-Outcome = search (outcomes, written-Outcome)
