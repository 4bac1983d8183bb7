-- ===== src/Slave/Dispatch/Replies.antt =====
-- src/slave.rs: what the server may write to the peer in answer to one request.
pub mod Handlers
use Handlers.{
  IsReply, Outcome, silent, replied, reply-Outcome, error-Outcome, same_kind, fc1-Outcome,
}
use Handlers.{fc2-Outcome, fc3-Outcome, fc4-Outcome, fc5-Outcome, fc6-Outcome, fc15-Outcome}
use Handlers.{fc16-Outcome, fc17-Outcome, fc22-Outcome, fc23-Outcome, fc43-Outcome}
use rs_modbus.Prelude.{
  ℕ, ◌+◌, ◌≤◌, ◌≡◌, ◌≢◌, refl, ap, ◌∙◌, sym, arith, Option, none, some, Bool, true, false,
}
use rs_modbus.Prelude.{
  List, [], ◌∷◌, ◌++◌, append-nil, append_assoc, Bytes, Result, ok, err, All, length,
}
use rs_modbus.Prelude.{if◌then◌else◌, ◌==◌, Bool-cases, inl, inr, length-append}
use rs_modbus.Prelude.HashMap.{HashMap, lookup, nat_eq}
use rs_modbus.Errors.{ErrorCode, ModbusError, get_error_by_code}
use rs_modbus.Types.{ApplicationDataUnit, FramedDataUnit}
use rs_modbus.Slave.Model.{ModbusSlaveModel, Method}
use rs_modbus.Slave.Reply.{
  World, Link, Handled, handled, result_of, world_of, reply, response_error, response_adu,
}
use rs_modbus.Slave.Dispatch.{
  CustomFunctionCode, handler_of, settle, handle_custom, custom_reply, dispatch,
}
use rs_modbus.Slave.Dispatch.{
  intercepted, process_model, process_models, process_frame, models_snapshot, to_list, values,
}

-- Every write to the peer succeeds.
pub Reliable : Link → Type 0
Reliable link = (sent : List Bytes) (bytes : Bytes) → link.respond sent bytes ≡ ok tt

-- Frames that answer the request.
pub data Answers (link : Link) (adu : ApplicationDataUnit) : List Bytes → Type 0 where
  quiet : Answers link adu []
  also :
      {rest : List Bytes} (pdu : ApplicationDataUnit)
      → IsReply adu pdu
      → Answers link adu rest
      → Answers link adu (link.encode pdu ∷ rest)

Answers-append :
    {link : Link} {adu : ApplicationDataUnit} {xs ys : List Bytes}
    → Answers link adu xs
    → Answers link adu ys
    → Answers link adu (xs ++ ys)
Answers-append quiet q = q
Answers-append (also pdu h p) q = also pdu h (Answers-append p q)

-- The frames that are written between two states: replies to the request, and none of them where
-- it was a broadcast.
pub record Served {S : Type 0} (link : Link) (adu : ApplicationDataUnit) (w w' : World S)
    : Type 0 where
  pub extra : List Bytes
  pub appended : w'.sent ≡ w.sent ++ extra
  pub answers : Answers link adu extra
  pub unanswered : link.broadcast ≡ true → extra ≡ []
  pub once : Reliable link → length extra ≤ 1

module _ {S : Type 0} (link : Link) (adu : ApplicationDataUnit) where
  Served-same : (w w' : World S) → w'.sent ≡ w.sent → Served link adu w w'
  Served-same w w' e = record {
    extra = [];
    appended = e ∙ sym (append-nil w.sent);
    answers = quiet;
    unanswered = λ _. refl;
    once = λ _. omega arith;
  }

  -- The result of the write is dropped.
  Served-world :
      (w : World S) (out : Handled S) → Outcome link adu w out → Served link adu w (world_of out)
  Served-world w out (silent a b) = Served-same w (world_of out) b
  Served-world w out (replied pdu h e a b) = record {
    extra = link.encode pdu ∷ [];
    appended = b;
    answers = also pdu h quiet;
    unanswered = λ t. ground (arith, e, t);
    once = λ _. omega arith;
  }

  -- A failed write is followed by the attempt to write an exception.
  Served-error :
      (e : ModbusError) (w w' : World S) (pdu : ApplicationDataUnit) (out : Handled S)
      → IsReply adu pdu
      → link.broadcast ≡ false
      → err e ≡ link.respond w.sent (link.encode pdu)
      → w'.sent ≡ w.sent ++ (link.encode pdu ∷ [])
      → Outcome link adu w' out
      → Served link adu w (world_of out)
  unfolding Reliable
  Served-error e w w' pdu out h b failed sent (silent a same) = record {
    extra = link.encode pdu ∷ [];
    appended = same ∙ sent;
    answers = also pdu h quiet;
    unanswered = λ t. ground (arith, b, t);
    once = λ _. omega arith;
  }
  Served-error e w w' pdu out h b failed sent (replied pdu' h' b' r' sent') = record {
    extra = link.encode pdu ∷ link.encode pdu' ∷ [];
    appended =
        sent'
        ∙ ap (λ xs. xs ++ (link.encode pdu' ∷ [])) sent
        ∙ append_assoc w.sent (link.encode pdu ∷ []) (link.encode pdu' ∷ []);
    answers = also pdu h (also pdu' h' quiet);
    unanswered = λ t. ground (arith, b, t);
    once = λ reliable. ground (arith, failed, reliable w.sent (link.encode pdu));
  }

  Served-settle :
      (w : World S) (out : Handled S)
      → Outcome link adu w out
      → Served link adu w (settle link adu out)
  unfolding settle
  Served-settle w (handled (ok done) w') h = Served-world w (handled (ok done) w') h
  Served-settle w (handled (err e) w') (silent a b) = ground (arith, a)
  Served-settle w (handled (err e) w') (replied pdu h b r sent) =
      Served-error e w w' pdu _ h b r sent (error-Outcome link adu e w')

  -- A change of the models' state writes nothing.
  Served-state :
      (w : World S) (s : S) (w' : World S)
      → Served link adu (record w { state = s }) w'
      → Served link adu w w'
  Served-state w s w' h = record {
    extra = h.extra;
    appended = h.appended;
    answers = h.answers;
    unanswered = h.unanswered;
    once = h.once;
  }

  Served-branch :
      (b : Bool) (w : World S) {x y : World S}
      → Served link adu w x
      → Served link adu w y
      → Served link adu w (if b then x else y)
  Served-branch true w p q = p
  Served-branch false w p q = q

  custom-Served :
      (r : Result ModbusError Bytes) (w : World S) → Served link adu w (custom_reply link adu r w)
  unfolding custom_reply
  custom-Served (ok payload) w =
      Served-world w _ (reply-Outcome link adu (response_adu adu payload) w (same_kind adu payload))
  custom-Served (err e) w = Served-world w _ (error-Outcome link adu e w)

  handle_custom-Served :
      (handler : Option (Bytes → ℕ → Method S Bytes)) (w : World S)
      → Served link adu w (handle_custom link adu handler w)
  unfolding handle_custom
  handle_custom-Served none w = Served-settle w _ (error-Outcome link adu _ w)
  handle_custom-Served (some handler) w =
      Served-state w (handler adu.payload adu.unit w.state).1 _
        (custom-Served (handler adu.payload adu.unit w.state).0 _)

  module _ (custom_fcs : HashMap ℕ (CustomFunctionCode S)) (model : ModbusSlaveModel S) where
    dispatch-Served : (w : World S) → Served link adu w (dispatch link custom_fcs model adu w)
    unfolding dispatch
    dispatch-Served w =
        search
          (
            Served-branch, Served-settle, handle_custom-Served, fc1-Outcome, fc2-Outcome,
            fc3-Outcome, fc4-Outcome, fc5-Outcome, fc6-Outcome, fc15-Outcome, fc16-Outcome,
            fc17-Outcome, fc22-Outcome, fc23-Outcome, fc43-Outcome,
          )
          depth 24

    intercepted-Served :
        (r : Result ModbusError (Option Bytes)) (w : World S)
        → Served link adu w (intercepted link custom_fcs model adu r w)
    unfolding intercepted
    intercepted-Served (ok (some payload)) w =
        Served-world w _
          (reply-Outcome link adu (response_adu adu payload) w (same_kind adu payload))
    intercepted-Served (ok none) w = dispatch-Served w
    intercepted-Served (err e) w = Served-world w _ (error-Outcome link adu e w)

    process_model-Served :
        (w : World S) → Served link adu w (process_model link custom_fcs model adu w)
    unfolding process_model
    process_model-Served w =
        Served-state w (model.intercept adu.fc adu.payload w.state).1 _
          (intercepted-Served (model.intercept adu.fc adu.payload w.state).0 _)

  module _ (custom_fcs : HashMap ℕ (CustomFunctionCode S)) where
    broadcast_silent :
        (models : List (ModbusSlaveModel S)) (w : World S)
        → link.broadcast ≡ true
        → (process_models link custom_fcs models adu w).sent ≡ w.sent
    unfolding process_models
    broadcast_silent [] w b = refl
    broadcast_silent (model ∷ models) w b =
        let one = process_model-Served custom_fcs model w in
        broadcast_silent models (process_model link custom_fcs model adu w) b
        ∙ one.appended
        ∙ ap (λ xs. w.sent ++ xs) (one.unanswered b)
        ∙ append-nil w.sent

    unicast-Served :
        (model : Option (ModbusSlaveModel S)) (w : World S)
        → Served link adu w (process_models link custom_fcs (to_list model) adu w)
    unfolding process_models
    unicast-Served none w = Served-same w w refl
    unicast-Served (some model) w = process_model-Served custom_fcs model w

    snapshot-Served :
        (b : Bool) (models : List (ModbusSlaveModel S)) (model : Option (ModbusSlaveModel S))
        (w : World S)
        → link.broadcast ≡ b
        → Served link adu w
            (process_models link custom_fcs (if b then models else to_list model) adu w)
    snapshot-Served true models model w e = Served-same w _ (broadcast_silent models w e)
    snapshot-Served false models model w e = unicast-Served model w

-- What `process_frame` writes to the peer is a list of frames that encode replies to the request:
-- its transaction and unit, and its function code or an exception with a code from 1 to 11. It is
-- empty for the broadcast unit 0, and has at most one frame where no write fails. This holds for
-- all models and custom handlers, whatever they do.
pub process_frame-Served :
    {S : Type 0} (encode : ApplicationDataUnit → Bytes)
    (respond : List Bytes → Bytes → Result ModbusError (Unit {0}))
    (models : HashMap ℕ (ModbusSlaveModel S)) (custom_fcs : HashMap ℕ (CustomFunctionCode S))
    (frame : FramedDataUnit) (w : World S)
    → Served
        (record { encode = encode; respond = respond; broadcast = frame.adu.unit == 0 })
        frame.adu
        w
        (process_frame encode respond models custom_fcs frame w)
unfolding process_frame models_snapshot
process_frame-Served encode respond models custom_fcs frame w =
    snapshot-Served (record { encode = encode; respond = respond; broadcast = frame.adu.unit == 0 })
      frame.adu custom_fcs (frame.adu.unit == 0) (values models) (lookup frame.adu.unit models) w
      refl
