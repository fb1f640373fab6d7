-- ===== src/Interface/Dispatch.antt =====
-- The handlers that reach the service models, and which handler a received PDU goes to.
use Prim.Native.String.{String}
use d_app_libe.Base.{ℕ, if◌then◌else◌, Option, none, some, List, [], ◌∷◌}
use d_app_libe.Types.{
  ErrorCode, ResponseCode, PduType, PduChoice, Pdu, RanFunctionDef, DAppControlAction,
}
use d_app_libe.Subscription.Register.{register_dapp}
use d_app_libe.Response.Defs.{ResponseQueue}
use d_app_libe.Registry.Defs.{
  ServiceModel, SmRegistry, get_by_ran_function, get_available_ran_functions, put_sm, is_success,
}
use d_app_libe.Interface.Defs.{
  Session, Draw, new_pdu, notify_dapp_status_changed, handle_subscription_request,
  handle_subscription_delete, handle_dapp_report, handle_release_message,
}

unfoldable pub setup_response_of :
    String → String → ℕ → ResponseCode → ℕ → List RanFunctionDef → Draw → Pdu
unfolding new_pdu
setup_response_of e3ap_version ran_identifier request_message_id code dapp_id fs draw =
    new_pdu PduType.setup_response
      (PduChoice.setup_response (record {
        request_id = request_message_id;
        response_code = code;
        e3ap_protocol_version = some e3ap_version;
        dapp_identifier = some dapp_id;
        ran_identifier = ran_identifier;
        ran_function_list = fs;
      }))
      draw

-- One entry of the response's list; a RAN function whose model cannot be made has empty lists.
unfoldable pub ran_function_of {ℓ} :
    {Model : Type ℓ} → ServiceModel Model → ℕ → Option Model → RanFunctionDef
ran_function_of sm id none = record {
  ran_function_identifier = id;
  telemetry_identifier_list = [];
  control_identifier_list = [];
  ran_function_data = [];
}
ran_function_of sm id (some model) = record {
  ran_function_identifier = id;
  telemetry_identifier_list = sm.telemetry_ids model;
  control_identifier_list = sm.control_ids model;
  ran_function_data = sm.ran_function_data model;
}

-- `create` is a call of a factory. `control` is a call of a model's handle_control_action, which
-- reaches the queue through the emitter that it was given.
module _ {ℓ} {Model Factory : Type ℓ} (sm : ServiceModel Model)
    (create : Factory → Option Model × Factory)
    (control : ℕ
      → DAppControlAction
      → Model
      → ResponseQueue
      → ErrorCode × Model × ResponseQueue) where
  unfoldable pub handle_control_action :
      DAppControlAction → ℕ → Session Model Factory → Session Model Factory
  handle_control_action action request_message_id s =
      let id = action.ran_function_identifier in
      let (r, found) = get_by_ran_function sm create id s.registry in
      elim found [
        | none ↦ record s { registry = r }
        | some model ↦
            if sm.is_running model
            then (let (code, model', queue) =
                  control request_message_id action model s.response_queue in
                record s { registry = put_sm id model' r; response_queue = queue })
            else record s { registry = r }
      ]

  unfoldable pub ran_functions_of :
      List ℕ → SmRegistry Model Factory → SmRegistry Model Factory × List RanFunctionDef
  unfolding ran_function_of
  ran_functions_of [] r = (r, [])
  ran_functions_of (id ∷ ids) r =
      let (r', found) = get_by_ran_function sm create id r in
      let (r'', fs) = ran_functions_of ids r' in (r'', ran_function_of sm id found ∷ fs)

  -- The configuration's e3ap_version and ran_identifier, and the encoder's `encode`. Beside the
  -- session, the bytes for `send_response`, if the encoder gave any.
  module _ (e3ap_version ran_identifier : String) (encode : Pdu → Option (List ℕ)) where
    unfoldable pub handle_setup_request :
        ℕ → Draw → Session Model Factory → Session Model Factory × Option (List ℕ)
    unfolding ran_functions_of setup_response_of notify_dapp_status_changed
    handle_setup_request request_message_id draw s =
        let (m, code, dapp_id) = register_dapp draw.clock s.subscription_manager in
        let registered = record s { subscription_manager = m } in
        let good = is_success code in
        let s' = if good then notify_dapp_status_changed registered else registered in
        let (r, fs) = ran_functions_of (get_available_ran_functions s.registry) s.registry in
        let answer = if good then ResponseCode.positive else ResponseCode.negative in
        (
          record s' { registry = r },
          encode (
              setup_response_of e3ap_version ran_identifier request_message_id answer dapp_id fs
                draw),
        )

  -- The switch of subscriber_loop: a PDU whose type and contents do not go together, or of another
  -- type, is dropped.
  unfoldable pub dispatch_on :
      PduType → PduChoice → ℕ → Draw → Session Model Factory → Option (Session Model Factory)
  unfolding handle_control_action
  dispatch_on PduType.subscription_request (PduChoice.subscription_request request) id draw s =
      handle_subscription_request sm request id draw s
  dispatch_on PduType.subscription_delete (PduChoice.subscription_delete del) id draw s =
      handle_subscription_delete sm del id draw s
  dispatch_on PduType.dapp_control_action (PduChoice.dapp_control_action action) id draw s =
      some (handle_control_action action id s)
  dispatch_on PduType.dapp_report (PduChoice.dapp_report report) id draw s =
      some (handle_dapp_report report s)
  dispatch_on PduType.release_message (PduChoice.release_message release) id draw s =
      some (handle_release_message sm release s)
  dispatch_on t c id draw s = some s

  unfoldable pub dispatch : Pdu → Draw → Session Model Factory → Option (Session Model Factory)
  unfolding dispatch_on
  dispatch pdu draw s = dispatch_on pdu.type pdu.choice pdu.message_id draw s
