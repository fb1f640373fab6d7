-- ===== src/Interface/Received.antt =====
-- What the subscriber loop receives.
use d_app_libe.Base.{
  ℕ, suc, true, false, ◌≡◌, refl, sym, ◌∙◌, some, List, find, inl, inr, arith, Option-cases,
  Bool-cases, Option,
}
use d_app_libe.Types.{ErrorCode, PduType, PduChoice, Pdu, DAppControlAction}
use d_app_libe.Subscription.State.{SubscriptionManager}
use d_app_libe.Response.Defs.{ResponseQueue}
use d_app_libe.Response.Contents.{Holds}
use d_app_libe.Registry.Defs.{ServiceModel, RunningLaws, SmRegistry, put_sm, get_by_ran_function}
use d_app_libe.Registry.Fetch.{find-get_by_ran_function, get_by_ran_function-found}
use d_app_libe.Registry.Running.{is_sm_running_found, is_sm_running-put_sm, has_sm-put_sm, only_at}
use d_app_libe.Interface.Defs.{
  Session, Draw, handle_dapp_report, subscribe, unsubscribe, handle_subscription_request,
  handle_subscription_delete, handle_release_message, subscription_response_of, message_ack_of,
}
use d_app_libe.Interface.Dispatch.{handle_control_action, dispatch_on, dispatch}
use d_app_libe.Interface.Wiring.{Wired}
use d_app_libe.Interface.Handlers.{
  queue_outbound-Holds, subscribe-response_queue, unsubscribe-response_queue, InStep, same_model,
  subscribe-InStep, unsubscribe-InStep, report-InStep, disconnection-InStep,
}

module _ {ℓ} {Model Factory : Type ℓ} where
  module _ (sm : ServiceModel Model) (laws : RunningLaws sm)
      (starts : (s : Model) → (sm.start s).0 ≡ ErrorCode.success) (q : ℕ) where
    module _ (create : Factory → Option Model × Factory)
        (control : ℕ
          → DAppControlAction
          → Model
          → ResponseQueue
          → ErrorCode × Model × ResponseQueue)
        (control_keeps : (n : ℕ) (a : DAppControlAction) (model : Model) (queue : ResponseQueue)
          → sm.is_running (control n a model queue).1 ≡ sm.is_running model) where
      pub get-InStep :
          (id : ℕ) (m : SubscriptionManager) (r : SmRegistry Model Factory)
          → Wired sm laws starts q m r
          → Wired sm laws starts q m (get_by_ran_function sm create id r).0
      get-InStep id m r w = elim (Option-cases (find q r.sms)) [
        | inl missing ↦
            let present = w.present in
            let clash : false ≡ true = rw missing at present in absurd (ground arith)
        | inr (model, there) ↦
            same_model sm laws starts q m model r _ there
              (find-get_by_ran_function sm create q id model r there) w
      ]

      put-InStep :
          (id : ℕ) (model model' : Model) (m : SubscriptionManager) (r : SmRegistry Model Factory)
          → find id r.sms ≡ some model
          → sm.is_running model' ≡ sm.is_running model
          → Wired sm laws starts q m r
          → Wired sm laws starts q m (put_sm id model' r)
      put-InStep id model model' m r there same w = record {
        consistent = w.consistent;
        has_callback = w.has_callback;
        present = has_sm-put_sm sm q id model model' r there ∙ w.present;
        tracks =
            is_sm_running-put_sm sm q id model' r
            ∙ sym (
                only_at sm q id (sm.is_running model') r
                  (is_sm_running_found sm id model r there ∙ sym same))
            ∙ w.tracks;
      }

      control-InStep :
          (action : DAppControlAction) (n : ℕ) (s : Session Model Factory)
          → InStep sm laws starts q s
          → InStep sm laws starts q (handle_control_action sm create control action n s)
      unfolding handle_control_action
      control-InStep action n s w =
          let id = action.ran_function_identifier in
          let r = (get_by_ran_function sm create id s.registry).0 in
          let kept = get-InStep id s.subscription_manager s.registry w in
          elim (Option-cases (get_by_ran_function sm create id s.registry).1) [
            | inl none_found ↦ rw (handle_control_action, none_found) kept
            | inr (model, found) ↦ elim (Bool-cases (sm.is_running model)) [
              | inl running ↦
                  rw (handle_control_action, found, running)
                    (put-InStep id model (control n action model s.response_queue).1
                      s.subscription_manager r
                      (get_by_ran_function-found sm create id model s.registry found)
                      (control_keeps n action model s.response_queue) kept)
              | inr idle ↦ rw (handle_control_action, found, idle) kept
            ]
          ]

      dispatch_on-InStep :
          (t : PduType) (c : PduChoice) (id : ℕ) (draw : Draw) (s : Session Model Factory)
          (xs : List Pdu) (room : ℕ)
          → Holds s.response_queue xs (suc room)
          → InStep sm laws starts q s
          → (s' : Session Model Factory) × (dispatch_on sm create control t c id draw s ≡ some s')
            × InStep sm laws starts q s'
      unfolding dispatch_on handle_subscription_request handle_subscription_delete
          handle_release_message handle_dapp_report
      dispatch_on-InStep PduType.subscription_request (PduChoice.subscription_request request) id
            draw s xs room h w =
          let s1 = (subscribe sm request s).0 in
          let reply = subscription_response_of request id (subscribe sm request s).1 draw in
          let (queue, e, held) =
            queue_outbound-Holds reply s1 xs room (rw (subscribe-response_queue sm request s) h) in
          (record s1 { response_queue = queue }, e, subscribe-InStep sm laws starts q request s w)
      dispatch_on-InStep PduType.subscription_delete (PduChoice.subscription_delete del) id draw s
            xs room h w =
          let s1 = (unsubscribe sm del s).0 in
          let reply = message_ack_of id (unsubscribe sm del s).1 draw in
          let (queue, e, held) =
            queue_outbound-Holds reply s1 xs room (rw (unsubscribe-response_queue sm del s) h) in
          (record s1 { response_queue = queue }, e, unsubscribe-InStep sm laws starts q del s w)
      dispatch_on-InStep PduType.dapp_control_action (PduChoice.dapp_control_action action) id draw
            s xs room h w =
          (handle_control_action sm create control action id s, refl, control-InStep action id s w)
      dispatch_on-InStep PduType.dapp_report (PduChoice.dapp_report report) id draw s xs room h w =
          (handle_dapp_report report s, refl, report-InStep sm laws starts q report s w)
      dispatch_on-InStep PduType.release_message (PduChoice.release_message release) id draw s xs
            room h w =
          (
            handle_release_message sm release s,
            refl,
            disconnection-InStep sm laws starts q release.dapp_identifier s w,
          )
      dispatch_on-InStep t c id draw s xs room h w = (s, refl, w)

      -- Every PDU that the subscriber loop takes from a dApp is handled: the call returns, if the
      -- queue's positions are below 2^63, and a RAN function's model that ran exactly while the RAN
      -- function had subscribers does so afterwards. The models always start, stop when told to,
      -- and neither start nor stop by a control action.
      pub dispatch-InStep :
          (pdu : Pdu) (draw : Draw) (s : Session Model Factory) (xs : List Pdu) (room : ℕ)
          → Holds s.response_queue xs (suc room)
          → InStep sm laws starts q s
          → (s' : Session Model Factory) × (dispatch sm create control pdu draw s ≡ some s')
            × InStep sm laws starts q s'
      unfolding dispatch
      dispatch-InStep pdu draw s xs room h w =
          dispatch_on-InStep pdu.type pdu.choice pdu.message_id draw s xs room h w
