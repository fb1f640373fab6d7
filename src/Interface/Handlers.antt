-- ===== src/Interface/Handlers.antt =====
-- Every handler returns, and keeps the models in step with the subscriptions.
use d_app_libe.Base.{ℕ, suc, ◌≡◌, refl, sym, ◌∙◌, some, List, find, inl, inr, Bool-cases}
use d_app_libe.Types.{ErrorCode, Pdu, SubscriptionRequest, SubscriptionDelete, DAppReport}
use d_app_libe.Subscription.State.{SubscriptionManager, is_dapp_registered}
use d_app_libe.Subscription.Commands.{unregisters, subscribes, deletes, step}
use d_app_libe.Response.Defs.{ResponseQueue}
use d_app_libe.Response.Contents.{Holds, push-Holds, push_contents}
use d_app_libe.Registry.Defs.{ServiceModel, RunningLaws, SmRegistry}
use d_app_libe.Registry.Running.{is_sm_running_found}
use d_app_libe.Interface.Defs.{
  Session, notify_dapp_status_changed, queue_outbound, handle_dapp_report, managed, subscribe,
  unsubscribe, handle_dapp_disconnection, after_add, after_remove, after_unregister,
}
use d_app_libe.Interface.Wiring.{Wired, step-Wired}

module _ {ℓ} {Model Factory : Type ℓ} where
  -- What `queue_outbound` leaves: the queue as after the push, and nothing else changed.
  pub queue_outbound-Holds :
      (pdu : Pdu) (s : Session Model Factory) (xs : List Pdu) (room : ℕ)
      → Holds s.response_queue xs (suc room)
      → (q : ResponseQueue) × (queue_outbound pdu s ≡ some (record s { response_queue = q }))
        × Holds q (push_contents pdu s.response_queue xs) room
  unfolding queue_outbound
  queue_outbound-Holds pdu s xs room h =
      let (q, e, held, closed, capacity) = push-Holds pdu s.response_queue xs room h in
      (q, rw (queue_outbound, e), held)

  -- The handlers reach the queue only by the response.
  pub notify-response_queue :
      (s : Session Model Factory) → (notify_dapp_status_changed s).response_queue ≡ s.response_queue
  unfolding notify_dapp_status_changed
  notify-response_queue s = elim (Bool-cases s.has_status_handler) [
    | inl set ↦ rw (notify_dapp_status_changed, set)
    | inr unset ↦ rw (notify_dapp_status_changed, unset)
  ]

  after_add-response_queue :
      (code : ErrorCode) (id : ℕ) (s : Session Model Factory)
      → (after_add code id s).0.response_queue ≡ s.response_queue
  unfolding after_add
  after_add-response_queue ErrorCode.success id s = notify-response_queue s
  after_add-response_queue ErrorCode.subscription_exists id s = refl
  after_add-response_queue code id s = refl

  after_remove-response_queue :
      (code : ErrorCode) (s : Session Model Factory)
      → (after_remove code s).0.response_queue ≡ s.response_queue
  unfolding after_remove
  after_remove-response_queue ErrorCode.success s = notify-response_queue s
  after_remove-response_queue code s = refl

  pub subscribe-response_queue :
      (sm : ServiceModel Model) (request : SubscriptionRequest) (s : Session Model Factory)
      → (subscribe sm request s).0.response_queue ≡ s.response_queue
  unfolding subscribe managed
  subscribe-response_queue sm request s =
      elim (Bool-cases (is_dapp_registered request.dapp_identifier s.subscription_manager)) [
        | inl known ↦ rw (subscribe, known) (after_add-response_queue _ _ _)
        | inr unknown ↦ rw (subscribe, unknown)
      ]

  pub unsubscribe-response_queue :
      (sm : ServiceModel Model) (del : SubscriptionDelete) (s : Session Model Factory)
      → (unsubscribe sm del s).0.response_queue ≡ s.response_queue
  unfolding unsubscribe managed
  unsubscribe-response_queue sm del s = after_remove-response_queue _ _

  module _ (sm : ServiceModel Model) (laws : RunningLaws sm)
      (starts : (s : Model) → (sm.start s).0 ≡ ErrorCode.success) (q : ℕ) where
    abbrev pub InStep : Session Model Factory → Type ℓ
    InStep s = Wired sm laws starts q s.subscription_manager s.registry

    notify-InStep : (s : Session Model Factory) → InStep s → InStep (notify_dapp_status_changed s)
    unfolding notify_dapp_status_changed
    notify-InStep s w = elim (Bool-cases s.has_status_handler) [
      | inl set ↦ rw (notify_dapp_status_changed, set) w
      | inr unset ↦ rw (notify_dapp_status_changed, unset) w
    ]

    after_add-InStep :
        (code : ErrorCode) (id : ℕ) (s : Session Model Factory)
        → InStep s
        → InStep (after_add code id s).0
    unfolding after_add
    after_add-InStep ErrorCode.success id s w = notify-InStep s w
    after_add-InStep ErrorCode.subscription_exists id s w = w
    after_add-InStep code id s w = w

    after_remove-InStep :
        (code : ErrorCode) (s : Session Model Factory) → InStep s → InStep (after_remove code s).0
    unfolding after_remove
    after_remove-InStep ErrorCode.success s w = notify-InStep s w
    after_remove-InStep code s w = w

    after_unregister-InStep :
        (code : ErrorCode) (s : Session Model Factory) → InStep s → InStep (after_unregister code s)
    unfolding after_unregister
    after_unregister-InStep ErrorCode.success s w = notify-InStep s w
    after_unregister-InStep code s w = w

    pub subscribe-InStep :
        (request : SubscriptionRequest) (s : Session Model Factory)
        → InStep s
        → InStep (subscribe sm request s).0
    unfolding subscribe managed step
    subscribe-InStep request s w =
        let d = request.dapp_identifier in
        let r = request.ran_function_identifier in
        elim (Bool-cases (is_dapp_registered d s.subscription_manager)) [
          | inl known ↦
              rw (subscribe, known)
                (after_add-InStep _ _ _ (
                  step-Wired sm laws starts q (subscribes d r) s.subscription_manager s.registry
                    (λ e. cc) w))
          | inr unknown ↦ rw (subscribe, unknown) w
        ]

    pub unsubscribe-InStep :
        (del : SubscriptionDelete) (s : Session Model Factory)
        → InStep s
        → InStep (unsubscribe sm del s).0
    unfolding unsubscribe managed step
    unsubscribe-InStep del s w = after_remove-InStep _ _ (
        step-Wired sm laws starts q (deletes del.dapp_identifier del.subscription_id)
          s.subscription_manager s.registry (λ e. cc) w)

    pub disconnection-InStep :
        (dapp_id : ℕ) (s : Session Model Factory)
        → InStep s
        → InStep (handle_dapp_disconnection sm dapp_id s)
    unfolding handle_dapp_disconnection managed step
    disconnection-InStep dapp_id s w = after_unregister-InStep _ _ (
        step-Wired sm laws starts q (unregisters dapp_id) s.subscription_manager s.registry
          (λ e. cc) w)

    pub report-InStep :
        (report : DAppReport) (s : Session Model Factory)
        → InStep s
        → InStep (handle_dapp_report report s)
    unfolding handle_dapp_report
    report-InStep report s w = elim (Bool-cases s.has_report_handler) [
      | inl set ↦ rw (handle_dapp_report, set) w
      | inr unset ↦ rw (handle_dapp_report, unset) w
    ]

    -- A model that is registered stays where it is, running or not.
    pub same_model :
        (m : SubscriptionManager) (model : Model) (r r' : SmRegistry Model Factory)
        → find q r.sms ≡ some model
        → find q r'.sms ≡ some model
        → Wired sm laws starts q m r
        → Wired sm laws starts q m r'
    same_model m model r r' before after w = record {
      consistent = w.consistent;
      has_callback = w.has_callback;
      present = rw after;
      tracks =
          is_sm_running_found sm q model r' after
          ∙ sym (is_sm_running_found sm q model r before)
          ∙ w.tracks;
    }
