-- ===== src/Interface/Defs.antt =====
-- The handlers, after `init`: the members that they use are there.
use d_app_libe.Base.{ℕ, suc, Bool, if◌then◌else◌, Option, none, some, List, [], ◌∷◌, ◌++◌}
use d_app_libe.Types.{
  ErrorCode, ResponseCode, PduType, PduChoice, Pdu, SubscriptionRequest, SubscriptionDelete,
  DAppReport, ReleaseMessage,
}
use d_app_libe.Types.Messages.{make_pdu}
use d_app_libe.Subscription.State.{SubscriptionManager, LifecycleEvent, is_dapp_registered}
use d_app_libe.Subscription.Subscribe.{add_subscription}
use d_app_libe.Subscription.Unsubscribe.{remove_subscription_by_id, unregister_dapp}
use d_app_libe.Response.Defs.{ResponseQueue, push}
use d_app_libe.Registry.Defs.{ServiceModel, SmRegistry, start_sm, stop_sm}

-- `status_changes` and `reports` are the calls of the two handlers that a user may set.
pub record Session {ℓ} (Model Factory : Type ℓ) : Type ℓ where
  pub subscription_manager : SubscriptionManager
  pub response_queue : ResponseQueue
  pub registry : SmRegistry Model Factory
  pub has_status_handler : Bool
  pub has_report_handler : Bool
  pub status_changes : ℕ
  pub reports : List DAppReport

-- What a handler draws: the random message id and the time of a new PDU.
pub record Draw : Type 0 where
  pub message_id : ℕ
  pub clock : ℕ

unfoldable pub new_pdu : PduType → PduChoice → Draw → Pdu
unfolding make_pdu
new_pdu t c draw = record (make_pdu t c draw.clock) { message_id = draw.message_id }

unfoldable pub subscription_response_of : SubscriptionRequest → ℕ → Option ℕ → Draw → Pdu
unfolding new_pdu
subscription_response_of request request_message_id id draw =
    new_pdu PduType.subscription_response
      (PduChoice.subscription_response (record {
        request_id = request_message_id;
        dapp_identifier = request.dapp_identifier;
        response_code = elim id [ none ↦ ResponseCode.negative | some i ↦ ResponseCode.positive ];
        subscription_id = id;
      }))
      draw

unfoldable pub message_ack_of : ℕ → ResponseCode → Draw → Pdu
unfolding new_pdu
message_ack_of request_message_id code draw =
    new_pdu PduType.message_ack
      (PduChoice.message_ack (record { request_id = request_message_id; response_code = code }))
      draw

module _ {ℓ} {Model Factory : Type ℓ} where
  unfoldable pub notify_dapp_status_changed : Session Model Factory → Session Model Factory
  notify_dapp_status_changed s =
      if s.has_status_handler then record s { status_changes = suc s.status_changes } else s

  -- What the handlers do with the manager's code, the manager and the models being up to date.
  unfoldable pub after_add :
      ErrorCode → ℕ → Session Model Factory → Session Model Factory × Option ℕ
  unfolding notify_dapp_status_changed
  after_add ErrorCode.success id s = (notify_dapp_status_changed s, some id)
  after_add ErrorCode.subscription_exists id s = (s, some id)
  after_add code id s = (s, none)

  unfoldable pub after_remove :
      ErrorCode → Session Model Factory → Session Model Factory × ResponseCode
  unfolding notify_dapp_status_changed
  after_remove ErrorCode.success s = (notify_dapp_status_changed s, ResponseCode.positive)
  after_remove code s = (s, ResponseCode.negative)

  unfoldable pub after_unregister : ErrorCode → Session Model Factory → Session Model Factory
  unfolding notify_dapp_status_changed
  after_unregister ErrorCode.success s = notify_dapp_status_changed s
  after_unregister code s = s

  -- `none` is a call that does not return.
  unfoldable pub queue_outbound : Pdu → Session Model Factory → Option (Session Model Factory)
  queue_outbound pdu s = elim (push pdu s.response_queue) [
    | none ↦ none
    | some (q, code) ↦ some (record s { response_queue = q })
  ]

  unfoldable pub handle_dapp_report : DAppReport → Session Model Factory → Session Model Factory
  handle_dapp_report report s =
      if s.has_report_handler then record s { reports = s.reports ++ (report ∷ []) } else s

  module _ (sm : ServiceModel Model) where
    unfoldable pub on_sm_lifecycle_change :
        LifecycleEvent → SmRegistry Model Factory → SmRegistry Model Factory
    on_sm_lifecycle_change e r =
        if e.should_start
        then (start_sm sm e.ran_function_id r).0
        else (stop_sm sm e.ran_function_id r).0

    -- The callback's calls in order.
    unfoldable pub on_each :
        List LifecycleEvent → SmRegistry Model Factory → SmRegistry Model Factory
    unfolding on_sm_lifecycle_change
    on_each [] r = r
    on_each (e ∷ es) r = on_each es (on_sm_lifecycle_change e r)

    -- The manager's method has returned this manager, and called the callback so.
    unfoldable pub managed :
        SubscriptionManager → List LifecycleEvent → Session Model Factory → Session Model Factory
    unfolding on_each
    managed m es s = record s { subscription_manager = m; registry = on_each es s.registry }

    -- Up to the response: what it says is the id of a subscription that is there, or nothing.
    unfoldable pub subscribe :
        SubscriptionRequest → Session Model Factory → Session Model Factory × Option ℕ
    unfolding managed after_add
    subscribe request s =
        if is_dapp_registered request.dapp_identifier s.subscription_manager
        then (let (m, code, id, es) =
              add_subscription request.dapp_identifier request.ran_function_identifier
                s.subscription_manager in
            after_add code id (managed m es s))
        else (s, none)

    unfoldable pub handle_subscription_request :
        SubscriptionRequest → ℕ → Draw → Session Model Factory → Option (Session Model Factory)
    unfolding subscribe queue_outbound subscription_response_of
    handle_subscription_request request request_message_id draw s =
        let (s', id) = subscribe request s in
        queue_outbound (subscription_response_of request request_message_id id draw) s'

    -- Up to the acknowledgement: whether the subscription was deleted.
    unfoldable pub unsubscribe :
        SubscriptionDelete → Session Model Factory → Session Model Factory × ResponseCode
    unfolding managed after_remove
    unsubscribe del s =
        let (m, code, es) =
          remove_subscription_by_id del.dapp_identifier del.subscription_id
            s.subscription_manager in
        after_remove code (managed m es s)

    unfoldable pub handle_subscription_delete :
        SubscriptionDelete → ℕ → Draw → Session Model Factory → Option (Session Model Factory)
    unfolding unsubscribe queue_outbound message_ack_of
    handle_subscription_delete del request_message_id draw s =
        let (s', code) = unsubscribe del s in
        queue_outbound (message_ack_of request_message_id code draw) s'

    unfoldable pub handle_dapp_disconnection : ℕ → Session Model Factory → Session Model Factory
    unfolding managed after_unregister
    handle_dapp_disconnection dapp_id s =
        let (m, code, es) = unregister_dapp dapp_id s.subscription_manager in
        after_unregister code (managed m es s)

    unfoldable pub handle_release_message :
        ReleaseMessage → Session Model Factory → Session Model Factory
    unfolding handle_dapp_disconnection
    handle_release_message release s = handle_dapp_disconnection release.dapp_identifier s
