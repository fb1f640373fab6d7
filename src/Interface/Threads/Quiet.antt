-- ===== src/Interface/Threads/Quiet.antt =====
-- The rounds and handlers that leave the queue of outbound PDUs as it is.
use Prim.Native.String.{String}
use d_app_libe.Base.{
  ℕ, ◌≡◌, refl, ◌∙◌, if◌then◌else◌, Option, List, [], ◌∷◌, is_empty, inl, inr, Bool-cases,
  Option-cases, true, false, Bool,
}
use d_app_libe.Types.{ErrorCode, PduType, PduChoice, Pdu, DAppControlAction, DAppReport}
use d_app_libe.Response.Defs.{ResponseQueue}
use d_app_libe.Registry.Defs.{ServiceModel, is_success}
use d_app_libe.Subscription.Register.{register_dapp}
use d_app_libe.Subscription.State.{get_subscribed_dapps, get_active_ran_functions}
use d_app_libe.Interface.Defs.{
  Session, Draw, notify_dapp_status_changed, handle_dapp_report, handle_dapp_disconnection,
  after_unregister, managed,
}
use d_app_libe.Interface.Dispatch.{handle_setup_request}
use d_app_libe.Interface.Handlers.{notify-response_queue}
use d_app_libe.Interface.Loops.{Receipt, poll_models, sm_data_round, setup_on, setup_round}

module _ {ℓ} {Model Factory : Type ℓ} where
  after_unregister-response_queue :
      (code : ErrorCode) (s : Session Model Factory)
      → (after_unregister code s).response_queue ≡ s.response_queue
  unfolding after_unregister
  after_unregister-response_queue ErrorCode.success s = notify-response_queue s
  after_unregister-response_queue code s = refl

  pub report-response_queue :
      (report : DAppReport) (s : Session Model Factory)
      → (handle_dapp_report report s).response_queue ≡ s.response_queue
  unfolding handle_dapp_report
  report-response_queue report s = elim (Bool-cases s.has_report_handler) [
    | inl set ↦ rw (handle_dapp_report, set)
    | inr unset ↦ rw (handle_dapp_report, unset)
  ]

  notified-response_queue :
      (b : Bool) (s : Session Model Factory)
      → (if b then notify_dapp_status_changed s else s).response_queue ≡ s.response_queue
  notified-response_queue true s = notify-response_queue s
  notified-response_queue false s = refl

  module _ (sm : ServiceModel Model) where
    pub disconnection-response_queue :
        (dapp_id : ℕ) (s : Session Model Factory)
        → (handle_dapp_disconnection sm dapp_id s).response_queue ≡ s.response_queue
    unfolding handle_dapp_disconnection managed
    disconnection-response_queue dapp_id s = after_unregister-response_queue _ _

    module _ (create : Factory → Option Model × Factory)
        (control : ℕ
          → DAppControlAction
          → Model
          → ResponseQueue
          → ErrorCode × Model × ResponseQueue) where
      poll_models-response_queue :
          (ids : List ℕ) (s : Session Model Factory)
          → (poll_models sm create control ids s).response_queue ≡ s.response_queue
      unfolding poll_models
      poll_models-response_queue [] s = refl
      poll_models-response_queue (id ∷ ids) s =
          poll_models-response_queue ids _
          ∙ elim (Bool-cases (is_empty (get_subscribed_dapps id s.subscription_manager))) [
            | inl nobody ↦ rw nobody
            | inr someone ↦ rw someone
          ]

      pub sm_data_round-response_queue :
          (s : Session Model Factory)
          → (sm_data_round sm create control s).response_queue ≡ s.response_queue
      unfolding sm_data_round
      sm_data_round-response_queue s =
          poll_models-response_queue (get_active_ran_functions s.subscription_manager) s

      module _ (encode : Pdu → Option (List ℕ)) (decode : List ℕ → Option Pdu)
          (e3ap_version ran_identifier : String) where
        setup_on-response_queue :
            (t : PduType) (c : PduChoice) (id : ℕ) (draw : Draw) (s : Session Model Factory)
            → (setup_on sm create control encode decode e3ap_version ran_identifier t c id draw
                s).0.response_queue
              ≡ s.response_queue
        unfolding setup_on handle_setup_request
        setup_on-response_queue PduType.setup_request (PduChoice.setup_request r) id draw s =
            let (m, code, dapp_id) = register_dapp draw.clock s.subscription_manager in
            notified-response_queue (is_success code) (record s { subscription_manager = m })
        setup_on-response_queue t c id draw s = refl

        pub setup_round-response_queue :
            (r : Receipt) (s : Session Model Factory)
            → (setup_round sm create control encode decode e3ap_version ran_identifier r
                s).0.response_queue
              ≡ s.response_queue
        unfolding setup_round
        setup_round-response_queue r s = elim (Bool-cases (is_empty r.octets)) [
          | inl nothing ↦ rw (setup_round, nothing)
          | inr received ↦ elim (Option-cases (decode r.octets)) [
            | inl undecoded ↦ rw (setup_round, received, undecoded)
            | inr (pdu, decoded) ↦
                rw (setup_round, received, decoded)
                  (setup_on-response_queue pdu.type pdu.choice pdu.message_id r.draw s)
          ]
        ]
