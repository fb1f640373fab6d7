-- ===== src/Interface/Threads/InStep.antt =====
-- The models run in step with the subscriptions while the threads act.
use Prim.Native.String.{String}
use d_app_libe.Base.{
  ℕ, suc, ◌+◌, ◌≡◌, refl, sym, ap, subst, ◌∙◌, Option, none, some, List, [], ◌∷◌, is_empty, length,
  inl, inr, arith, Bool-cases, Option-cases,
}
use d_app_libe.Types.{ErrorCode, PduType, PduChoice, Pdu, DAppControlAction}
use d_app_libe.Subscription.State.{get_subscribed_dapps, get_active_ran_functions}
use d_app_libe.Response.Defs.{ResponseQueue}
use d_app_libe.Response.Contents.{Holds}
use d_app_libe.Registry.Defs.{ServiceModel, RunningLaws}
use d_app_libe.Interface.Defs.{Session, Draw}
use d_app_libe.Interface.Handlers.{InStep}
use d_app_libe.Interface.Received.{dispatch-InStep, get-InStep}
use d_app_libe.Interface.Setup.{handle_setup_request-InStep}
use d_app_libe.Interface.Loops.{
  Receipt, setup_round, setup_on, subscriber_round, poll_models, sm_data_round, outbound_emitter,
  with_message_id, add_sent,
}
use d_app_libe.Interface.Threads.Order.{one, step-Flows, publisher_round-cons, publisher_round-nil}
use d_app_libe.Interface.Threads.Flow.{queue_outbound-after_push}
use d_app_libe.Interface.Threads.Steps.{
  Event, joins, arrives, publishes, polls, emits, after_push, step, run, run-cons,
}

first_of {ℓ κ} :
    {A : Type ℓ} {B : Type κ} (x y : A × B) → ◌≡◌ {A = Option (A × B)} (some x) (some y) → x.0 ≡ y.0
first_of x y e = ap (λ o. elim o [ none ↦ x.0 | some p ↦ p.0 ]) e

module _ {ℓ} {Model Factory : Type ℓ} (sm : ServiceModel Model) (laws : RunningLaws sm)
    (starts : (s : Model) → (sm.start s).0 ≡ ErrorCode.success) (q : ℕ)
    (create : Factory → Option Model × Factory)
    (control : ℕ → DAppControlAction → Model → ResponseQueue → ErrorCode × Model × ResponseQueue)
    (control_keeps : (n : ℕ) (a : DAppControlAction) (model : Model) (queue : ResponseQueue)
      → sm.is_running (control n a model queue).1 ≡ sm.is_running model) where
  abbrev Served : Session Model Factory → Type ℓ
  Served s = InStep sm laws starts q s

  poll_models-InStep :
      (ids : List ℕ) (s : Session Model Factory)
      → Served s
      → Served (poll_models sm create control ids s)
  unfolding poll_models
  poll_models-InStep [] s w = w
  poll_models-InStep (id ∷ ids) s w =
      poll_models-InStep ids _
        (elim (Bool-cases (is_empty (get_subscribed_dapps id s.subscription_manager))) [
          | inl nobody ↦ rw nobody w
          | inr someone ↦ rw someone (
              get-InStep sm laws starts q create control control_keeps id s.subscription_manager
                s.registry w)
        ])

  module _ (encode : Pdu → Option (List ℕ)) (decode : List ℕ → Option Pdu)
      (e3ap_version ran_identifier : String) where
    setup_on-InStep :
        (t : PduType) (c : PduChoice) (id : ℕ) (draw : Draw) (s : Session Model Factory)
        → Served s
        → Served
            (setup_on sm create control encode decode e3ap_version ran_identifier t c id draw s).0
    unfolding setup_on
    setup_on-InStep PduType.setup_request (PduChoice.setup_request r) id draw s w =
        handle_setup_request-InStep sm laws starts q create control control_keeps e3ap_version
          ran_identifier encode id draw s w
    setup_on-InStep t c id draw s w = w

    setup_round-InStep :
        (r : Receipt) (s : Session Model Factory)
        → Served s
        → Served (setup_round sm create control encode decode e3ap_version ran_identifier r s).0
    unfolding setup_round
    setup_round-InStep r s w = elim (Bool-cases (is_empty r.octets)) [
      | inl nothing ↦ rw (setup_round, nothing) w
      | inr received ↦ elim (Option-cases (decode r.octets)) [
        | inl undecoded ↦ rw (setup_round, received, undecoded) w
        | inr (pdu, decoded) ↦
            rw (setup_round, received, decoded)
              (setup_on-InStep pdu.type pdu.choice pdu.message_id r.draw s w)
      ]
    ]

    subscriber_round-InStep :
        (r : Receipt) (s : Session Model Factory) (xs : List Pdu) (room : ℕ)
        → Holds s.response_queue xs (suc room)
        → Served s
        → (s' : Session Model Factory) × (subscriber_round sm create control encode decode r s
            ≡ some s')
          × Served s'
    unfolding subscriber_round
    subscriber_round-InStep r s xs room h w = elim (Bool-cases (is_empty r.octets)) [
      | inl nothing ↦ (s, rw (subscriber_round, nothing), w)
      | inr received ↦ elim (Option-cases (decode r.octets)) [
        | inl undecoded ↦ (s, rw (subscriber_round, received, undecoded), w)
        | inr (pdu, decoded) ↦
            let (s', e, w') =
              dispatch-InStep sm laws starts q create control control_keeps pdu r.draw s xs room h
                w in
            (s', rw (subscriber_round, received, decoded) e, w')
      ]
    ]

    module _ (emission : ℕ → DAppControlAction → Model → Option Pdu)
        (control_emits : (n : ℕ) (a : DAppControlAction) (model : Model) (queue : ResponseQueue)
          → (control n a model queue).2 ≡ after_push (emission n a model) queue)
        (moved_from : Pdu → Pdu) where
      abbrev next : Event → Session Model Factory → Option (Session Model Factory × Option (List ℕ))
      next =
          one sm create control emission control_emits moved_from encode decode e3ap_version
            ran_identifier

      -- The step that the flow lemma gives is one that keeps the models in step.
      step-InStep :
          (e : Event) (s : Session Model Factory) (xs : List Pdu) (room : ℕ)
          → Holds s.response_queue xs (suc room)
          → Served s
          → (s' : Session Model Factory) × (out : Option (List ℕ)) × (next e s ≡ some (s', out))
            × Served s'
      unfolding step sm_data_round outbound_emitter
      step-InStep (joins r) s xs room h w = (
        (setup_round sm create control encode decode e3ap_version ran_identifier r s).0,
        none,
        refl,
        setup_round-InStep r s w,
      )
      step-InStep (arrives r) s xs room h w =
          let (s', e, w') = subscriber_round-InStep r s xs room h w in (s', none, rw (step, e), w')
      step-InStep (publishes before) s [] room h w =
          (s, none, publisher_round-nil moved_from encode before s (suc room) h, w)
      step-InStep (publishes before) s (x ∷ xs) room h w =
          let (queue, e, held) =
            publisher_round-cons moved_from encode before s x xs (suc room) h in
          (record s { response_queue = queue }, encode x, e, w)
      step-InStep polls s xs room h w = (
        sm_data_round sm create control s,
        none,
        refl,
        poll_models-InStep (get_active_ran_functions s.subscription_manager) s w,
      )
      step-InStep (emits pdu drawn) s xs room h w =
          let pdu' = with_message_id pdu drawn in
          (
            record s { response_queue = after_push (some pdu') s.response_queue },
            none,
            rw (step, outbound_emitter, queue_outbound-after_push pdu' s xs room h),
            w,
          )

      -- However the rounds of the threads and the PDUs from outside follow each other, a RAN
      -- function's model that ran exactly while the RAN function had subscribers does so at the
      -- end, and the run gets there, as long as the queue's positions are below 2^63. The models
      -- always start, stop when told to, neither start nor stop by a control action, and queue at
      -- most one PDU while they handle one.
      pub run-InStep :
          (es : List Event) (s : Session Model Factory) (xs : List Pdu) (room : ℕ)
          → Holds s.response_queue xs (length es + room)
          → Served s
          → (s' : Session Model Factory) × (sent : List (List ℕ)) × (run sm create control emission
                moved_from encode decode e3ap_version ran_identifier es s
              ≡ some (s', sent))
            × Served s'
      unfolding run
      run-InStep [] s xs room h w = (s, [], refl, w)
      run-InStep (e ∷ es) s xs room h w =
          let h' : Holds s.response_queue xs (suc (length es + room)) =
            subst (λ n. Holds s.response_queue xs n) (omega arith) h in
          let (s1, out, made, f) =
            step-Flows sm create control emission control_emits moved_from encode decode
              e3ap_version ran_identifier e s xs (length es + room) h' in
          let (s2, out2, made2, w2) = step-InStep e s xs (length es + room) h' w in
          let (s'', sent, rest, w'') =
            run-InStep es s1 f.left room f.holds
              (subst Served (first_of (s2, out2) (s1, out) (sym made2 ∙ made)) w2) in
          (
            s'',
            add_sent out sent,
            run-cons sm create control emission moved_from encode decode e3ap_version ran_identifier
                e es s s1 s'' out sent made rest,
            w'',
          )
