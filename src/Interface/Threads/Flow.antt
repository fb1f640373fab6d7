-- ===== src/Interface/Threads/Flow.antt =====
-- What the threads do to the queue of outbound PDUs.
use d_app_libe.Base.{
  ℕ, suc, ◌≡◌, refl, ap, ◌∙◌, if◌then◌else◌, Option, none, some, List, [], ◌∷◌, ◌++◌, inl, inr,
  arith, Bool-cases, Option-cases, append_nil,
}
use d_app_libe.Types.{ErrorCode, PduType, PduChoice, Pdu, DAppControlAction}
use d_app_libe.Response.Defs.{ResponseQueue, push}
use d_app_libe.Response.Contents.{Holds, push-Holds, push_answer, push_contents}
use d_app_libe.Mpmc.Fifo.{Represents-weaken}
use d_app_libe.Registry.Defs.{ServiceModel, get_by_ran_function, is_success}
use d_app_libe.Interface.Defs.{
  Session, Draw, subscribe, unsubscribe, subscription_response_of, message_ack_of, queue_outbound,
  handle_subscription_request, handle_subscription_delete, handle_dapp_report,
  handle_release_message,
}
use d_app_libe.Interface.Dispatch.{dispatch_on, handle_control_action}
use d_app_libe.Interface.Handlers.{subscribe-response_queue, unsubscribe-response_queue}
use d_app_libe.Interface.Threads.Quiet.{report-response_queue, disconnection-response_queue}
use d_app_libe.Interface.Threads.Steps.{accept, after_push, reply}

answer_contents :
    (pdu : Pdu) (q : ResponseQueue) (xs : List Pdu)
    → push_contents pdu q xs ≡ xs ++ (if is_success (push_answer q xs) then pdu ∷ [] else [])
unfolding push_answer push_contents is_success
answer_contents pdu q xs = ground (arith, append_nil xs)

-- The queue after a push holds the PDUs from before, and then the PDU if it was accepted.
push_accept :
    (pdu : Pdu) (q : ResponseQueue) (xs : List Pdu)
    → (q' : ResponseQueue) → push pdu q ≡ some (q', push_answer q xs)
    → push_contents pdu q xs ≡ xs ++ accept (some pdu) q
unfolding accept
push_accept pdu q xs q' e = answer_contents pdu q xs ∙ rw (accept, e)

pub after_push-Holds :
    (o : Option Pdu) (q : ResponseQueue) (xs : List Pdu) (room : ℕ)
    → Holds q xs (suc room)
    → Holds (after_push o q) (xs ++ accept o q) room
unfolding after_push accept
after_push-Holds none q xs room h = rw (append_nil xs) (Represents-weaken q.ring xs room h)
after_push-Holds (some pdu) q xs room h =
    let (q', e, held, closed, capacity) = push-Holds pdu q xs room h in
    rw (← push_accept pdu q xs q' e) (rw (after_push, e) held)

-- A push returns, with the queue as above.
pub push-after_push :
    (pdu : Pdu) (q : ResponseQueue) (xs : List Pdu) (room : ℕ)
    → Holds q xs (suc room)
    → push pdu q ≡ some (after_push (some pdu) q, push_answer q xs)
unfolding after_push
push-after_push pdu q xs room h =
    let (q', e, held, closed, capacity) = push-Holds pdu q xs room h in rw (after_push, e)

module _ {ℓ} {Model Factory : Type ℓ} where
  pub queue_outbound-after_push :
      (pdu : Pdu) (s : Session Model Factory) (xs : List Pdu) (room : ℕ)
      → Holds s.response_queue xs (suc room)
      → queue_outbound pdu s
        ≡ some (record s { response_queue = after_push (some pdu) s.response_queue })
  unfolding queue_outbound
  queue_outbound-after_push pdu s xs room h =
      rw (queue_outbound, push-after_push pdu s.response_queue xs room h)

  -- A step returns, and offers the queue this PDU, if any.
  abbrev pub Offers : Option (Session Model Factory) → Option Pdu → ResponseQueue → Type ℓ
  Offers m o q = (s' : Session Model Factory) × (m ≡ some s') × (s'.response_queue ≡ after_push o q)

  module _ (sm : ServiceModel Model) (create : Factory → Option Model × Factory)
      (control : ℕ → DAppControlAction → Model → ResponseQueue → ErrorCode × Model × ResponseQueue)
      (emission : ℕ → DAppControlAction → Model → Option Pdu)
      (control_emits : (n : ℕ) (a : DAppControlAction) (model : Model) (queue : ResponseQueue)
        → (control n a model queue).2 ≡ after_push (emission n a model) queue) where
    control-Offers :
        (action : DAppControlAction) (id : ℕ) (draw : Draw) (s : Session Model Factory)
        → (handle_control_action sm create control action id s).response_queue
          ≡ after_push
              (reply sm create control emission PduType.dapp_control_action
                (PduChoice.dapp_control_action action)
                id
                draw
                s)
              s.response_queue
    unfolding handle_control_action reply after_push
    control-Offers action id draw s =
        elim (Option-cases
          (get_by_ran_function sm create action.ran_function_identifier s.registry).1) [
            | inl missing ↦ rw (handle_control_action, reply, missing)
            | inr (model, found) ↦ elim (Bool-cases (sm.is_running model)) [
              | inl running ↦
                  rw (handle_control_action, reply, found, running)
                    (control_emits id action model s.response_queue)
              | inr idle ↦ rw (handle_control_action, reply, found, idle)
            ]
          ]

    pub dispatch_on-Offers :
        (t : PduType) (c : PduChoice) (id : ℕ) (draw : Draw) (s : Session Model Factory)
        (xs : List Pdu) (room : ℕ)
        → Holds s.response_queue xs (suc room)
        → Offers
            (dispatch_on sm create control t c id draw s)
            (reply sm create control emission t c id draw s)
            s.response_queue
    unfolding dispatch_on handle_subscription_request handle_subscription_delete
        handle_release_message reply after_push
    dispatch_on-Offers PduType.subscription_request (PduChoice.subscription_request request) id draw
          s xs room h =
        let s1 = (subscribe sm request s).0 in
        let pdu = subscription_response_of request id (subscribe sm request s).1 draw in
        let same = subscribe-response_queue sm request s in
        (
          record s1 { response_queue = after_push (some pdu) s1.response_queue },
          queue_outbound-after_push pdu s1 xs room (rw same h),
          ap (after_push (some pdu)) same,
        )
    dispatch_on-Offers PduType.subscription_delete (PduChoice.subscription_delete del) id draw s xs
          room h =
        let s1 = (unsubscribe sm del s).0 in
        let pdu = message_ack_of id (unsubscribe sm del s).1 draw in
        let same = unsubscribe-response_queue sm del s in
        (
          record s1 { response_queue = after_push (some pdu) s1.response_queue },
          queue_outbound-after_push pdu s1 xs room (rw same h),
          ap (after_push (some pdu)) same,
        )
    dispatch_on-Offers PduType.dapp_control_action (PduChoice.dapp_control_action action) id draw s
          xs room h =
        (handle_control_action sm create control action id s, refl, control-Offers action id draw s)
    dispatch_on-Offers PduType.dapp_report (PduChoice.dapp_report report) id draw s xs room h =
        (handle_dapp_report report s, refl, report-response_queue report s)
    dispatch_on-Offers PduType.release_message (PduChoice.release_message release) id draw s xs room
          h =
        (
          handle_release_message sm release s,
          refl,
          disconnection-response_queue sm release.dapp_identifier s,
        )
    dispatch_on-Offers t c id draw s xs room h = (s, refl, refl)
