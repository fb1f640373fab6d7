-- ===== src/Interface/Threads/Steps.antt =====
-- One thread's round after the other.
use Prim.Native.String.{String}
use d_app_libe.Base.{ℕ, if◌then◌else◌, Option, none, some, List, [], ◌∷◌, ◌++◌, ◌≡◌, is_empty}
use d_app_libe.Types.{ErrorCode, PduType, PduChoice, Pdu, DAppControlAction}
use d_app_libe.Response.Defs.{ResponseQueue, push}
use d_app_libe.Registry.Defs.{ServiceModel, get_by_ran_function, is_success}
use d_app_libe.Interface.Defs.{
  Session, Draw, subscribe, unsubscribe, subscription_response_of, message_ack_of,
}
use d_app_libe.Interface.Loops.{
  Receipt, setup_round, subscriber_round, publisher_round, outbound_emitter, with_message_id,
  sm_data_round, add_sent,
}

-- What happens next: a round of setup_loop, subscriber_loop, publisher_loop or
-- sm_data_handler_loop, or a PDU queued from outside, with the message id drawn for it.
pub data Event : Type 0 where
  joins : Receipt → Event
  arrives : Receipt → Event
  publishes : ℕ → Event
  polls : Event
  emits : Pdu → ℕ → Event

-- The PDU, if push takes it.
unfoldable pub accept : Option Pdu → ResponseQueue → List Pdu
accept none q = []
accept (some pdu) q = elim (push pdu q) [
  | none ↦ []
  | some (q', code) ↦ if is_success code then pdu ∷ [] else []
]

-- The queue after a PDU that may be there was pushed.
unfoldable pub after_push : Option Pdu → ResponseQueue → ResponseQueue
after_push none q = q
after_push (some pdu) q = elim (push pdu q) [ none ↦ q | some (q', code) ↦ q' ]

-- What the publisher is to send for these PDUs.
unfoldable pub encodings : (Pdu → Option (List ℕ)) → List Pdu → List (List ℕ)
encodings encode [] = []
encodings encode (pdu ∷ pdus) = add_sent (encode pdu) (encodings encode pdus)

-- The answer of a model to a control action, while it handles it, is at most one PDU.
module _ {ℓ} {Model Factory : Type ℓ} (sm : ServiceModel Model)
    (create : Factory → Option Model × Factory)
    (control : ℕ → DAppControlAction → Model → ResponseQueue → ErrorCode × Model × ResponseQueue)
    (emission : ℕ → DAppControlAction → Model → Option Pdu) where
  -- The PDU that a received one makes E3Interface queue.
  unfoldable pub reply : PduType → PduChoice → ℕ → Draw → Session Model Factory → Option Pdu
  reply PduType.subscription_request (PduChoice.subscription_request request) id draw s =
      some (subscription_response_of request id (subscribe sm request s).1 draw)
  reply PduType.subscription_delete (PduChoice.subscription_delete del) id draw s =
      some (message_ack_of id (unsubscribe sm del s).1 draw)
  reply PduType.dapp_control_action (PduChoice.dapp_control_action action) id draw s =
      elim (get_by_ran_function sm create action.ran_function_identifier s.registry).1 [
        | none ↦ none
        | some model ↦ if sm.is_running model then emission id action model else none
      ]
  reply t c id draw s = none

  module _ (moved_from : Pdu → Pdu) (encode : Pdu → Option (List ℕ)) (decode : List ℕ → Option Pdu)
      (e3ap_version ran_identifier : String) where
    -- Beside the session, the octets given to the connector's send. `none` is a call that does not
    -- return.
    unfoldable pub step :
        Event → Session Model Factory → Option (Session Model Factory × Option (List ℕ))
    step (joins r) s =
        some ((setup_round sm create control encode decode e3ap_version ran_identifier r s).0, none)
    step (arrives r) s = elim (subscriber_round sm create control encode decode r s) [
      | none ↦ none
      | some s' ↦ some (s', none)
    ]
    step (publishes before) s = publisher_round moved_from encode before s
    step polls s = some (sm_data_round sm create control s, none)
    step (emits pdu drawn) s = elim (outbound_emitter pdu drawn s) [
      | none ↦ none
      | some s' ↦ some (s', none)
    ]

    unfoldable pub run :
        List Event → Session Model Factory → Option (Session Model Factory × List (List ℕ))
    unfolding step
    run [] s = some (s, [])
    run (e ∷ es) s = elim (step e s) [
      | none ↦ none
      | some (s', octets) ↦ elim (run es s') [
        | none ↦ none
        | some (s'', sent) ↦ some (s'', add_sent octets sent)
      ]
    ]

    pub run-cons :
        (e : Event) (es : List Event) (s s' s'' : Session Model Factory) (octets : Option (List ℕ))
        (sent : List (List ℕ))
        → step e s ≡ some (s', octets)
        → run es s' ≡ some (s'', sent)
        → run (e ∷ es) s ≡ some (s'', add_sent octets sent)
    unfolding run
    run-cons e es s s' s'' octets sent made rest = rw (run, made) (rw rest)

    -- The PDU that an event offers to the queue.
    unfoldable pub offered : Event → Session Model Factory → Option Pdu
    unfolding reply with_message_id
    offered (arrives r) s = if is_empty r.octets then none else elim (decode r.octets) [
      | none ↦ none
      | some pdu ↦ reply pdu.type pdu.choice pdu.message_id r.draw s
    ]
    offered (emits pdu drawn) s = some (with_message_id pdu drawn)
    offered e s = none

    -- The PDUs for which push answered SUCCESS in a run, in order.
    unfoldable pub accepted : List Event → Session Model Factory → List Pdu
    unfolding offered accept step
    accepted [] s = []
    accepted (e ∷ es) s =
        accept (offered e s) s.response_queue
        ++ elim (step e s) [ none ↦ [] | some (s', octets) ↦ accepted es s' ]
