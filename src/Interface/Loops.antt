-- ===== src/Interface/Loops.antt =====
-- The loops of E3Interface's threads, and what the callbacks do that register_sm gives a service
-- model. A loop runs over the list of its rounds: the list ends where the thread finds should_stop
-- set, at the loop's head or after a call that failed.
use Prim.Native.String.{String}
use d_app_libe.Base.{
  ℕ, ◌==◌, if◌then◌else◌, Bool, true, false, Option, none, some, List, [], ◌∷◌, is_empty,
}
use d_app_libe.Types.{ErrorCode, PduType, PduChoice, Pdu, DAppControlAction}
use d_app_libe.Subscription.State.{get_active_ran_functions, get_subscribed_dapps}
use d_app_libe.Response.Defs.{ResponseQueue, pop_timeout}
use d_app_libe.Response.Waiting.{quiet}
use d_app_libe.Registry.Defs.{ServiceModel, SmRegistry, get_by_ran_function}
use d_app_libe.Registry.Defs as Models
use d_app_libe.Interface.Defs.{Session, Draw, queue_outbound}
use d_app_libe.Interface.Dispatch.{handle_setup_request, dispatch}

-- A round of a loop that receives: the octets that came, none if the connector's call failed, and
-- what the handler draws.
pub record Receipt : Type 0 where
  pub octets : List ℕ
  pub draw : Draw

-- The attempts of publisher_loop to set up the outbound connection: whether one succeeds before
-- the thread finds should_stop set.
unfoldable pub connects : List ErrorCode → Bool
connects [] = false
connects (ErrorCode.success ∷ codes) = true
connects (code ∷ codes) = connects codes

abbrev pub add_sent {ℓ} : {A : Type ℓ} → Option A → List A → List A
add_sent none xs = xs
add_sent (some x) xs = x ∷ xs

-- A PDU without a message id gets one.
unfoldable pub with_message_id : Pdu → ℕ → Pdu
with_message_id pdu drawn = if pdu.message_id == 0 then record pdu { message_id = drawn } else pdu

-- What the publisher makes of what `pop` gave.
unfoldable pub encoded : (Pdu → Option (List ℕ)) → Option Pdu → Option (List ℕ)
encoded encode none = none
encoded encode (some pdu) = encode pdu

module _ {ℓ} {Model Factory : Type ℓ} where
  -- A model is handed to the registry, with the two callbacks below; a null one is refused.
  unfoldable pub register_sm :
      ServiceModel Model
      → Option Model
      → SmRegistry Model Factory
      → SmRegistry Model Factory × ErrorCode
  register_sm sm none r = (r, ErrorCode.invalid_param)
  register_sm sm (some model) r = Models.register_sm sm (some model) r

  -- The subscribers' provider of a model.
  unfoldable pub subscribers_provider : ℕ → Session Model Factory → List ℕ
  subscribers_provider ran_function_id s =
      get_subscribed_dapps ran_function_id s.subscription_manager

  -- The emitter of a model.
  unfoldable pub outbound_emitter : Pdu → ℕ → Session Model Factory → Option (Session Model Factory)
  unfolding with_message_id queue_outbound
  outbound_emitter pdu drawn s = queue_outbound (with_message_id pdu drawn) s

  module _ (sm : ServiceModel Model) (create : Factory → Option Model × Factory)
      (control : ℕ
        → DAppControlAction
        → Model
        → ResponseQueue
        → ErrorCode × Model × ResponseQueue) where
    -- sm_data_handler_loop's pass over the active RAN functions: a model may be made by it.
    unfoldable pub poll_models : List ℕ → Session Model Factory → Session Model Factory
    poll_models [] s = s
    poll_models (id ∷ ids) s = poll_models ids (
        if is_empty (get_subscribed_dapps id s.subscription_manager)
        then s
        else record s { registry = (get_by_ran_function sm create id s.registry).0 })

    unfoldable pub sm_data_round : Session Model Factory → Session Model Factory
    unfolding poll_models
    sm_data_round s = poll_models (get_active_ran_functions s.subscription_manager) s

    -- The rounds of sm_data_handler_loop, as many as there are marks.
    unfoldable pub sm_data_handler_loop : List ℕ → Session Model Factory → Session Model Factory
    unfolding sm_data_round
    sm_data_handler_loop [] s = s
    sm_data_handler_loop (mark ∷ marks) s = sm_data_handler_loop marks (sm_data_round s)

    -- The encoder's two virtual methods; `none` stands for an error.
    module _ (encode : Pdu → Option (List ℕ)) (decode : List ℕ → Option Pdu) where
      unfoldable pub subscriber_round :
          Receipt → Session Model Factory → Option (Session Model Factory)
      subscriber_round r s = if is_empty r.octets then some s else elim (decode r.octets) [
        | none ↦ some s
        | some pdu ↦ dispatch sm create control pdu r.draw s
      ]

      -- `inbound` is the answer of setup_inbound_connection. `none` is a handler that does not
      -- return.
      unfoldable pub subscriber_rounds :
          List Receipt → Session Model Factory → Option (Session Model Factory)
      unfolding subscriber_round
      subscriber_rounds [] s = some s
      subscriber_rounds (r ∷ rs) s = elim (subscriber_round r s) [
        | none ↦ none
        | some s' ↦ subscriber_rounds rs s'
      ]

      unfoldable pub subscriber_loop :
          ErrorCode → List Receipt → Session Model Factory → Option (Session Model Factory)
      unfolding subscriber_rounds
      subscriber_loop ErrorCode.success rs s = subscriber_rounds rs s
      subscriber_loop inbound rs s = some s

      module _ (e3ap_version ran_identifier : String) where
        -- The type and the contents of a setup request; anything else is dropped.
        unfoldable pub setup_on :
            PduType
            → PduChoice
            → ℕ
            → Draw
            → Session Model Factory
            → Session Model Factory × Option (List ℕ)
        unfolding handle_setup_request
        setup_on PduType.setup_request (PduChoice.setup_request request) id draw s =
            handle_setup_request sm create control e3ap_version ran_identifier encode id draw s
        setup_on t c id draw s = (s, none)

        -- Beside the session, the octets given to send_response.
        unfoldable pub setup_round :
            Receipt → Session Model Factory → Session Model Factory × Option (List ℕ)
        unfolding setup_on
        setup_round r s = if is_empty r.octets then (s, none) else elim (decode r.octets) [
          | none ↦ (s, none)
          | some pdu ↦ setup_on pdu.type pdu.choice pdu.message_id r.draw s
        ]

        unfoldable pub setup_loop :
            List Receipt → Session Model Factory → Session Model Factory × List (List ℕ)
        unfolding setup_round
        setup_loop [] s = (s, [])
        setup_loop (r ∷ rs) s =
            let (s', answer) = setup_round r s in
            let (s'', answers) = setup_loop rs s' in (s'', add_sent answer answers)

  -- publisher_loop sends what it takes, if it can be encoded. `moved_from` is what a move leaves.
  module _ (moved_from : Pdu → Pdu) (encode : Pdu → Option (List ℕ)) where
    -- A round in which `before` looks at the clock come before the deadline: the session, and the
    -- octets given to the connector's send.
    unfoldable pub publisher_round :
        ℕ → Session Model Factory → Option (Session Model Factory × Option (List ℕ))
    unfolding encoded
    publisher_round before s = elim (pop_timeout moved_from quiet before s.response_queue) [
      | none ↦ none
      | some (out, queue) ↦ some (record s { response_queue = queue }, encoded encode out)
    ]

    unfoldable pub publisher_rounds :
        List ℕ → Session Model Factory → Option (Session Model Factory × List (List ℕ))
    unfolding publisher_round
    publisher_rounds [] s = some (s, [])
    publisher_rounds (before ∷ rest) s = elim (publisher_round before s) [
      | none ↦ none
      | some (s', octets) ↦ elim (publisher_rounds rest s') [
        | none ↦ none
        | some (s'', sent) ↦ some (s'', add_sent octets sent)
      ]
    ]

    -- `attempts` are the answers of setup_outbound_connection.
    unfoldable pub publisher_loop :
        List ErrorCode
        → List ℕ
        → Session Model Factory
        → Option (Session Model Factory × List (List ℕ))
    unfolding connects publisher_rounds
    publisher_loop attempts rounds s =
        if connects attempts then publisher_rounds rounds s else some (s, [])
