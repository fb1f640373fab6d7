-- ===== src/Agent/Sends.antt =====
-- The methods by which a service model's owner sends: what they queue, and when.
use d_app_libe.Base.{
  ℕ, suc, true, false, Option, some, List, ◌≡◌, refl, sym, ◌∙◌, Option-cases, inl, inr,
}
use d_app_libe.Types.{ErrorCode, ResponseCode, PduType, PduChoice, Pdu}
use d_app_libe.Response.Defs.{ResponseQueue}
use d_app_libe.Response.Contents.{Holds, push_answer, push_contents, push-Holds}
use d_app_libe.Interface.Defs.{Draw, new_pdu, message_ack_of}
use d_app_libe.Interface.Lifecycle as Core
use d_app_libe.Agent.Defs.{Hosted, E3Agent, is_running, is_running_state}
use d_app_libe.Agent.Sending.{
  queue_if_running, send_indication, send_xapp_control, send_message_ack,
}

-- What can be sent by hand, with the arguments of the methods.
pub data Manual : Type 0 where
  indication : ℕ → ℕ → List ℕ → Manual
  xapp_control : ℕ → ℕ → List ℕ → Manual
  acknowledgement : ℕ → ResponseCode → Manual

-- The PDU that is to reach the dApp.
abbrev pub pdu_of : Manual → Draw → Pdu
pdu_of (indication dapp_id id content) draw = record {
  type = PduType.indication_message;
  choice =
      PduChoice.indication_message (record {
        dapp_identifier = dapp_id;
        ran_function_identifier = id;
        protocol_data = content;
      });
  message_id = draw.message_id;
  timestamp = draw.clock;
}
pdu_of (xapp_control dapp_id id content) draw = record {
  type = PduType.xapp_control_action;
  choice = PduChoice.xapp_control_action (record {
    dapp_identifier = dapp_id;
    ran_function_identifier = id;
    xapp_control_data = content;
  });
  message_id = draw.message_id;
  timestamp = draw.clock;
}
pdu_of (acknowledgement request_id code) draw = record {
  type = PduType.message_ack;
  choice = PduChoice.message_ack (record { request_id = request_id; response_code = code });
  message_id = draw.message_id;
  timestamp = draw.clock;
}

module _ {ℓ} {Model Factory Connector Handler : Type ℓ} where
  abbrev pub send :
      Manual
      → Draw
      → E3Agent Model Factory Connector Handler
      → Option (E3Agent Model Factory Connector Handler × ErrorCode)
  send (indication dapp_id id content) draw a = send_indication dapp_id id content draw a
  send (xapp_control dapp_id id content) draw a = send_xapp_control dapp_id id content draw a
  send (acknowledgement request_id code) draw a = send_message_ack request_id code draw a

  send-queue_if_running :
      (m : Manual) (draw : Draw) (a : E3Agent Model Factory Connector Handler)
      → send m draw a ≡ queue_if_running (pdu_of m draw) a
  unfolding send_indication send_xapp_control send_message_ack new_pdu message_ack_of
  send-queue_if_running (indication dapp_id id content) draw a = refl
  send-queue_if_running (xapp_control dapp_id id content) draw a = refl
  send-queue_if_running (acknowledgement request_id code) draw a = refl

  -- The agent's outbound queue.
  abbrev pub QueueIs : E3Agent Model Factory Connector Handler → ResponseQueue → Type ℓ
  QueueIs a queue =
      (h : Hosted Model Factory Connector Handler) × (a.interface ≡ some h)
      × (h.core.response_queue ≡ some queue)

  is_running-hosted :
      (a : E3Agent Model Factory Connector Handler) (h : Hosted Model Factory Connector Handler)
      → a.interface ≡ some h
      → is_running a ≡ is_running_state h.core.state
  unfolding is_running
  is_running-hosted a h there = simp (is_running, there)

  -- An agent that does not run refuses each of them, and stays as it is.
  pub send-not_running :
      (m : Manual) (draw : Draw) (a : E3Agent Model Factory Connector Handler)
      → is_running a ≡ false
      → send m draw a ≡ some (a, ErrorCode.not_initialized)
  unfolding queue_if_running
  send-not_running m draw a idle = elim (Option-cases a.interface) [
    | inl bare ↦ send-queue_if_running m draw a ∙ simp (queue_if_running, bare)
    | inr (h, there) ↦
        let state : is_running_state h.core.state ≡ false =
          sym (is_running-hosted a h there) ∙ idle in
        send-queue_if_running m draw a ∙ simp (queue_if_running, there, state)
  ]

  -- On a running agent whose queue holds some PDUs and has positions left, send_indication,
  -- send_xapp_control and send_message_ack return with the answer of push, and the agent goes on
  -- running with a queue that holds what push leaves: on an open queue with a free place, the
  -- earlier PDUs and then the PDU of the method's type, with the members given, the message id
  -- drawn and the clock.
  pub send-queues :
      (m : Manual) (draw : Draw) (a : E3Agent Model Factory Connector Handler)
      (queue : ResponseQueue) (xs : List Pdu) (room : ℕ)
      → is_running a ≡ true
      → QueueIs a queue
      → Holds queue xs (suc room)
      → (a' : E3Agent Model Factory Connector Handler) × (queue' : ResponseQueue) × (send m draw a
          ≡ some (a', push_answer queue xs))
        × QueueIs a' queue'
        × Holds queue' (push_contents (pdu_of m draw) queue xs) room
        × (is_running a' ≡ true)
  unfolding queue_if_running is_running Core.queue_outbound
  send-queues m draw a queue xs room running (h, there, queue_is) held =
      let (queue', pushed, held', closed, same) = push-Holds (pdu_of m draw) queue xs room held in
      let h' = record h { core = record h.core { response_queue = some queue' } } in
      let state : is_running_state h.core.state ≡ true =
        sym (is_running-hosted a h there) ∙ running in
      (
        record a { interface = some h' },
        queue',
        send-queue_if_running m draw a
            ∙ simp (queue_if_running, there, state, Core.queue_outbound, queue_is, pushed),
        (h', refl, refl),
        held',
        state,
      )
