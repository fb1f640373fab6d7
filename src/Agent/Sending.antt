-- ===== src/Agent/Sending.antt =====
-- The methods of E3Agent that send.
use d_app_libe.Base.{ℕ, if◌then◌else◌, Option, none, some, List}
use d_app_libe.Types.{ErrorCode, ResponseCode, PduType, PduChoice, Pdu}
use d_app_libe.Interface.Defs.{Draw, new_pdu, message_ack_of}
use d_app_libe.Interface.Lifecycle.{E3Connector, E3Interface}
use d_app_libe.Interface.Lifecycle as Core
use d_app_libe.Agent.Defs.{E3Agent, is_running_state}

module _ {ℓ} {Model Factory Connector Handler : Type ℓ} where
  -- The guard and the last line of the three methods that send.
  unfoldable pub queue_if_running :
      Pdu
      → E3Agent Model Factory Connector Handler
      → Option (E3Agent Model Factory Connector Handler × ErrorCode)
  queue_if_running pdu a = elim a.interface [
    | none ↦ some (a, ErrorCode.not_initialized)
    | some h ↦
        if is_running_state h.core.state
        then elim (Core.queue_outbound pdu h.core) [
          | none ↦ none
          | some (i, code) ↦ some (record a { interface = some (record h { core = i }) }, code)
        ]
        else some (a, ErrorCode.not_initialized)
  ]

  unfoldable pub send_indication :
      ℕ
      → ℕ
      → List ℕ
      → Draw
      → E3Agent Model Factory Connector Handler
      → Option (E3Agent Model Factory Connector Handler × ErrorCode)
  unfolding queue_if_running new_pdu
  send_indication dapp_id ran_function_id content draw = queue_if_running (
      new_pdu PduType.indication_message
        (PduChoice.indication_message (record {
          dapp_identifier = dapp_id;
          ran_function_identifier = ran_function_id;
          protocol_data = content;
        }))
        draw)

  unfoldable pub send_xapp_control :
      ℕ
      → ℕ
      → List ℕ
      → Draw
      → E3Agent Model Factory Connector Handler
      → Option (E3Agent Model Factory Connector Handler × ErrorCode)
  unfolding queue_if_running new_pdu
  send_xapp_control dapp_id ran_function_id content draw = queue_if_running (
      new_pdu PduType.xapp_control_action
        (PduChoice.xapp_control_action (record {
          dapp_identifier = dapp_id;
          ran_function_identifier = ran_function_id;
          xapp_control_data = content;
        }))
        draw)

  unfoldable pub send_message_ack :
      ℕ
      → ResponseCode
      → Draw
      → E3Agent Model Factory Connector Handler
      → Option (E3Agent Model Factory Connector Handler × ErrorCode)
  unfolding queue_if_running message_ack_of
  send_message_ack request_id code draw = queue_if_running (message_ack_of request_id code draw)
