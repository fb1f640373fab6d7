-- ===== src/Encoder/Build.antt =====
-- The convenience methods of E3Encoder. `encode` is the method of the derived class, and the clock
-- is the one that stamps the new PDU.
use Prim.Native.String.{String}
use d_app_libe.Base.{ℕ, Option, List}
use d_app_libe.Types.{ResponseCode, PduType, RanFunctionDef, PduChoice, Pdu, make_pdu}
use d_app_libe.Encoder.Results.{EncodeResult, EncodedMessage}

-- `Pdu pdu(type); pdu.message_id = id; pdu.choice = choice;`
unfoldable pub identified : PduType → ℕ → PduChoice → ℕ → Pdu
unfolding make_pdu
identified type id choice clock = record {
  type = type;
  choice = choice;
  message_id = id;
  timestamp = (make_pdu type choice clock).timestamp;
}

module _ (encode : Pdu → EncodeResult EncodedMessage) (clock message_id : ℕ) where
  unfoldable pub encode_setup_request :
      String → String → String → String → EncodeResult EncodedMessage
  unfolding identified
  encode_setup_request version name dapp_version vendor = encode (
      identified PduType.setup_request message_id
        (PduChoice.setup_request (record {
          e3ap_protocol_version = version;
          dapp_name = name;
          dapp_version = dapp_version;
          vendor = vendor;
        }))
        clock)

  unfoldable pub encode_setup_response :
      ℕ
      → ResponseCode
      → Option String
      → Option ℕ
      → String
      → List RanFunctionDef
      → EncodeResult EncodedMessage
  unfolding identified
  encode_setup_response request_id code version dapp ran funcs = encode (
      identified PduType.setup_response message_id
        (PduChoice.setup_response (record {
          request_id = request_id;
          response_code = code;
          e3ap_protocol_version = version;
          dapp_identifier = dapp;
          ran_identifier = ran;
          ran_function_list = funcs;
        }))
        clock)

  unfoldable pub encode_subscription_request :
      ℕ → ℕ → List ℕ → List ℕ → Option ℕ → EncodeResult EncodedMessage
  unfolding identified
  encode_subscription_request dapp ran_function telemetry control time = encode (
      identified PduType.subscription_request message_id
        (PduChoice.subscription_request (record {
          dapp_identifier = dapp;
          ran_function_identifier = ran_function;
          telemetry_identifier_list = telemetry;
          control_identifier_list = control;
          subscription_time = time;
          periodicity = Option.none;
        }))
        clock)

  unfoldable pub encode_subscription_delete : ℕ → ℕ → EncodeResult EncodedMessage
  unfolding identified
  encode_subscription_delete dapp id = encode (
      identified PduType.subscription_delete message_id
        (PduChoice.subscription_delete (record { dapp_identifier = dapp; subscription_id = id }))
        clock)

  unfoldable pub encode_subscription_response :
      ℕ → ℕ → ResponseCode → Option ℕ → EncodeResult EncodedMessage
  unfolding identified
  encode_subscription_response request_id dapp code id = encode (
      identified PduType.subscription_response message_id
        (PduChoice.subscription_response (record {
          request_id = request_id;
          dapp_identifier = dapp;
          response_code = code;
          subscription_id = id;
        }))
        clock)

  unfoldable pub encode_indication_message : ℕ → ℕ → List ℕ → EncodeResult EncodedMessage
  unfolding identified
  encode_indication_message dapp ran_function content = encode (
      identified PduType.indication_message message_id
        (PduChoice.indication_message (record {
          dapp_identifier = dapp;
          ran_function_identifier = ran_function;
          protocol_data = content;
        }))
        clock)

  unfoldable pub encode_dapp_control_action : ℕ → ℕ → ℕ → List ℕ → EncodeResult EncodedMessage
  unfolding identified
  encode_dapp_control_action dapp ran_function control content = encode (
      identified PduType.dapp_control_action message_id
        (PduChoice.dapp_control_action (record {
          dapp_identifier = dapp;
          ran_function_identifier = ran_function;
          control_identifier = control;
          action_data = content;
        }))
        clock)

  unfoldable pub encode_dapp_report : ℕ → ℕ → List ℕ → EncodeResult EncodedMessage
  unfolding identified
  encode_dapp_report dapp ran_function content = encode (
      identified PduType.dapp_report message_id
        (PduChoice.dapp_report (record {
          dapp_identifier = dapp;
          ran_function_identifier = ran_function;
          report_data = content;
        }))
        clock)

  unfoldable pub encode_xapp_control_action : ℕ → ℕ → List ℕ → EncodeResult EncodedMessage
  unfolding identified
  encode_xapp_control_action dapp ran_function content = encode (
      identified PduType.xapp_control_action message_id
        (PduChoice.xapp_control_action (record {
          dapp_identifier = dapp;
          ran_function_identifier = ran_function;
          xapp_control_data = content;
        }))
        clock)

  unfoldable pub encode_message_ack : ℕ → ResponseCode → EncodeResult EncodedMessage
  unfolding identified
  encode_message_ack request_id code = encode (
      identified PduType.message_ack message_id
        (PduChoice.message_ack (record { request_id = request_id; response_code = code })) clock)
