-- ===== src/Json/Encode.antt =====
-- The documents that JsonE3Encoder makes of the messages.
use Prim.Native.String.{String}
use d_app_libe.Base.{List, [], ◌∷◌, ◌++◌}
use d_app_libe.Types.{
  ResponseCode, SetupRequest, RanFunctionDef, SetupResponse, SubscriptionRequest,
  SubscriptionDelete, SubscriptionResponse, IndicationMessage, DAppControlAction, DAppReport,
  XAppControlAction, ReleaseMessage, MessageAck, PduChoice, Pdu,
}
use d_app_libe.Types.Names.{pdu_type_to_string}
use d_app_libe.Json.Hex.{binary_to_hex}
use d_app_libe.Json.Library.{Json}
use d_app_libe.Json.Objects.{object}
use d_app_libe.Json.Objects.Optional.{member_if}

unfoldable pub response_text : ResponseCode → String
response_text ResponseCode.positive = "positive"
response_text ResponseCode.negative = "negative"

module _ {J : Type 0} (json : Json J) where
  unfoldable pub encode_setup_request : SetupRequest → J
  encode_setup_request req = object json (
      ("e3ap_protocol_version", json.text req.e3ap_protocol_version)
      ∷ ("dapp_name", json.text req.dapp_name)
      ∷ ("dapp_version", json.text req.dapp_version)
      ∷ ("vendor", json.text req.vendor)
      ∷ [])

  unfoldable pub encode_ran_function : RanFunctionDef → J
  encode_ran_function func = object json (
      ("ran_function_identifier", json.uint func.ran_function_identifier)
      ∷ ("telemetry_identifier_list", json.uints func.telemetry_identifier_list)
      ∷ ("control_identifier_list", json.uints func.control_identifier_list)
      ∷ ("ran_function_data", json.text (binary_to_hex func.ran_function_data))
      ∷ [])

  unfoldable pub encode_ran_functions : List RanFunctionDef → List J
  unfolding encode_ran_function
  encode_ran_functions [] = []
  encode_ran_functions (func ∷ funcs) = encode_ran_function func ∷ encode_ran_functions funcs

  -- The list is written if it is not empty.
  abbrev pub ran_function_member : List RanFunctionDef → List (String × J)
  ran_function_member [] = []
  ran_function_member (func ∷ funcs) =
      ("ran_function_list", json.array (encode_ran_functions (func ∷ funcs))) ∷ []

  unfoldable pub encode_setup_response : SetupResponse → J
  unfolding response_text encode_ran_functions
  encode_setup_response resp = object json (
      ("request_id", json.uint resp.request_id)
      ∷ ("response_code", json.text (response_text resp.response_code))
      ∷ (member_if "e3ap_protocol_version" json.text resp.e3ap_protocol_version
          ++ (member_if "dapp_identifier" json.uint resp.dapp_identifier
              ++ (("ran_identifier", json.text resp.ran_identifier)
                  ∷ ran_function_member resp.ran_function_list))))

  unfoldable pub encode_subscription_request : SubscriptionRequest → J
  encode_subscription_request req = object json (
      ("dapp_identifier", json.uint req.dapp_identifier)
      ∷ ("ran_function_identifier", json.uint req.ran_function_identifier)
      ∷ ("telemetry_identifier_list", json.uints req.telemetry_identifier_list)
      ∷ ("control_identifier_list", json.uints req.control_identifier_list)
      ∷ member_if "subscription_time" json.uint req.subscription_time)

  unfoldable pub encode_subscription_delete : SubscriptionDelete → J
  encode_subscription_delete del = object json (
      ("dapp_identifier", json.uint del.dapp_identifier)
      ∷ ("subscription_id", json.uint del.subscription_id)
      ∷ [])

  unfoldable pub encode_subscription_response : SubscriptionResponse → J
  unfolding response_text
  encode_subscription_response resp = object json (
      ("request_id", json.uint resp.request_id)
      ∷ ("dapp_identifier", json.uint resp.dapp_identifier)
      ∷ ("response_code", json.text (response_text resp.response_code))
      ∷ member_if "subscription_id" json.uint resp.subscription_id)

  unfoldable pub encode_indication_message : IndicationMessage → J
  encode_indication_message msg = object json (
      ("dapp_identifier", json.uint msg.dapp_identifier)
      ∷ ("ran_function_identifier", json.uint msg.ran_function_identifier)
      ∷ ("protocol_data", json.text (binary_to_hex msg.protocol_data))
      ∷ [])

  unfoldable pub encode_dapp_control_action : DAppControlAction → J
  encode_dapp_control_action action = object json (
      ("dapp_identifier", json.uint action.dapp_identifier)
      ∷ ("ran_function_identifier", json.uint action.ran_function_identifier)
      ∷ ("control_identifier", json.uint action.control_identifier)
      ∷ ("action_data", json.text (binary_to_hex action.action_data))
      ∷ [])

  unfoldable pub encode_dapp_report : DAppReport → J
  encode_dapp_report report = object json (
      ("dapp_identifier", json.uint report.dapp_identifier)
      ∷ ("ran_function_identifier", json.uint report.ran_function_identifier)
      ∷ ("report_data", json.text (binary_to_hex report.report_data))
      ∷ [])

  unfoldable pub encode_xapp_control_action : XAppControlAction → J
  encode_xapp_control_action action = object json (
      ("dapp_identifier", json.uint action.dapp_identifier)
      ∷ ("ran_function_identifier", json.uint action.ran_function_identifier)
      ∷ ("xapp_control_data", json.text (binary_to_hex action.xapp_control_data))
      ∷ [])

  unfoldable pub encode_message_ack : MessageAck → J
  unfolding response_text
  encode_message_ack ack = object json (
      ("request_id", json.uint ack.request_id)
      ∷ ("response_code", json.text (response_text ack.response_code))
      ∷ [])

  unfoldable pub encode_release_message : ReleaseMessage → J
  encode_release_message msg = object json (("dapp_identifier", json.uint msg.dapp_identifier) ∷ [])

  -- The visitor of `encode`.
  unfoldable pub encode_choice : PduChoice → J
  unfolding encode_setup_request encode_setup_response encode_subscription_request
      encode_subscription_delete encode_subscription_response encode_indication_message
      encode_dapp_control_action encode_dapp_report encode_xapp_control_action
      encode_release_message encode_message_ack
  encode_choice (PduChoice.setup_request m) = encode_setup_request m
  encode_choice (PduChoice.setup_response m) = encode_setup_response m
  encode_choice (PduChoice.subscription_request m) = encode_subscription_request m
  encode_choice (PduChoice.subscription_delete m) = encode_subscription_delete m
  encode_choice (PduChoice.subscription_response m) = encode_subscription_response m
  encode_choice (PduChoice.indication_message m) = encode_indication_message m
  encode_choice (PduChoice.dapp_control_action m) = encode_dapp_control_action m
  encode_choice (PduChoice.dapp_report m) = encode_dapp_report m
  encode_choice (PduChoice.xapp_control_action m) = encode_xapp_control_action m
  encode_choice (PduChoice.release_message m) = encode_release_message m
  encode_choice (PduChoice.message_ack m) = encode_message_ack m

  -- The document of a PDU, before it is dumped.
  unfoldable pub root_of : Pdu → J
  unfolding encode_choice
  root_of pdu = object json (
      ("pdu_type", json.text (pdu_type_to_string pdu.type))
      ∷ ("message_id", json.uint pdu.message_id)
      ∷ ("timestamp", json.uint pdu.timestamp)
      ∷ ("data", encode_choice pdu.choice)
      ∷ [])
