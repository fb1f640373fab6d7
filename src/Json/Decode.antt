-- ===== src/Json/Decode.antt =====
-- The messages that JsonE3Encoder reads from documents. `none` is an exception.
use Prim.Native.String.{String}
use text.Mathlib.Text.{◌==◌}
use d_app_libe.Base.{ℕ, if◌then◌else◌, Option, none, some, List, [], ◌∷◌}
use d_app_libe.Base.Options.{◌>>=◌}
use d_app_libe.Types.{
  ErrorCode, ResponseCode, PduType, SetupRequest, RanFunctionDef, SetupResponse,
  SubscriptionRequest, SubscriptionDelete, SubscriptionResponse, IndicationMessage,
  DAppControlAction, DAppReport, XAppControlAction, ReleaseMessage, MessageAck,
}
use d_app_libe.Json.Hex.{hex_to_binary}
use d_app_libe.Json.Library.{Json}
use d_app_libe.Json.Objects.Optional.{optional}

-- A text that names no type is read as the first type.
unfoldable pub string_to_pdu_type : String → PduType
string_to_pdu_type s =
    if s == "SetupRequest"
    then PduType.setup_request
    else if s == "SetupResponse"
    then PduType.setup_response
    else if s == "SubscriptionRequest"
    then PduType.subscription_request
    else if s == "SubscriptionDelete"
    then PduType.subscription_delete
    else if s == "SubscriptionResponse"
    then PduType.subscription_response
    else if s == "IndicationMessage"
    then PduType.indication_message
    else if s == "DAppControlAction"
    then PduType.dapp_control_action
    else if s == "DAppReport"
    then PduType.dapp_report
    else if s == "XAppControlAction"
    then PduType.xapp_control_action
    else if s == "ReleaseMessage"
    then PduType.release_message
    else if s == "MessageAck"
    then PduType.message_ack
    else PduType.setup_request

unfoldable pub string_to_error_code : String → ErrorCode
string_to_error_code s =
    if s == "SUCCESS"
    then ErrorCode.success
    else if s == "INVALID_PARAM"
    then ErrorCode.invalid_param
    else if s == "TIMEOUT"
    then ErrorCode.timeout
    else if s == "NOT_FOUND"
    then ErrorCode.not_found
    else ErrorCode.generic_error

unfoldable pub response_code_of : String → ResponseCode
response_code_of s = if s == "positive" then ResponseCode.positive else ResponseCode.negative

module _ {J : Type 0} (json : Json J) where
  -- A text of hexadecimal digits, empty if there is none.
  abbrev pub binary : J → String → Option (List ℕ)
  binary j k = json.value_text j k "" >>= hex_to_binary

  abbrev pub response_code : J → Option ResponseCode
  response_code j = json.value_text j "response_code" "negative" >>= λ s. some (response_code_of s)

  unfoldable pub decode_setup_request : J → Option SetupRequest
  decode_setup_request j = do
    version ← json.value_text j "e3ap_protocol_version" ""
    name ← json.value_text j "dapp_name" ""
    dapp_version ← json.value_text j "dapp_version" ""
    vendor ← json.value_text j "vendor" ""
    some (record {
      e3ap_protocol_version = version;
      dapp_name = name;
      dapp_version = dapp_version;
      vendor = vendor;
    })

  unfoldable pub decode_ran_function : J → Option RanFunctionDef
  decode_ran_function j = do
    id ← json.value_uint32 j "ran_function_identifier" 0
    telemetry ← json.value_uints j "telemetry_identifier_list" []
    control ← json.value_uints j "control_identifier_list" []
    content ← binary j "ran_function_data"
    some (record {
      ran_function_identifier = id;
      telemetry_identifier_list = telemetry;
      control_identifier_list = control;
      ran_function_data = content;
    })

  unfoldable pub decode_ran_functions : List J → Option (List RanFunctionDef)
  unfolding decode_ran_function
  decode_ran_functions [] = some []
  decode_ran_functions (j ∷ js) = do
    func ← decode_ran_function j
    funcs ← decode_ran_functions js
    some (func ∷ funcs)

  unfoldable pub decode_setup_response : J → Option SetupResponse
  unfolding decode_ran_functions response_code_of
  decode_setup_response j = do
    request_id ← json.value_uint32 j "request_id" 0
    code ← response_code j
    version ← optional json json.get_text j "e3ap_protocol_version"
    dapp ← optional json json.get_uint32 j "dapp_identifier"
    ran ← json.value_text j "ran_identifier" ""
    funcs ←
        (if json.contains j "ran_function_list"
          then decode_ran_functions (json.items (json.at j "ran_function_list"))
          else some [])
    some (record {
      request_id = request_id;
      response_code = code;
      e3ap_protocol_version = version;
      dapp_identifier = dapp;
      ran_identifier = ran;
      ran_function_list = funcs;
    })

  unfoldable pub decode_subscription_request : J → Option SubscriptionRequest
  decode_subscription_request j = do
    dapp ← json.value_uint32 j "dapp_identifier" 0
    ran_function ← json.value_uint32 j "ran_function_identifier" 0
    telemetry ← json.value_uints j "telemetry_identifier_list" []
    control ← json.value_uints j "control_identifier_list" []
    time ← optional json json.get_uint32 j "subscription_time"
    some (record {
      dapp_identifier = dapp;
      ran_function_identifier = ran_function;
      telemetry_identifier_list = telemetry;
      control_identifier_list = control;
      subscription_time = time;
      periodicity = none;
    })

  unfoldable pub decode_subscription_delete : J → Option SubscriptionDelete
  decode_subscription_delete j = do
    dapp ← json.value_uint32 j "dapp_identifier" 0
    id ← json.value_uint32 j "subscription_id" 0
    some (record { dapp_identifier = dapp; subscription_id = id })

  unfoldable pub decode_subscription_response : J → Option SubscriptionResponse
  unfolding response_code_of
  decode_subscription_response j = do
    request_id ← json.value_uint32 j "request_id" 0
    dapp ← json.value_uint32 j "dapp_identifier" 0
    code ← response_code j
    id ← optional json json.get_uint32 j "subscription_id"
    some (record {
      request_id = request_id;
      dapp_identifier = dapp;
      response_code = code;
      subscription_id = id;
    })

  unfoldable pub decode_indication_message : J → Option IndicationMessage
  decode_indication_message j = do
    dapp ← json.value_uint32 j "dapp_identifier" 0
    ran_function ← json.value_uint32 j "ran_function_identifier" 0
    content ← binary j "protocol_data"
    some (record {
      dapp_identifier = dapp;
      ran_function_identifier = ran_function;
      protocol_data = content;
    })

  unfoldable pub decode_dapp_control_action : J → Option DAppControlAction
  decode_dapp_control_action j = do
    dapp ← json.value_uint32 j "dapp_identifier" 0
    ran_function ← json.value_uint32 j "ran_function_identifier" 0
    control ← json.value_uint32 j "control_identifier" 0
    content ← binary j "action_data"
    some (record {
      dapp_identifier = dapp;
      ran_function_identifier = ran_function;
      control_identifier = control;
      action_data = content;
    })

  unfoldable pub decode_dapp_report : J → Option DAppReport
  decode_dapp_report j = do
    dapp ← json.value_uint32 j "dapp_identifier" 0
    ran_function ← json.value_uint32 j "ran_function_identifier" 0
    content ← binary j "report_data"
    some (record {
      dapp_identifier = dapp;
      ran_function_identifier = ran_function;
      report_data = content;
    })

  unfoldable pub decode_xapp_control_action : J → Option XAppControlAction
  decode_xapp_control_action j = do
    dapp ← json.value_uint32 j "dapp_identifier" 0
    ran_function ← json.value_uint32 j "ran_function_identifier" 0
    content ← binary j "xapp_control_data"
    some (record {
      dapp_identifier = dapp;
      ran_function_identifier = ran_function;
      xapp_control_data = content;
    })

  unfoldable pub decode_message_ack : J → Option MessageAck
  unfolding response_code_of
  decode_message_ack j = do
    request_id ← json.value_uint32 j "request_id" 0
    code ← response_code j
    some (record { request_id = request_id; response_code = code })

  unfoldable pub decode_release_message : J → Option ReleaseMessage
  decode_release_message j = do
    dapp ← json.value_uint32 j "dapp_identifier" 0
    some (record { dapp_identifier = dapp })
