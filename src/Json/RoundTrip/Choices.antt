-- ===== src/Json/RoundTrip/Choices.antt =====
-- Every message, by the type that its PDU has.
use d_app_libe.Base.{◌<◌, ◌^◌, ◌≡◌, refl, some}
use d_app_libe.Types.{PduType, PduChoice}
use d_app_libe.Types.Names.{pdu_type_to_string}
use d_app_libe.Json.Hex.{Octets}
use d_app_libe.Json.Library.{Json, JsonLaws, Words, WordIf, Each}
use d_app_libe.Json.Encode.{encode_choice}
use d_app_libe.Json.Decode.{string_to_pdu_type}
use d_app_libe.Json.Codec.{decode_choice}
use d_app_libe.Json.RoundTrip.Requests.{
  without_periodicity, decode-encode_setup_request, decode-encode_subscription_delete,
  decode-encode_subscription_request, decode-encode_subscription_response,
  decode-encode_message_ack, decode-encode_release_message,
}
use d_app_libe.Json.RoundTrip.Actions.{
  decode-encode_indication_message, decode-encode_dapp_control_action, decode-encode_dapp_report,
  decode-encode_xapp_control_action,
}
use d_app_libe.Json.RoundTrip.Responses.{FunctionFits, decode-encode_setup_response}

-- The type whose branch of the decoder makes the message.
abbrev pub type_of : PduChoice → PduType
type_of (PduChoice.setup_request m) = PduType.setup_request
type_of (PduChoice.setup_response m) = PduType.setup_response
type_of (PduChoice.subscription_request m) = PduType.subscription_request
type_of (PduChoice.subscription_delete m) = PduType.subscription_delete
type_of (PduChoice.subscription_response m) = PduType.subscription_response
type_of (PduChoice.indication_message m) = PduType.indication_message
type_of (PduChoice.dapp_control_action m) = PduType.dapp_control_action
type_of (PduChoice.dapp_report m) = PduType.dapp_report
type_of (PduChoice.xapp_control_action m) = PduType.xapp_control_action
type_of (PduChoice.release_message m) = PduType.release_message
type_of (PduChoice.message_ack m) = PduType.message_ack

-- The message without what the encoder leaves out.
abbrev pub delivered : PduChoice → PduChoice
delivered (PduChoice.subscription_request m) =
    PduChoice.subscription_request (without_periodicity m)
delivered c = c

-- The numbers have the widths of the C++ members.
abbrev pub Fits : PduChoice → Type 0
Fits (PduChoice.setup_request m) = Unit
Fits (PduChoice.setup_response m) =
    (m.request_id < 2 ^ 32) × WordIf m.dapp_identifier × Each FunctionFits m.ran_function_list
Fits (PduChoice.subscription_request m) =
    (m.dapp_identifier < 2 ^ 32)
    × (m.ran_function_identifier < 2 ^ 32)
    × Words m.telemetry_identifier_list
    × Words m.control_identifier_list
    × WordIf m.subscription_time
Fits (PduChoice.subscription_delete m) = (m.dapp_identifier < 2 ^ 32) × (m.subscription_id < 2 ^ 32)
Fits (PduChoice.subscription_response m) =
    (m.request_id < 2 ^ 32) × (m.dapp_identifier < 2 ^ 32) × WordIf m.subscription_id
Fits (PduChoice.indication_message m) =
    (m.dapp_identifier < 2 ^ 32) × (m.ran_function_identifier < 2 ^ 32) × Octets m.protocol_data
Fits (PduChoice.dapp_control_action m) =
    (m.dapp_identifier < 2 ^ 32)
    × (m.ran_function_identifier < 2 ^ 32)
    × (m.control_identifier < 2 ^ 32)
    × Octets m.action_data
Fits (PduChoice.dapp_report m) =
    (m.dapp_identifier < 2 ^ 32) × (m.ran_function_identifier < 2 ^ 32) × Octets m.report_data
Fits (PduChoice.xapp_control_action m) =
    (m.dapp_identifier < 2 ^ 32) × (m.ran_function_identifier < 2 ^ 32) × Octets m.xapp_control_data
Fits (PduChoice.release_message m) = m.dapp_identifier < 2 ^ 32
Fits (PduChoice.message_ack m) = m.request_id < 2 ^ 32

pub delivered-laws :
    (c : PduChoice)
    → (type_of (delivered c) ≡ type_of c)
      × (delivered (delivered c) ≡ delivered c)
      × (Fits c → Fits (delivered c))
unfolding without_periodicity
delivered-laws (PduChoice.setup_request m) = (refl, refl, λ h. h)
delivered-laws (PduChoice.setup_response m) = (refl, refl, λ h. h)
delivered-laws (PduChoice.subscription_request m) = (refl, refl, λ h. h)
delivered-laws (PduChoice.subscription_delete m) = (refl, refl, λ h. h)
delivered-laws (PduChoice.subscription_response m) = (refl, refl, λ h. h)
delivered-laws (PduChoice.indication_message m) = (refl, refl, λ h. h)
delivered-laws (PduChoice.dapp_control_action m) = (refl, refl, λ h. h)
delivered-laws (PduChoice.dapp_report m) = (refl, refl, λ h. h)
delivered-laws (PduChoice.xapp_control_action m) = (refl, refl, λ h. h)
delivered-laws (PduChoice.release_message m) = (refl, refl, λ h. h)
delivered-laws (PduChoice.message_ack m) = (refl, refl, λ h. h)

pub string_to_pdu_type-pdu_type_to_string :
    (t : PduType) → string_to_pdu_type (pdu_type_to_string t) ≡ t
unfolding string_to_pdu_type pdu_type_to_string
string_to_pdu_type-pdu_type_to_string PduType.setup_request = refl
string_to_pdu_type-pdu_type_to_string PduType.setup_response = refl
string_to_pdu_type-pdu_type_to_string PduType.subscription_request = refl
string_to_pdu_type-pdu_type_to_string PduType.subscription_delete = refl
string_to_pdu_type-pdu_type_to_string PduType.subscription_response = refl
string_to_pdu_type-pdu_type_to_string PduType.indication_message = refl
string_to_pdu_type-pdu_type_to_string PduType.dapp_control_action = refl
string_to_pdu_type-pdu_type_to_string PduType.dapp_report = refl
string_to_pdu_type-pdu_type_to_string PduType.xapp_control_action = refl
string_to_pdu_type-pdu_type_to_string PduType.release_message = refl
string_to_pdu_type-pdu_type_to_string PduType.message_ack = refl

module _ {J : Type 0} (json : Json J) (laws : JsonLaws json) where
  pub decode_choice-encode_choice :
      (c : PduChoice)
      → Fits c
      → decode_choice json (type_of c) (encode_choice json c) ≡ some (delivered c)
  unfolding decode_choice encode_choice
  decode_choice-encode_choice (PduChoice.setup_request m) h =
      rw (decode-encode_setup_request json laws m)
  decode_choice-encode_choice (PduChoice.setup_response m) (r, d, f) =
      rw (decode-encode_setup_response json laws m r d f)
  decode_choice-encode_choice (PduChoice.subscription_request m) (d, r, t, c, s) =
      rw (decode-encode_subscription_request json laws m d r t c s)
  decode_choice-encode_choice (PduChoice.subscription_delete m) (d, i) =
      rw (decode-encode_subscription_delete json laws m d i)
  decode_choice-encode_choice (PduChoice.subscription_response m) (r, d, i) =
      rw (decode-encode_subscription_response json laws m r d i)
  decode_choice-encode_choice (PduChoice.indication_message m) (d, r, o) =
      rw (decode-encode_indication_message json laws m d r o)
  decode_choice-encode_choice (PduChoice.dapp_control_action m) (d, r, c, o) =
      rw (decode-encode_dapp_control_action json laws m d r c o)
  decode_choice-encode_choice (PduChoice.dapp_report m) (d, r, o) =
      rw (decode-encode_dapp_report json laws m d r o)
  decode_choice-encode_choice (PduChoice.xapp_control_action m) (d, r, o) =
      rw (decode-encode_xapp_control_action json laws m d r o)
  decode_choice-encode_choice (PduChoice.release_message m) d =
      rw (decode-encode_release_message json laws m d)
  decode_choice-encode_choice (PduChoice.message_ack m) r =
      rw (decode-encode_message_ack json laws m r)
