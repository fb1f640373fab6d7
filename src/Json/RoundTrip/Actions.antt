-- ===== src/Json/RoundTrip/Actions.antt =====
-- The messages that carry octets: indications, control actions and reports.
use d_app_libe.Base.{◌<◌, ◌^◌, ◌≡◌, refl, some}
use d_app_libe.Types.{IndicationMessage, DAppControlAction, DAppReport, XAppControlAction}
use d_app_libe.Json.Hex.{Octets, binary_to_hex, hex_to_binary-binary_to_hex}
use d_app_libe.Json.Library.{Json, JsonLaws}
use d_app_libe.Json.Objects.{reads_text, reads_uint32}
use d_app_libe.Json.Encode.{
  encode_indication_message, encode_dapp_control_action, encode_dapp_report,
  encode_xapp_control_action,
}
use d_app_libe.Json.Decode.{
  decode_indication_message, decode_dapp_control_action, decode_dapp_report,
  decode_xapp_control_action,
}

module _ {J : Type 0} (json : Json J) (laws : JsonLaws json) where
  pub decode-encode_indication_message :
      (m : IndicationMessage)
      → m.dapp_identifier < 2 ^ 32
      → m.ran_function_identifier < 2 ^ 32
      → Octets m.protocol_data
      → decode_indication_message json (encode_indication_message json m) ≡ some m
  unfolding encode_indication_message decode_indication_message
  decode-encode_indication_message m d r o = rw (
    reads_uint32 json laws _ _ _ "dapp_identifier" m.dapp_identifier 0 d refl,
    reads_uint32 json laws _ _ _ "ran_function_identifier" m.ran_function_identifier 0 r refl,
    reads_text json laws _ _ _ "protocol_data" (binary_to_hex m.protocol_data) "" refl,
    hex_to_binary-binary_to_hex m.protocol_data o,
  )

  pub decode-encode_dapp_control_action :
      (m : DAppControlAction)
      → m.dapp_identifier < 2 ^ 32
      → m.ran_function_identifier < 2 ^ 32
      → m.control_identifier < 2 ^ 32
      → Octets m.action_data
      → decode_dapp_control_action json (encode_dapp_control_action json m) ≡ some m
  unfolding encode_dapp_control_action decode_dapp_control_action
  decode-encode_dapp_control_action m d r c o = rw (
    reads_uint32 json laws _ _ _ "dapp_identifier" m.dapp_identifier 0 d refl,
    reads_uint32 json laws _ _ _ "ran_function_identifier" m.ran_function_identifier 0 r refl,
    reads_uint32 json laws _ _ _ "control_identifier" m.control_identifier 0 c refl,
    reads_text json laws _ _ _ "action_data" (binary_to_hex m.action_data) "" refl,
    hex_to_binary-binary_to_hex m.action_data o,
  )

  pub decode-encode_dapp_report :
      (m : DAppReport)
      → m.dapp_identifier < 2 ^ 32
      → m.ran_function_identifier < 2 ^ 32
      → Octets m.report_data
      → decode_dapp_report json (encode_dapp_report json m) ≡ some m
  unfolding encode_dapp_report decode_dapp_report
  decode-encode_dapp_report m d r o = rw (
    reads_uint32 json laws _ _ _ "dapp_identifier" m.dapp_identifier 0 d refl,
    reads_uint32 json laws _ _ _ "ran_function_identifier" m.ran_function_identifier 0 r refl,
    reads_text json laws _ _ _ "report_data" (binary_to_hex m.report_data) "" refl,
    hex_to_binary-binary_to_hex m.report_data o,
  )

  pub decode-encode_xapp_control_action :
      (m : XAppControlAction)
      → m.dapp_identifier < 2 ^ 32
      → m.ran_function_identifier < 2 ^ 32
      → Octets m.xapp_control_data
      → decode_xapp_control_action json (encode_xapp_control_action json m) ≡ some m
  unfolding encode_xapp_control_action decode_xapp_control_action
  decode-encode_xapp_control_action m d r o = rw (
    reads_uint32 json laws _ _ _ "dapp_identifier" m.dapp_identifier 0 d refl,
    reads_uint32 json laws _ _ _ "ran_function_identifier" m.ran_function_identifier 0 r refl,
    reads_text json laws _ _ _ "xapp_control_data" (binary_to_hex m.xapp_control_data) "" refl,
    hex_to_binary-binary_to_hex m.xapp_control_data o,
  )
