-- ===== src/Json/Codec.antt =====
-- encode and decode of JsonE3Encoder.
use d_app_libe.Base.{ℕ, if◌then◌else◌, Option, none, some, List, [], ◌∷◌}
use d_app_libe.Base.Options.{◌>>=◌}
use d_app_libe.Types.{ErrorCode, EncodingFormat, PduType, PduChoice, Pdu}
use d_app_libe.Encoder.{EncodeResult, EncodedMessage}
use d_app_libe.Json.Library.{Json}
use d_app_libe.Json.Encode.{root_of}
use d_app_libe.Json.Decode.{
  string_to_pdu_type, decode_setup_request, decode_setup_response, decode_subscription_request,
  decode_subscription_delete, decode_subscription_response, decode_indication_message,
  decode_dapp_control_action, decode_dapp_report, decode_xapp_control_action,
  decode_release_message, decode_message_ack,
}

module _ {J : Type 0} (json : Json J) where
  unfoldable pub encode : Pdu → EncodeResult EncodedMessage
  unfolding root_of
  encode pdu = elim (json.dump (root_of json pdu)) [
    | none ↦ EncodeResult.unexpected ErrorCode.encode_failed
    | some octets ↦ EncodeResult.expected (record { buffer = octets; format = EncodingFormat.json })
  ]

  abbrev pub read_as : {A : Type 0} → (A → PduChoice) → Option A → Option PduChoice
  read_as make m = m >>= λ a. some (make a)

  -- The switch on the type.
  unfoldable pub decode_choice : PduType → J → Option PduChoice
  unfolding decode_setup_request decode_setup_response decode_subscription_request
      decode_subscription_delete decode_subscription_response decode_indication_message
      decode_dapp_control_action decode_dapp_report decode_xapp_control_action
      decode_release_message decode_message_ack
  decode_choice PduType.setup_request j =
      read_as PduChoice.setup_request (decode_setup_request json j)
  decode_choice PduType.setup_response j =
      read_as PduChoice.setup_response (decode_setup_response json j)
  decode_choice PduType.subscription_request j =
      read_as PduChoice.subscription_request (decode_subscription_request json j)
  decode_choice PduType.subscription_delete j =
      read_as PduChoice.subscription_delete (decode_subscription_delete json j)
  decode_choice PduType.subscription_response j =
      read_as PduChoice.subscription_response (decode_subscription_response json j)
  decode_choice PduType.indication_message j =
      read_as PduChoice.indication_message (decode_indication_message json j)
  decode_choice PduType.dapp_control_action j =
      read_as PduChoice.dapp_control_action (decode_dapp_control_action json j)
  decode_choice PduType.dapp_report j = read_as PduChoice.dapp_report (decode_dapp_report json j)
  decode_choice PduType.xapp_control_action j =
      read_as PduChoice.xapp_control_action (decode_xapp_control_action json j)
  decode_choice PduType.release_message j =
      read_as PduChoice.release_message (decode_release_message json j)
  decode_choice PduType.message_ack j = read_as PduChoice.message_ack (decode_message_ack json j)

  -- The document is read member by member; without `data` the result is an error, as after an
  -- exception.
  unfoldable pub decode_root : J → Option Pdu
  unfolding string_to_pdu_type decode_choice
  decode_root root = do
    type_text ← json.value_text root "pdu_type" ""
    id ← json.value_uint32 root "message_id" 0
    timestamp ← json.value_uint64 root "timestamp" 0
    choice ←
        (if json.contains root "data"
          then decode_choice (string_to_pdu_type type_text) (json.at root "data")
          else none)
    some (record {
      type = string_to_pdu_type type_text;
      choice = choice;
      message_id = id;
      timestamp = timestamp;
    })

  abbrev pub or_decode_failed : Option Pdu → EncodeResult Pdu
  or_decode_failed none = EncodeResult.unexpected ErrorCode.decode_failed
  or_decode_failed (some pdu) = EncodeResult.expected pdu

  unfoldable pub decode : List ℕ → EncodeResult Pdu
  unfolding decode_root
  decode [] = EncodeResult.unexpected ErrorCode.decode_failed
  decode (b ∷ bs) = or_decode_failed (json.parse (b ∷ bs) >>= decode_root)
