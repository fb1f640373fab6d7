-- ===== src/Json/Delivery.antt =====
-- The encoder between its users: the convenience methods of E3Encoder on one side, and the switch of
-- E3Interface on the other.
use d_app_libe.Base.{ℕ, ◌<◌, ◌^◌, ◌≡◌, refl, sym, ap, ◌∙◌, Option, none, some}
use d_app_libe.Types.{ErrorCode, PduChoice, Pdu, DAppControlAction}
use d_app_libe.Response.Defs.{ResponseQueue}
use d_app_libe.Registry.Defs.{ServiceModel}
use d_app_libe.Interface.Defs.{Session, Draw, handle_subscription_request}
use d_app_libe.Interface.Dispatch.{dispatch, dispatch_on}
use d_app_libe.Encoder.{EncodeResult, EncodedMessage}
use d_app_libe.Encoder.Build.{
  identified, encode_setup_request, encode_setup_response, encode_subscription_request,
  encode_subscription_delete, encode_subscription_response, encode_indication_message,
  encode_dapp_control_action, encode_dapp_report, encode_xapp_control_action, encode_message_ack,
}
use d_app_libe.Json.Library.{Json, JsonLaws}
use d_app_libe.Json.Codec.{encode, decode}
use d_app_libe.Json.RoundTrip.Requests.{without_periodicity}
use d_app_libe.Json.RoundTrip.Choices.{type_of, delivered, Fits, delivered-laws}
use d_app_libe.Json.RoundTrip.Pdus.{IsValid, delivered_pdu, decode-encode}

-- The convenience method for a message, called with the message's members. There is none for a
-- release message.
module _ (encode_pdu : Pdu → EncodeResult EncodedMessage) (clock id : ℕ) where
  abbrev pub by_method : PduChoice → Option (EncodeResult EncodedMessage)
  by_method (PduChoice.setup_request m) = some (
      encode_setup_request encode_pdu clock id m.e3ap_protocol_version m.dapp_name m.dapp_version
        m.vendor)
  by_method (PduChoice.setup_response m) = some (
      encode_setup_response encode_pdu clock id m.request_id m.response_code m.e3ap_protocol_version
        m.dapp_identifier m.ran_identifier m.ran_function_list)
  by_method (PduChoice.subscription_request m) = some (
      encode_subscription_request encode_pdu clock id m.dapp_identifier m.ran_function_identifier
        m.telemetry_identifier_list m.control_identifier_list m.subscription_time)
  by_method (PduChoice.subscription_delete m) =
      some (encode_subscription_delete encode_pdu clock id m.dapp_identifier m.subscription_id)
  by_method (PduChoice.subscription_response m) = some (
      encode_subscription_response encode_pdu clock id m.request_id m.dapp_identifier
        m.response_code m.subscription_id)
  by_method (PduChoice.indication_message m) = some (
      encode_indication_message encode_pdu clock id m.dapp_identifier m.ran_function_identifier
        m.protocol_data)
  by_method (PduChoice.dapp_control_action m) = some (
      encode_dapp_control_action encode_pdu clock id m.dapp_identifier m.ran_function_identifier
        m.control_identifier m.action_data)
  by_method (PduChoice.dapp_report m) = some (
      encode_dapp_report encode_pdu clock id m.dapp_identifier m.ran_function_identifier
        m.report_data)
  by_method (PduChoice.xapp_control_action m) = some (
      encode_xapp_control_action encode_pdu clock id m.dapp_identifier m.ran_function_identifier
        m.xapp_control_data)
  by_method (PduChoice.release_message m) = none
  by_method (PduChoice.message_ack m) =
      some (encode_message_ack encode_pdu clock id m.request_id m.response_code)

  by_method-encodes :
      (c : PduChoice) (r : EncodeResult EncodedMessage)
      → by_method c ≡ some r
      → r ≡ encode_pdu (identified (type_of c) id (delivered c) clock)
  unfolding encode_setup_request encode_setup_response encode_subscription_request
      encode_subscription_delete encode_subscription_response encode_indication_message
      encode_dapp_control_action encode_dapp_report encode_xapp_control_action encode_message_ack
      without_periodicity
  by_method-encodes (PduChoice.setup_request m) r e = cc
  by_method-encodes (PduChoice.setup_response m) r e = cc
  by_method-encodes (PduChoice.subscription_request m) r e = cc
  by_method-encodes (PduChoice.subscription_delete m) r e = cc
  by_method-encodes (PduChoice.subscription_response m) r e = cc
  by_method-encodes (PduChoice.indication_message m) r e = cc
  by_method-encodes (PduChoice.dapp_control_action m) r e = cc
  by_method-encodes (PduChoice.dapp_report m) r e = cc
  by_method-encodes (PduChoice.xapp_control_action m) r e = cc
  by_method-encodes (PduChoice.release_message m) r e = cc
  by_method-encodes (PduChoice.message_ack m) r e = cc

module _ {J : Type 0} (json : Json J) (laws : JsonLaws json) where
  module _ {ℓ} {Model Factory : Type ℓ} (sm : ServiceModel Model)
      (create : Factory → Option Model × Factory)
      (control : ℕ
        → DAppControlAction
        → Model
        → ResponseQueue
        → ErrorCode × Model × ResponseQueue) where
    dispatch_on-delivered :
        (c : PduChoice) (id : ℕ) (draw : Draw) (s : Session Model Factory)
        → dispatch_on sm create control (type_of c) (delivered c) id draw s
          ≡ dispatch_on sm create control (type_of c) c id draw s
    unfolding dispatch_on handle_subscription_request without_periodicity
    dispatch_on-delivered (PduChoice.setup_request m) id draw s = refl
    dispatch_on-delivered (PduChoice.setup_response m) id draw s = refl
    dispatch_on-delivered (PduChoice.subscription_request m) id draw s = refl
    dispatch_on-delivered (PduChoice.subscription_delete m) id draw s = refl
    dispatch_on-delivered (PduChoice.subscription_response m) id draw s = refl
    dispatch_on-delivered (PduChoice.indication_message m) id draw s = refl
    dispatch_on-delivered (PduChoice.dapp_control_action m) id draw s = refl
    dispatch_on-delivered (PduChoice.dapp_report m) id draw s = refl
    dispatch_on-delivered (PduChoice.xapp_control_action m) id draw s = refl
    dispatch_on-delivered (PduChoice.release_message m) id draw s = refl
    dispatch_on-delivered (PduChoice.message_ack m) id draw s = refl

    dispatch-delivered :
        (pdu : Pdu) (draw : Draw) (s : Session Model Factory)
        → type_of pdu.choice ≡ pdu.type
        → dispatch sm create control (delivered_pdu pdu) draw s
          ≡ dispatch sm create control pdu draw s
    unfolding dispatch
    dispatch-delivered pdu draw s typed =
        rw (sym typed) (dispatch_on-delivered pdu.choice pdu.message_id draw s)

    -- For such a library and such a PDU, encode gives a message whose octets decode to a PDU on
    -- which E3Interface's switch acts as on the PDU itself: the same session, in every session and
    -- for every draw of a message id and the clock.
    pub dispatch-decode-encode :
        (pdu : Pdu) (draw : Draw) (s : Session Model Factory)
        → IsValid pdu
        → (m : EncodedMessage) × (received : Pdu) × (encode json pdu ≡ EncodeResult.expected m)
          × (decode json m.buffer ≡ EncodeResult.expected received)
          × (dispatch sm create control received draw s ≡ dispatch sm create control pdu draw s)
    dispatch-decode-encode pdu draw s valid =
        let (m, e, format, d) = decode-encode json laws pdu valid in
        (m, delivered_pdu pdu, e, d, dispatch-delivered pdu draw s valid.typed)

  identified-IsValid :
      (c : PduChoice) (clock id : ℕ)
      → Fits c
      → id < 2 ^ 32
      → clock < 2 ^ 64
      → IsValid (identified (type_of c) id (delivered c) clock)
  unfolding identified
  identified-IsValid c clock id fits i t =
      let (same_type, same, still) = delivered-laws c in
      record { typed = same_type; fits = still fits; id_fits = i; time_fits = t }

  delivered-identified :
      (c : PduChoice) (clock id : ℕ)
      → delivered_pdu (identified (type_of c) id (delivered c) clock)
        ≡ identified (type_of c) id (delivered c) clock
  unfolding identified
  delivered-identified c clock id = let (same_type, same, still) = delivered-laws c in rw same

  -- For such a library, what a convenience method of E3Encoder encodes of members that fit, with a
  -- 32-bit message id and a 64-bit clock, decodes to the PDU of the message's type with this id,
  -- this time and these members, but that the periodicity of a subscription request is absent.
  pub decode-by_method :
      (c : PduChoice) (clock id : ℕ) (r : EncodeResult EncodedMessage)
      → Fits c
      → id < 2 ^ 32
      → clock < 2 ^ 64
      → by_method (encode json) clock id c ≡ some r
      → (m : EncodedMessage) × (r ≡ EncodeResult.expected m)
        × (decode json m.buffer
            ≡ EncodeResult.expected (identified (type_of c) id (delivered c) clock))
  decode-by_method c clock id r fits i t e =
      let sent = by_method-encodes (encode json) clock id c r e in
      let (m, encoded, format, decoded) =
        decode-encode json laws (identified (type_of c) id (delivered c) clock)
          (identified-IsValid c clock id fits i t) in
      (m, sent ∙ encoded, decoded ∙ ap EncodeResult.expected (delivered-identified c clock id))
