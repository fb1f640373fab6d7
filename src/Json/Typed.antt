-- ===== src/Json/Typed.antt =====
-- What the decoder gives, whatever the octets and the library.
use d_app_libe.Base.{
  ℕ, ◌≡◌, refl, Bool, true, false, if◌then◌else◌, Option, none, some, List, [], ◌∷◌,
}
use d_app_libe.Base.Options.{◌>>=◌, AllOf, >>=-AllOf}
use d_app_libe.Types.{ErrorCode, PduType, PduChoice, Pdu}
use d_app_libe.Encoder.{EncodeResult}
use d_app_libe.Json.Library.{Json}
use d_app_libe.Json.Decode.{
  string_to_pdu_type, decode_setup_request, decode_setup_response, decode_subscription_request,
  decode_subscription_delete, decode_subscription_response, decode_indication_message,
  decode_dapp_control_action, decode_dapp_report, decode_xapp_control_action,
  decode_release_message, decode_message_ack,
}
use d_app_libe.Json.Codec.{decode, decode_root, decode_choice, or_decode_failed}
use d_app_libe.Json.RoundTrip.Choices.{type_of}

module _ {J : Type 0} (json : Json J) where
  decode_choice-type_of :
      (t : PduType) (j : J) → AllOf (λ c. type_of c ≡ t) (decode_choice json t j)
  unfolding decode_choice
  decode_choice-type_of PduType.setup_request j =
      >>=-AllOf _ (decode_setup_request json j) _ (λ m. refl)
  decode_choice-type_of PduType.setup_response j =
      >>=-AllOf _ (decode_setup_response json j) _ (λ m. refl)
  decode_choice-type_of PduType.subscription_request j =
      >>=-AllOf _ (decode_subscription_request json j) _ (λ m. refl)
  decode_choice-type_of PduType.subscription_delete j =
      >>=-AllOf _ (decode_subscription_delete json j) _ (λ m. refl)
  decode_choice-type_of PduType.subscription_response j =
      >>=-AllOf _ (decode_subscription_response json j) _ (λ m. refl)
  decode_choice-type_of PduType.indication_message j =
      >>=-AllOf _ (decode_indication_message json j) _ (λ m. refl)
  decode_choice-type_of PduType.dapp_control_action j =
      >>=-AllOf _ (decode_dapp_control_action json j) _ (λ m. refl)
  decode_choice-type_of PduType.dapp_report j =
      >>=-AllOf _ (decode_dapp_report json j) _ (λ m. refl)
  decode_choice-type_of PduType.xapp_control_action j =
      >>=-AllOf _ (decode_xapp_control_action json j) _ (λ m. refl)
  decode_choice-type_of PduType.release_message j =
      >>=-AllOf _ (decode_release_message json j) _ (λ m. refl)
  decode_choice-type_of PduType.message_ack j =
      >>=-AllOf _ (decode_message_ack json j) _ (λ m. refl)

  -- A PDU whose type is that of its contents.
  abbrev pub IsTyped : Pdu → Type 0
  IsTyped pdu = type_of pdu.choice ≡ pdu.type

  data-IsTyped :
      (present : Bool) (t : PduType) (j : J) (id time : ℕ)
      → AllOf IsTyped (
          (if present then decode_choice json t j else none) >>= λ choice.
          some (record { type = t; choice = choice; message_id = id; timestamp = time }))
  data-IsTyped false t j id time = tt
  data-IsTyped true t j id time = typed_choice (decode_choice json t j) (decode_choice-type_of t j)
    where
      typed_choice :
          (o : Option PduChoice)
          → AllOf (λ c. type_of c ≡ t) o
          → AllOf IsTyped (
              o >>= λ choice.
              some (record { type = t; choice = choice; message_id = id; timestamp = time }))
      typed_choice none h = tt
      typed_choice (some c) h = h

  decode_root-IsTyped : (root : J) → AllOf IsTyped (decode_root json root)
  unfolding decode_root
  decode_root-IsTyped root = >>=-AllOf IsTyped (json.value_text root "pdu_type" "") _ (λ text.
      >>=-AllOf IsTyped (json.value_uint32 root "message_id" 0) _ (λ id.
        >>=-AllOf IsTyped (json.value_uint64 root "timestamp" 0) _ (λ time.
          data-IsTyped (json.contains root "data") (string_to_pdu_type text) (json.at root "data")
            id time)))

  -- A PDU that is typed, or DECODE_FAILED.
  abbrev pub IsOutcome : EncodeResult Pdu → Type 0
  IsOutcome (EncodeResult.expected pdu) = IsTyped pdu
  IsOutcome (EncodeResult.unexpected code) = code ≡ ErrorCode.decode_failed

  or_decode_failed-IsOutcome :
      (o : Option Pdu) → AllOf IsTyped o → IsOutcome (or_decode_failed json o)
  or_decode_failed-IsOutcome none h = refl
  or_decode_failed-IsOutcome (some pdu) h = h

  -- For every JSON library and all octets, decode gives a PDU whose contents are those of its type,
  -- or DECODE_FAILED.
  pub decode-IsOutcome : (octets : List ℕ) → IsOutcome (decode json octets)
  unfolding decode
  decode-IsOutcome [] = refl
  decode-IsOutcome (b ∷ bs) =
      or_decode_failed-IsOutcome (json.parse (b ∷ bs) >>= decode_root json)
        (>>=-AllOf IsTyped (json.parse (b ∷ bs)) (decode_root json) decode_root-IsTyped)
