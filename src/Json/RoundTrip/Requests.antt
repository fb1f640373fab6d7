-- ===== src/Json/RoundTrip/Requests.antt =====
-- The messages of a dApp's session: setup, subscription and acknowledgement.
use d_app_libe.Base.{◌<◌, ◌^◌, ◌≡◌, refl, none, some, []}
use d_app_libe.Types.{
  ResponseCode, SetupRequest, SubscriptionDelete, SubscriptionRequest, SubscriptionResponse,
  MessageAck, ReleaseMessage,
}
use d_app_libe.Json.Library.{Json, JsonLaws, Words, WordIf}
use d_app_libe.Json.Objects.{reads_text, reads_uint32, reads_uints}
use d_app_libe.Json.Objects.Optional.{
  reads_optional, read_if-uint32, assigned-member_if_last, assigned-member_if_skip,
}
use d_app_libe.Json.Encode.{
  response_text, encode_setup_request, encode_subscription_delete, encode_subscription_request,
  encode_subscription_response, encode_message_ack, encode_release_message,
}
use d_app_libe.Json.Decode.{
  response_code_of, decode_setup_request, decode_subscription_delete, decode_subscription_request,
  decode_subscription_response, decode_message_ack, decode_release_message,
}

pub response_code_of-response_text : (c : ResponseCode) → response_code_of (response_text c) ≡ c
unfolding response_code_of response_text
response_code_of-response_text ResponseCode.positive = refl
response_code_of-response_text ResponseCode.negative = refl

-- The members of a subscription request that are written.
unfoldable pub without_periodicity : SubscriptionRequest → SubscriptionRequest
without_periodicity m = record {
  dapp_identifier = m.dapp_identifier;
  ran_function_identifier = m.ran_function_identifier;
  telemetry_identifier_list = m.telemetry_identifier_list;
  control_identifier_list = m.control_identifier_list;
  subscription_time = m.subscription_time;
  periodicity = none;
}

module _ {J : Type 0} (json : Json J) (laws : JsonLaws json) where
  pub decode-encode_setup_request :
      (m : SetupRequest) → decode_setup_request json (encode_setup_request json m) ≡ some m
  unfolding encode_setup_request decode_setup_request
  decode-encode_setup_request m = rw (
    reads_text json laws _ _ _ "e3ap_protocol_version" m.e3ap_protocol_version "" refl,
    reads_text json laws _ _ _ "dapp_name" m.dapp_name "" refl,
    reads_text json laws _ _ _ "dapp_version" m.dapp_version "" refl,
    reads_text json laws _ _ _ "vendor" m.vendor "" refl,
  )

  pub decode-encode_subscription_delete :
      (m : SubscriptionDelete)
      → m.dapp_identifier < 2 ^ 32
      → m.subscription_id < 2 ^ 32
      → decode_subscription_delete json (encode_subscription_delete json m) ≡ some m
  unfolding encode_subscription_delete decode_subscription_delete
  decode-encode_subscription_delete m d i = rw (
    reads_uint32 json laws _ _ _ "dapp_identifier" m.dapp_identifier 0 d refl,
    reads_uint32 json laws _ _ _ "subscription_id" m.subscription_id 0 i refl,
  )

  pub decode-encode_release_message :
      (m : ReleaseMessage)
      → m.dapp_identifier < 2 ^ 32
      → decode_release_message json (encode_release_message json m) ≡ some m
  unfolding encode_release_message decode_release_message
  decode-encode_release_message m d =
      rw (reads_uint32 json laws _ _ _ "dapp_identifier" m.dapp_identifier 0 d refl)

  pub decode-encode_message_ack :
      (m : MessageAck)
      → m.request_id < 2 ^ 32
      → decode_message_ack json (encode_message_ack json m) ≡ some m
  unfolding encode_message_ack decode_message_ack
  decode-encode_message_ack m r = rw (
    reads_uint32 json laws _ _ _ "request_id" m.request_id 0 r refl,
    reads_text json laws _ _ _ "response_code" (response_text m.response_code) "negative" refl,
    response_code_of-response_text m.response_code,
  )

  pub decode-encode_subscription_response :
      (m : SubscriptionResponse)
      → m.request_id < 2 ^ 32
      → m.dapp_identifier < 2 ^ 32
      → WordIf m.subscription_id
      → decode_subscription_response json (encode_subscription_response json m) ≡ some m
  unfolding encode_subscription_response decode_subscription_response
  decode-encode_subscription_response m r d i = rw (
    reads_uint32 json laws _ _ _ "request_id" m.request_id 0 r
        (assigned-member_if_skip "subscription_id" _ json.uint m.subscription_id refl),
    reads_uint32 json laws _ _ _ "dapp_identifier" m.dapp_identifier 0 d
        (assigned-member_if_skip "subscription_id" _ json.uint m.subscription_id refl),
    reads_text json laws _ _ _ "response_code" (response_text m.response_code) "negative"
        (assigned-member_if_skip "subscription_id" _ json.uint m.subscription_id refl),
    response_code_of-response_text m.response_code,
    reads_optional json laws _ _ _ "subscription_id" json.get_uint32,
    assigned-member_if_last "subscription_id" json.uint m.subscription_id refl,
    read_if-uint32 json laws m.subscription_id i,
  )

  pub decode-encode_subscription_request :
      (m : SubscriptionRequest)
      → m.dapp_identifier < 2 ^ 32
      → m.ran_function_identifier < 2 ^ 32
      → Words m.telemetry_identifier_list
      → Words m.control_identifier_list
      → WordIf m.subscription_time
      → decode_subscription_request json (encode_subscription_request json m)
        ≡ some (without_periodicity m)
  unfolding encode_subscription_request decode_subscription_request without_periodicity
  decode-encode_subscription_request m d r t c s = rw (
    reads_uint32 json laws _ _ _ "dapp_identifier" m.dapp_identifier 0 d
        (assigned-member_if_skip "subscription_time" _ json.uint m.subscription_time refl),
    reads_uint32 json laws _ _ _ "ran_function_identifier" m.ran_function_identifier 0 r
        (assigned-member_if_skip "subscription_time" _ json.uint m.subscription_time refl),
    reads_uints json laws _ _ _ "telemetry_identifier_list" m.telemetry_identifier_list [] t
        (assigned-member_if_skip "subscription_time" _ json.uint m.subscription_time refl),
    reads_uints json laws _ _ _ "control_identifier_list" m.control_identifier_list [] c
        (assigned-member_if_skip "subscription_time" _ json.uint m.subscription_time refl),
    reads_optional json laws _ _ _ "subscription_time" json.get_uint32,
    assigned-member_if_last "subscription_time" json.uint m.subscription_time refl,
    read_if-uint32 json laws m.subscription_time s,
  )
