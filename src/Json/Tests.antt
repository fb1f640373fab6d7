-- ===== src/Json/Tests.antt =====
-- A library of documents, and the encoder's theorems with it.
mod Scalars
mod Trees
use d_app_libe.Base.{ℕ, ◌≡◌, refl, none, some, List, [], ◌∷◌, ◌^◌, arith}
use d_app_libe.Types.{
  ErrorCode, ResponseCode, EncodingFormat, PduType, PduChoice, Pdu, SetupResponse,
  SubscriptionRequest,
}
use d_app_libe.Encoder.{EncodeResult, EncodedMessage}
use d_app_libe.Encoder.Build.{identified, encode_setup_response}
use d_app_libe.Json.Codec.{encode, decode}
use d_app_libe.Json.Hex.{chars_of, binary_to_hex, hex_to_binary, hex_to_binary-binary_to_hex}
use d_app_libe.Json.Typed.{decode-IsOutcome, IsOutcome}
use d_app_libe.Json.Delivery.{by_method, dispatch-decode-encode, decode-by_method}
use d_app_libe.Json.RoundTrip.Choices.{type_of, delivered}
use d_app_libe.Json.RoundTrip.Pdus.{IsValid, delivered_pdu, decode-encode}
use d_app_libe.Interface.Dispatch.{dispatch}
use d_app_libe.Interface.Defs.{Draw}
use d_app_libe.Interface.Loops.{subscriber_loop}
use d_app_libe.Json.Streams.{octets_of, pdu_of, receipts_of, dispatch_each, subscriber_loop-encode}
use d_app_libe.Interface.Samples.{lamps, control, draw, session}
use Trees.{Tree, trees, trees-JsonLaws}

abbrev request : SubscriptionRequest
request = record {
  dapp_identifier = 1;
  ran_function_identifier = 7;
  telemetry_identifier_list = 3 ∷ 4 ∷ [];
  control_identifier_list = [];
  subscription_time = some 60;
  periodicity = some 1000;
}

abbrev requested : Pdu
requested = record {
  type = PduType.subscription_request;
  choice = PduChoice.subscription_request request;
  message_id = 21;
  timestamp = 3;
}

requested-IsValid : IsValid requested
requested-IsValid = record {
  typed = refl;
  fits = (omega arith, omega arith, (omega arith, (omega arith, tt)), tt, omega arith);
  id_fits = omega arith;
  time_fits = omega arith;
}

abbrev setup : SetupResponse
setup = record {
  request_id = 5;
  response_code = ResponseCode.positive;
  e3ap_protocol_version = some "0.0.0";
  dapp_identifier = some 1;
  ran_identifier = "ran";
  ran_function_list =
      record {
        ran_function_identifier = 7;
        telemetry_identifier_list = 3 ∷ [];
        control_identifier_list = [];
        ran_function_data = 255 ∷ 16 ∷ [];
      }
      ∷ [];
}

abbrev answer : EncodeResult EncodedMessage
answer =
    encode_setup_response (encode trees) 4 9 5 ResponseCode.positive (some "0.0.0") (some 1) "ran"
      setup.ran_function_list

hex_to_binary-binary_to_hex_example :
    hex_to_binary (binary_to_hex (255 ∷ 16 ∷ [])) ≡ some (255 ∷ 16 ∷ [])
hex_to_binary-binary_to_hex_example =
    hex_to_binary-binary_to_hex (255 ∷ 16 ∷ []) (omega arith, (omega arith, tt))

reads_octets :
    (chars_of "é" ≡ 195 ∷ 169 ∷ [])
    × (hex_to_binary "0xF+é" ≡ none)
    × (hex_to_binary "F+ 9aé" ≡ some (15 ∷ 9 ∷ 10 ∷ []))
unfolding chars_of hex_to_binary
reads_octets = (refl, refl, refl)

decode-encode_example :
    (m : EncodedMessage) × (encode trees requested ≡ EncodeResult.expected m)
    × (m.format ≡ EncodingFormat.json)
    × (decode trees m.buffer ≡ EncodeResult.expected (delivered_pdu requested))
decode-encode_example = decode-encode trees trees-JsonLaws requested requested-IsValid

decode-IsOutcome_example : IsOutcome trees (decode trees (1 ∷ 0 ∷ []))
decode-IsOutcome_example = decode-IsOutcome trees (1 ∷ 0 ∷ [])

decode-by_method_example :
    (m : EncodedMessage) × (answer ≡ EncodeResult.expected m)
    × (decode trees m.buffer
        ≡ EncodeResult.expected
            (identified PduType.setup_response 9 (PduChoice.setup_response setup) 4))
decode-by_method_example =
    decode-by_method trees trees-JsonLaws (PduChoice.setup_response setup) 4 9 answer
      (
        omega arith,
        omega arith,
        ((omega arith, (omega arith, tt), tt, (omega arith, (omega arith, tt))), tt),
      )
      (omega arith) (omega arith) refl

abbrev received_messages : List (Pdu × Draw)
received_messages = (requested, draw) ∷ (requested, draw) ∷ []

subscriber_loop-encode_example :
    subscriber_loop lamps
      (λ n. (none, n))
      control
      (λ pdu. octets_of (encode trees pdu))
      (λ octets. pdu_of (decode trees octets))
      ErrorCode.success
      (receipts_of trees trees-JsonLaws received_messages)
      session
    ≡ dispatch_each trees trees-JsonLaws lamps (λ n. (none, n)) control received_messages session
subscriber_loop-encode_example =
    subscriber_loop-encode trees trees-JsonLaws lamps (λ n. (none, n)) control received_messages
      session (requested-IsValid, (requested-IsValid, tt))
