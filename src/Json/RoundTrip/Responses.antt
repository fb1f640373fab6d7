-- ===== src/Json/RoundTrip/Responses.antt =====
-- Setup responses, with their list of RAN functions.
use Prim.Native.String.{String}
use text.Mathlib.Text.{◌==◌}
use d_app_libe.Base.{
  ◌<◌, ◌^◌, ◌≡◌, refl, ◌∙◌, if◌then◌else◌, ◌++◌, Option, none, some, List, [], ◌∷◌, ap,
  Option-is_some, false,
}
use d_app_libe.Types.{RanFunctionDef, SetupResponse}
use d_app_libe.Json.Hex.{Octets, binary_to_hex, hex_to_binary-binary_to_hex}
use d_app_libe.Json.Library.{Json, JsonLaws, Words, WordIf, Each}
use d_app_libe.Json.Objects.{
  object, reads_text, reads_uint32, reads_uints, assigned, contains-object, at-object,
}
use d_app_libe.Json.Objects.Optional.{
  reads_optional, read_if-uint32, read_if-text, member_if, written_if, assigned-member_if,
  assigned-member_if_same,
}
use d_app_libe.Json.Encode.{
  response_text, encode_ran_function, encode_ran_functions, ran_function_member,
  encode_setup_response,
}
use d_app_libe.Json.Decode.{decode_ran_function, decode_ran_functions, decode_setup_response}
use d_app_libe.Json.RoundTrip.Requests.{response_code_of-response_text}

abbrev pub FunctionFits : RanFunctionDef → Type 0
FunctionFits m =
    (m.ran_function_identifier < 2 ^ 32)
    × Words m.telemetry_identifier_list
    × Words m.control_identifier_list
    × Octets m.ran_function_data

module _ {J : Type 0} (json : Json J) (laws : JsonLaws json) where
  decode-encode_ran_function :
      (m : RanFunctionDef)
      → FunctionFits m
      → decode_ran_function json (encode_ran_function json m) ≡ some m
  unfolding encode_ran_function decode_ran_function
  decode-encode_ran_function m (r, t, c, o) = rw (
    reads_uint32 json laws _ _ _ "ran_function_identifier" m.ran_function_identifier 0 r refl,
    reads_uints json laws _ _ _ "telemetry_identifier_list" m.telemetry_identifier_list [] t refl,
    reads_uints json laws _ _ _ "control_identifier_list" m.control_identifier_list [] c refl,
    reads_text json laws _ _ _ "ran_function_data" (binary_to_hex m.ran_function_data) "" refl,
    hex_to_binary-binary_to_hex m.ran_function_data o,
  )

  decode-encode_ran_functions :
      (ms : List RanFunctionDef)
      → Each FunctionFits ms
      → decode_ran_functions json (encode_ran_functions json ms) ≡ some ms
  unfolding encode_ran_functions decode_ran_functions
  decode-encode_ran_functions [] h = refl
  decode-encode_ran_functions (m ∷ ms) h =
      rw (decode-encode_ran_function m h.0, decode-encode_ran_functions ms h.1)

  -- What the optional members of a setup response leave under a key.
  module _ (found : Option J) (l : String) where
    after_list :
        (fs : List RanFunctionDef)
        → ("ran_function_list" == l) ≡ false
        → assigned found l (ran_function_member json fs) ≡ found
    after_list [] other = refl
    after_list (f ∷ fs) other = rw other

    after_ran :
        (fs : List RanFunctionDef) (ran : String)
        → ("ran_identifier" == l) ≡ false
        → ("ran_function_list" == l) ≡ false
        → assigned found l (("ran_identifier", json.text ran) ∷ ran_function_member json fs) ≡ found
    after_ran fs ran a b = rw (assigned, a) (after_list fs b)

  -- A document that holds the list, if there is one, under its key.
  list_read :
      (j : J) (fs : List RanFunctionDef)
      → Each FunctionFits fs
      → json.contains j "ran_function_list"
        ≡ Option-is_some (assigned none "ran_function_list" (ran_function_member json fs))
      → ((w : J)
          → assigned none "ran_function_list" (ran_function_member json fs) ≡ some w
          → json.at j "ran_function_list" ≡ w)
      → (if json.contains j "ran_function_list"
          then decode_ran_functions json (json.items (json.at j "ran_function_list"))
          else some [])
        ≡ some fs
  list_read j [] fits c a = rw c
  list_read j (f ∷ fs) fits c a =
      rw (c, a _ refl, laws.items_array (encode_ran_functions json (f ∷ fs)))
        (decode-encode_ran_functions (f ∷ fs) fits)

  module _ (m : SetupResponse) where
    abbrev last_members : List (String × J)
    last_members =
        ("ran_identifier", json.text m.ran_identifier)
        ∷ ran_function_member json m.ran_function_list

    abbrev dapp_members : List (String × J)
    dapp_members = member_if "dapp_identifier" json.uint m.dapp_identifier ++ last_members

    abbrev late_members : List (String × J)
    late_members =
        member_if "e3ap_protocol_version" json.text m.e3ap_protocol_version ++ dapp_members

    to_last :
        (found : Option J) (l : String)
        → ("e3ap_protocol_version" == l) ≡ false
        → ("dapp_identifier" == l) ≡ false
        → assigned found l late_members ≡ assigned found l last_members
    to_last found l v d =
        assigned-member_if found "e3ap_protocol_version" l json.text m.e3ap_protocol_version
          dapp_members v
        ∙ assigned-member_if found "dapp_identifier" l json.uint m.dapp_identifier last_members d

    late :
        (found : Option J) (l : String)
        → ("e3ap_protocol_version" == l) ≡ false
        → ("dapp_identifier" == l) ≡ false
        → ("ran_identifier" == l) ≡ false
        → ("ran_function_list" == l) ≡ false
        → assigned found l late_members ≡ found
    late found l v d r f =
        to_last found l v d ∙ after_ran found l m.ran_function_list m.ran_identifier r f

    late_version :
        assigned none "e3ap_protocol_version" late_members
        ≡ written_if json.text m.e3ap_protocol_version
    late_version =
        assigned-member_if_same "e3ap_protocol_version" json.text m.e3ap_protocol_version
          dapp_members refl
        ∙ assigned-member_if _ "dapp_identifier" _ json.uint m.dapp_identifier last_members refl
        ∙ after_ran _ "e3ap_protocol_version" m.ran_function_list m.ran_identifier refl refl

    late_dapp :
        assigned none "dapp_identifier" late_members ≡ written_if json.uint m.dapp_identifier
    late_dapp =
        assigned-member_if none "e3ap_protocol_version" _ json.text m.e3ap_protocol_version
          dapp_members refl
        ∙ assigned-member_if_same "dapp_identifier" json.uint m.dapp_identifier last_members refl
        ∙ after_ran _ "dapp_identifier" m.ran_function_list m.ran_identifier refl refl

    late_ran : assigned none "ran_identifier" late_members ≡ some (json.text m.ran_identifier)
    late_ran =
        to_last none "ran_identifier" refl refl
        ∙ after_list (some (json.text m.ran_identifier)) "ran_identifier" m.ran_function_list refl

    late_list :
        assigned none "ran_function_list" late_members
        ≡ assigned none "ran_function_list" (ran_function_member json m.ran_function_list)
    late_list = to_last none "ran_function_list" refl refl

  module _ (m : SetupResponse) where
    abbrev after_request_id : List (String × J)
    after_request_id = ("response_code", json.text (response_text m.response_code)) ∷ late_members m

    abbrev response : J
    response = object json (("request_id", json.uint m.request_id) ∷ after_request_id)

    setup_list :
        Each FunctionFits m.ran_function_list
        → (if json.contains response "ran_function_list"
            then decode_ran_functions json (json.items (json.at response "ran_function_list"))
            else some [])
          ≡ some m.ran_function_list
    setup_list fits =
        list_read response m.ran_function_list fits
          (contains-object json laws "request_id" (json.uint m.request_id) after_request_id
              "ran_function_list"
            ∙ ap Option-is_some (late_list m))
          (λ w e.
            at-object json laws "request_id" (json.uint m.request_id) after_request_id
              "ran_function_list" w (late_list m ∙ e))

  pub decode-encode_setup_response :
      (m : SetupResponse)
      → m.request_id < 2 ^ 32
      → WordIf m.dapp_identifier
      → Each FunctionFits m.ran_function_list
      → decode_setup_response json (encode_setup_response json m) ≡ some m
  unfolding encode_setup_response decode_setup_response
  decode-encode_setup_response m r d f = rw (
    reads_uint32 json laws _ _ _ "request_id" m.request_id 0 r
        (late m _ "request_id" refl refl refl refl),
    reads_text json laws _ _ _ "response_code" (response_text m.response_code) "negative"
        (late m _ "response_code" refl refl refl refl),
    response_code_of-response_text m.response_code,
    reads_optional json laws _ _ _ "e3ap_protocol_version" json.get_text,
    late_version m,
    read_if-text json laws m.e3ap_protocol_version,
    reads_optional json laws _ _ _ "dapp_identifier" json.get_uint32,
    late_dapp m,
    read_if-uint32 json laws m.dapp_identifier d,
    reads_text json laws _ _ _ "ran_identifier" m.ran_identifier "" (late_ran m),
    setup_list m f,
  )
