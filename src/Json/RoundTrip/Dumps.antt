-- ===== src/Json/RoundTrip/Dumps.antt =====
-- The documents of PDUs can be dumped.
use d_app_libe.Base.{List, [], ◌∷◌, ◌++◌, Option, none, some}
use Prim.Native.String.{String}
use d_app_libe.Types.{PduChoice, Pdu, RanFunctionDef, SetupResponse}
use d_app_libe.Json.Library.{Json, JsonLaws, Each}
use d_app_libe.Json.Objects.{EachMember, object-IsDumpable}
use d_app_libe.Json.Objects.Optional.{member_if}
use d_app_libe.Json.Encode.{
  encode_ran_function, encode_ran_functions, ran_function_member, encode_setup_response,
  encode_choice, root_of, encode_setup_request, encode_subscription_request,
  encode_subscription_delete, encode_subscription_response, encode_indication_message,
  encode_dapp_control_action, encode_dapp_report, encode_xapp_control_action,
  encode_release_message, encode_message_ack,
}

module _ {J : Type 0} (P : J → Type 0) where
  EachMember-append :
      (ms ns : List (String × J)) → EachMember P ms → EachMember P ns → EachMember P (ms ++ ns)
  EachMember-append [] ns a b = b
  EachMember-append (m ∷ ms) ns a b = (a.0, EachMember-append ms ns a.1 b)

  EachMember-member_if :
      {A : Type 0} (k : String) (make : A → J) (o : Option A)
      → ((a : A) → P (make a))
      → EachMember P (member_if k make o)
  EachMember-member_if k make none h = tt
  EachMember-member_if k make (some a) h = (h a, tt)

module _ {J : Type 0} (json : Json J) (laws : JsonLaws json) where
  ran_functions-IsDumpable :
      (fs : List RanFunctionDef) → Each laws.IsDumpable (encode_ran_functions json fs)
  unfolding encode_ran_functions encode_ran_function
  ran_functions-IsDumpable [] = tt
  ran_functions-IsDumpable (f ∷ fs) = (
    object-IsDumpable json laws _ (
      laws.uint_dumpable _,
      (laws.uints_dumpable _, (laws.uints_dumpable _, (laws.text_dumpable _, tt))),
    ),
    ran_functions-IsDumpable fs,
  )

  ran_function_member-IsDumpable :
      (fs : List RanFunctionDef) → EachMember laws.IsDumpable (ran_function_member json fs)
  ran_function_member-IsDumpable [] = tt
  ran_function_member-IsDumpable (f ∷ fs) =
      (laws.array_dumpable _ (ran_functions-IsDumpable (f ∷ fs)), tt)

  setup_response-IsDumpable : (m : SetupResponse) → laws.IsDumpable (encode_setup_response json m)
  unfolding encode_setup_response
  setup_response-IsDumpable m = object-IsDumpable json laws _ (
    laws.uint_dumpable _,
    (
      laws.text_dumpable _,
      (EachMember-append laws.IsDumpable _ _
          (EachMember-member_if laws.IsDumpable _ json.text m.e3ap_protocol_version
            laws.text_dumpable)
          (EachMember-append laws.IsDumpable _ _
            (EachMember-member_if laws.IsDumpable _ json.uint m.dapp_identifier laws.uint_dumpable)
            (laws.text_dumpable _, ran_function_member-IsDumpable m.ran_function_list))),
    ),
  )

  choice-IsDumpable : (c : PduChoice) → laws.IsDumpable (encode_choice json c)
  unfolding encode_choice encode_setup_request encode_subscription_request
      encode_subscription_delete encode_subscription_response encode_indication_message
      encode_dapp_control_action encode_dapp_report encode_xapp_control_action
      encode_release_message encode_message_ack
  choice-IsDumpable (PduChoice.setup_request m) = object-IsDumpable json laws _ (
    laws.text_dumpable _,
    (laws.text_dumpable _, (laws.text_dumpable _, (laws.text_dumpable _, tt))),
  )
  choice-IsDumpable (PduChoice.setup_response m) = setup_response-IsDumpable m
  choice-IsDumpable (PduChoice.subscription_request m) = object-IsDumpable json laws _ (
    laws.uint_dumpable _,
    (
      laws.uint_dumpable _,
      (
        laws.uints_dumpable _,
        (
          laws.uints_dumpable _,
          EachMember-member_if laws.IsDumpable _ json.uint m.subscription_time laws.uint_dumpable,
        ),
      ),
    ),
  )
  choice-IsDumpable (PduChoice.subscription_delete m) =
      object-IsDumpable json laws _ (laws.uint_dumpable _, (laws.uint_dumpable _, tt))
  choice-IsDumpable (PduChoice.subscription_response m) = object-IsDumpable json laws _ (
    laws.uint_dumpable _,
    (
      laws.uint_dumpable _,
      (
        laws.text_dumpable _,
        EachMember-member_if laws.IsDumpable _ json.uint m.subscription_id laws.uint_dumpable,
      ),
    ),
  )
  choice-IsDumpable (PduChoice.indication_message m) =
      object-IsDumpable json laws _
        (laws.uint_dumpable _, (laws.uint_dumpable _, (laws.text_dumpable _, tt)))
  choice-IsDumpable (PduChoice.dapp_control_action m) = object-IsDumpable json laws _ (
    laws.uint_dumpable _,
    (laws.uint_dumpable _, (laws.uint_dumpable _, (laws.text_dumpable _, tt))),
  )
  choice-IsDumpable (PduChoice.dapp_report m) =
      object-IsDumpable json laws _
        (laws.uint_dumpable _, (laws.uint_dumpable _, (laws.text_dumpable _, tt)))
  choice-IsDumpable (PduChoice.xapp_control_action m) =
      object-IsDumpable json laws _
        (laws.uint_dumpable _, (laws.uint_dumpable _, (laws.text_dumpable _, tt)))
  choice-IsDumpable (PduChoice.release_message m) =
      object-IsDumpable json laws _ (laws.uint_dumpable _, tt)
  choice-IsDumpable (PduChoice.message_ack m) =
      object-IsDumpable json laws _ (laws.uint_dumpable _, (laws.text_dumpable _, tt))

  pub root_of-IsDumpable : (pdu : Pdu) → laws.IsDumpable (root_of json pdu)
  unfolding root_of
  root_of-IsDumpable pdu = object-IsDumpable json laws _ (
    laws.text_dumpable _,
    (laws.uint_dumpable _, (laws.uint_dumpable _, (choice-IsDumpable pdu.choice, tt))),
  )
