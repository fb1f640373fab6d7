-- ===== src/Types/Messages.antt =====
-- The message structures of include/libe3/types.hpp. A `std::variant` is a data type with a
-- constructor for each alternative; the wall clock that stamps a new PDU is an argument.
use Prim.Native.String.{String}
use d_app_libe.Base.{ℕ, Option, List}
use d_app_libe.Types.Codes.{ResponseCode, PduType}

pub record SetupRequest : Type 0 where
  pub e3ap_protocol_version : String
  pub dapp_name : String
  pub dapp_version : String
  pub vendor : String

pub record RanFunctionDef : Type 0 where
  pub ran_function_identifier : ℕ
  pub telemetry_identifier_list : List ℕ
  pub control_identifier_list : List ℕ
  pub ran_function_data : List ℕ

pub record SetupResponse : Type 0 where
  pub request_id : ℕ
  pub response_code : ResponseCode
  pub e3ap_protocol_version : Option String
  pub dapp_identifier : Option ℕ
  pub ran_identifier : String
  pub ran_function_list : List RanFunctionDef

pub record SubscriptionRequest : Type 0 where
  pub dapp_identifier : ℕ
  pub ran_function_identifier : ℕ
  pub telemetry_identifier_list : List ℕ
  pub control_identifier_list : List ℕ
  pub subscription_time : Option ℕ
  pub periodicity : Option ℕ

pub record SubscriptionDelete : Type 0 where
  pub dapp_identifier : ℕ
  pub subscription_id : ℕ

pub record SubscriptionResponse : Type 0 where
  pub request_id : ℕ
  pub dapp_identifier : ℕ
  pub response_code : ResponseCode
  pub subscription_id : Option ℕ

pub record IndicationMessage : Type 0 where
  pub dapp_identifier : ℕ
  pub ran_function_identifier : ℕ
  pub protocol_data : List ℕ

pub record DAppControlAction : Type 0 where
  pub dapp_identifier : ℕ
  pub ran_function_identifier : ℕ
  pub control_identifier : ℕ
  pub action_data : List ℕ

pub record MessageAck : Type 0 where
  pub request_id : ℕ
  pub response_code : ResponseCode

pub record DAppReport : Type 0 where
  pub dapp_identifier : ℕ
  pub ran_function_identifier : ℕ
  pub report_data : List ℕ

pub record XAppControlAction : Type 0 where
  pub dapp_identifier : ℕ
  pub ran_function_identifier : ℕ
  pub xapp_control_data : List ℕ

pub record ReleaseMessage : Type 0 where
  pub dapp_identifier : ℕ

pub data PduChoice : Type 0 where
  setup_request : SetupRequest → PduChoice
  setup_response : SetupResponse → PduChoice
  subscription_request : SubscriptionRequest → PduChoice
  subscription_delete : SubscriptionDelete → PduChoice
  subscription_response : SubscriptionResponse → PduChoice
  indication_message : IndicationMessage → PduChoice
  dapp_control_action : DAppControlAction → PduChoice
  dapp_report : DAppReport → PduChoice
  xapp_control_action : XAppControlAction → PduChoice
  release_message : ReleaseMessage → PduChoice
  message_ack : MessageAck → PduChoice

pub record Pdu : Type 0 where
  pub type : PduType
  pub choice : PduChoice
  pub message_id : ℕ
  pub timestamp : ℕ

-- `Pdu(PduType t, T&& data)`: the message id is 0 until the caller sets it.
unfoldable pub make_pdu : PduType → PduChoice → ℕ → Pdu
make_pdu t c clock = record { type = t; choice = c; message_id = 0; timestamp = clock }

-- The variant's first alternative, with its members' defaults.
abbrev pub default_choice : PduChoice
default_choice =
    PduChoice.setup_request
      (record { e3ap_protocol_version = ""; dapp_name = ""; dapp_version = ""; vendor = "" })

-- `Pdu()`.
unfoldable pub empty_pdu : ℕ → Pdu
unfolding make_pdu
empty_pdu clock = make_pdu PduType.setup_request default_choice clock
