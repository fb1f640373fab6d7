-- ===== src/Types/Codes.antt =====
-- The enumerations of include/libe3/types.hpp, and the error codes of include/libe3/error_codes.h
-- with their values.
use d_app_libe.Base.{ℕ}

pub data EncodingFormat : Type 0 where
  asn1 json : EncodingFormat

pub data LinkLayer : Type 0 where
  zmq posix : LinkLayer

pub data TransportLayer : Type 0 where
  sctp tcp ipc : TransportLayer

pub data ResponseCode : Type 0 where
  positive negative : ResponseCode

pub data PduType : Type 0 where
  setup_request setup_response subscription_request subscription_delete : PduType
  subscription_response indication_message dapp_control_action dapp_report : PduType
  xapp_control_action release_message message_ack : PduType

pub data AgentState : Type 0 where
  uninitialized initialized connecting connected running stopping stopped error : AgentState

-- `libe3::ErrorCode`, in the order of LIBE3_ERROR_CODE_LIST.
pub data ErrorCode : Type 0 where
  success invalid_param not_initialized already_initialized not_connected : ErrorCode
  connection_failed timeout encode_failed decode_failed sm_not_found : ErrorCode
  sm_already_registered buffer_too_small internal_error subscription_exists : ErrorCode
  subscription_not_found dapp_not_registered transport_error state_error : ErrorCode
  sm_start_failed not_found sm_error_invalid_param sm_error_not_found : ErrorCode
  sm_error_already_exists sm_error_thread_failed sm_error_memory cancelled : ErrorCode
  generic_error : ErrorCode

-- The absolute value of a code's integer; the list of the source gives it a minus sign.
unfoldable pub magnitude : ErrorCode → ℕ
magnitude success = 0
magnitude invalid_param = 1
magnitude not_initialized = 2
magnitude already_initialized = 3
magnitude not_connected = 4
magnitude connection_failed = 5
magnitude timeout = 6
magnitude encode_failed = 7
magnitude decode_failed = 8
magnitude sm_not_found = 9
magnitude sm_already_registered = 10
magnitude buffer_too_small = 11
magnitude internal_error = 12
magnitude subscription_exists = 13
magnitude subscription_not_found = 14
magnitude dapp_not_registered = 15
magnitude transport_error = 16
magnitude state_error = 17
magnitude sm_start_failed = 18
magnitude not_found = 19
magnitude sm_error_invalid_param = 20
magnitude sm_error_not_found = 21
magnitude sm_error_already_exists = 22
magnitude sm_error_thread_failed = 23
magnitude sm_error_memory = 24
magnitude cancelled = 25
magnitude generic_error = 100
