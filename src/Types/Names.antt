-- ===== src/Types/Names.antt =====
-- The conversions of include/libe3/types.hpp from enumerators to texts.
use Prim.Native.String.{String}
use d_app_libe.Types.Codes.{PduType, ResponseCode, ErrorCode, AgentState, LinkLayer, TransportLayer}

unfoldable pub pdu_type_to_string : PduType → String
pdu_type_to_string PduType.setup_request = "SetupRequest"
pdu_type_to_string PduType.setup_response = "SetupResponse"
pdu_type_to_string PduType.subscription_request = "SubscriptionRequest"
pdu_type_to_string PduType.subscription_delete = "SubscriptionDelete"
pdu_type_to_string PduType.subscription_response = "SubscriptionResponse"
pdu_type_to_string PduType.indication_message = "IndicationMessage"
pdu_type_to_string PduType.dapp_control_action = "DAppControlAction"
pdu_type_to_string PduType.dapp_report = "DAppReport"
pdu_type_to_string PduType.xapp_control_action = "XAppControlAction"
pdu_type_to_string PduType.release_message = "ReleaseMessage"
pdu_type_to_string PduType.message_ack = "MessageAck"

unfoldable pub response_code_to_string : ResponseCode → String
response_code_to_string ResponseCode.positive = "positive"
response_code_to_string ResponseCode.negative = "negative"

-- The codes from `sm_error_invalid_param` to `sm_error_memory`, and `generic_error`, take the
-- default branch.
unfoldable pub error_code_to_string : ErrorCode → String
error_code_to_string ErrorCode.success = "Success"
error_code_to_string ErrorCode.invalid_param = "Invalid parameter"
error_code_to_string ErrorCode.not_initialized = "Not initialized"
error_code_to_string ErrorCode.already_initialized = "Already initialized"
error_code_to_string ErrorCode.not_connected = "Not connected"
error_code_to_string ErrorCode.connection_failed = "Connection failed"
error_code_to_string ErrorCode.timeout = "Timeout"
error_code_to_string ErrorCode.encode_failed = "Encode failed"
error_code_to_string ErrorCode.decode_failed = "Decode failed"
error_code_to_string ErrorCode.sm_not_found = "Service Model not found"
error_code_to_string ErrorCode.sm_already_registered = "Service Model already registered"
error_code_to_string ErrorCode.buffer_too_small = "Buffer too small"
error_code_to_string ErrorCode.internal_error = "Internal error"
error_code_to_string ErrorCode.subscription_exists = "Subscription already exists"
error_code_to_string ErrorCode.subscription_not_found = "Subscription not found"
error_code_to_string ErrorCode.dapp_not_registered = "dApp not registered"
error_code_to_string ErrorCode.transport_error = "Transport error"
error_code_to_string ErrorCode.state_error = "State error"
error_code_to_string ErrorCode.sm_start_failed = "Service Model start failed"
error_code_to_string ErrorCode.not_found = "Not found"
error_code_to_string ErrorCode.cancelled = "Operation cancelled"
error_code_to_string _ = "Unknown error"

unfoldable pub agent_state_to_string : AgentState → String
agent_state_to_string AgentState.uninitialized = "Uninitialized"
agent_state_to_string AgentState.initialized = "Initialized"
agent_state_to_string AgentState.connecting = "Connecting"
agent_state_to_string AgentState.connected = "Connected"
agent_state_to_string AgentState.running = "Running"
agent_state_to_string AgentState.stopping = "Stopping"
agent_state_to_string AgentState.stopped = "Stopped"
agent_state_to_string AgentState.error = "Error"

unfoldable pub link_layer_to_string : LinkLayer → String
link_layer_to_string LinkLayer.zmq = "zmq"
link_layer_to_string LinkLayer.posix = "posix"

unfoldable pub transport_layer_to_string : TransportLayer → String
transport_layer_to_string TransportLayer.sctp = "sctp"
transport_layer_to_string TransportLayer.tcp = "tcp"
transport_layer_to_string TransportLayer.ipc = "ipc"
