-- ===== src/Zmq/Connector.antt =====
-- ZmqE3Connector, from the constructor to dispose. The logger's calls are left out.
use Prim.Native.String
use d_app_libe.Base.{
  ℕ, zero, suc, Bool, true, false, if◌then◌else◌, Option, none, List, [], ◌∷◌, length, is_empty,
}
use d_app_libe.Types.{ErrorCode, LinkLayer, TransportLayer}
use d_app_libe.Posix.Connector.{default_buffer_size, Reading}
use d_app_libe.Zmq.Library.{Received}
use d_app_libe.Zmq.Endpoints.{tcp_endpoint}

abbrev pub recv_timeout_ms : ℕ
recv_timeout_ms = 500

-- A null pointer is `none`.
pub record ZmqE3Connector : Type 0 where
  pub transport_layer : TransportLayer
  pub io_threads : ℕ
  pub setup_port : ℕ
  pub inbound_port : ℕ
  pub outbound_port : ℕ
  pub setup_endpoint : String.String
  pub inbound_endpoint : String.String
  pub outbound_endpoint : String.String
  pub context : Option ℕ
  pub setup_socket : Option ℕ
  pub inbound_socket : Option ℕ
  pub outbound_socket : Option ℕ
  pub connected : Bool

-- The endpoint that the constructor stores.
abbrev pub endpoint_for : TransportLayer → String.String → ℕ → String.String
endpoint_for TransportLayer.tcp endpoint port = tcp_endpoint port
endpoint_for layer endpoint port = endpoint

unfoldable pub construct :
    TransportLayer → String.String → String.String → String.String → ℕ → ℕ → ℕ → ℕ → ZmqE3Connector
unfolding tcp_endpoint
construct layer setup inbound outbound setup_port inbound_port outbound_port io_threads = record {
  transport_layer = layer;
  io_threads = io_threads;
  setup_port = setup_port;
  inbound_port = inbound_port;
  outbound_port = outbound_port;
  setup_endpoint = endpoint_for layer setup setup_port;
  inbound_endpoint = endpoint_for layer inbound inbound_port;
  outbound_endpoint = endpoint_for layer outbound outbound_port;
  context = none;
  setup_socket = none;
  inbound_socket = none;
  outbound_socket = none;
  connected = false;
}

unfoldable pub link_layer : ZmqE3Connector → LinkLayer
link_layer c = LinkLayer.zmq

unfoldable pub transport_layer_of : ZmqE3Connector → TransportLayer
transport_layer_of c = c.transport_layer

unfoldable pub is_connected : ZmqE3Connector → Bool
is_connected c = c.connected

-- `buffer.resize(n)`: octets behind are cut off, new ones are 0.
unfoldable pub resize : ℕ → List ℕ → List ℕ
resize zero xs = []
resize (suc n) [] = 0 ∷ resize n []
resize (suc n) (x ∷ xs) = x ∷ resize n xs

-- What zmq_recv leaves in a buffer that it may write from end to end: the octets of the message that
-- fit, and behind them what was there.
unfoldable pub copied : List ℕ → List ℕ → List ℕ
copied [] buffer = buffer
copied (o ∷ octets) [] = []
copied (o ∷ octets) (b ∷ buffer) = o ∷ copied octets buffer

-- The caller's buffer after a message: `resize`, zmq_recv, and `resize` to its return value, which
-- is the length of the message.
unfoldable pub received_buffer : List ℕ → List ℕ → List ℕ
unfolding resize copied
received_buffer octets buffer =
    resize (length octets) (copied octets (resize default_buffer_size buffer))

-- What a reading method makes of it; an empty message has the return value 0, as a timeout has.
unfoldable pub reading_of : List ℕ → Received → Reading
unfolding received_buffer
reading_of buffer (Received.message octets) =
    if is_empty octets then Reading.nothing else Reading.got (received_buffer octets buffer)
reading_of buffer Received.again = Reading.nothing
reading_of buffer Received.failed = Reading.reading_error ErrorCode.transport_error

unfoldable pub is_failed : Received → Bool
is_failed Received.failed = true
is_failed r = false
