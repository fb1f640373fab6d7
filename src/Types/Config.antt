-- ===== src/Types/Config.antt =====
-- E3Config of include/libe3/types.hpp, with the values that its members start with.
use Prim.Native.String.{String}
use d_app_libe.Base.{ℕ, Bool, if◌then◌else◌}
use d_app_libe.Types.Codes.{EncodingFormat, LinkLayer, TransportLayer}

-- io_thread_affinity, io_thread_niceness and log_level, which only threads and the logger read, are
-- left out.
pub record E3Config : Type 0 where
  pub ran_identifier : String
  pub e3ap_version : String
  pub link_layer : LinkLayer
  pub transport_layer : TransportLayer
  pub setup_port : ℕ
  pub subscriber_port : ℕ
  pub publisher_port : ℕ
  pub setup_endpoint : String
  pub subscriber_endpoint : String
  pub publisher_endpoint : String
  pub encoding : EncodingFormat
  pub connect_timeout_ms : ℕ
  pub recv_timeout_ms : ℕ
  pub send_timeout_ms : ℕ
  pub receive_buffer_size : ℕ
  pub send_buffer_size : ℕ
  pub io_threads : ℕ

-- `asn1` and `json` say which of the macros LIBE3_ENABLE_ASN1 and LIBE3_ENABLE_JSON are defined.
abbrev pub default_encoding : Bool → Bool → EncodingFormat
default_encoding asn1 json =
    if asn1 then EncodingFormat.asn1 else if json then EncodingFormat.json else EncodingFormat.asn1

abbrev pub default_config : Bool → Bool → E3Config
default_config asn1 json = record {
  ran_identifier = "";
  e3ap_version = "1.0.0";
  link_layer = LinkLayer.zmq;
  transport_layer = TransportLayer.ipc;
  setup_port = 9990;
  subscriber_port = 9999;
  publisher_port = 9991;
  setup_endpoint = "ipc:///tmp/dapps/setup";
  subscriber_endpoint = "ipc:///tmp/dapps/dapp_socket";
  publisher_endpoint = "ipc:///tmp/dapps/e3_socket";
  encoding = default_encoding asn1 json;
  connect_timeout_ms = 5000;
  recv_timeout_ms = 1000;
  send_timeout_ms = 1000;
  receive_buffer_size = 60000;
  send_buffer_size = 60000;
  io_threads = 2;
}
