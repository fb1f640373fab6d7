-- ===== src/Factories.antt =====
-- src/encoder/encoder_factory.cpp and src/connector/connector_factory.cpp: which class an interface
-- gets for its configuration.
use Prim.Native.String.{String}
use d_app_libe.Base.{
  ℕ, Bool, if◌then◌else◌, ◌||◌, true, false, ◌≡◌, refl, Option, Option-is_some, none, some,
}
use d_app_libe.Types.{EncodingFormat, LinkLayer, TransportLayer}
use d_app_libe.Types.Config.{E3Config, default_encoding}
use d_app_libe.Posix.Connector.{PosixE3Connector, construct}
use d_app_libe.Zmq.Connector as Zmq
use d_app_libe.Zmq.Connector.{ZmqE3Connector}

pub data EncoderClass : Type 0 where
  asn1_e3_encoder json_e3_encoder : EncoderClass

-- `asn1` and `json` say which encoders the library was built with.
unfoldable pub create_encoder : Bool → Bool → EncodingFormat → Option EncoderClass
create_encoder asn1 json EncodingFormat.asn1 =
    if asn1 then some EncoderClass.asn1_e3_encoder else none
create_encoder asn1 json EncodingFormat.json =
    if json then some EncoderClass.json_e3_encoder else none

-- A connector of one of the two classes.
pub data AnyConnector : Type 0 where
  zmq : ZmqE3Connector → AnyConnector
  posix : PosixE3Connector → AnyConnector

unfoldable pub create_connector :
    LinkLayer → TransportLayer → String → String → String → ℕ → ℕ → ℕ → ℕ → AnyConnector
unfolding Zmq.construct construct
create_connector LinkLayer.zmq layer setup inbound outbound port in_port out_port threads =
    AnyConnector.zmq (Zmq.construct layer setup inbound outbound port in_port out_port threads)
create_connector LinkLayer.posix layer setup inbound outbound port in_port out_port threads =
    AnyConnector.posix (construct layer setup inbound outbound port in_port out_port)

-- The call of E3Interface::init.
unfoldable pub connector_of : E3Config → AnyConnector
unfolding create_connector
connector_of config =
    create_connector config.link_layer config.transport_layer config.setup_endpoint
      config.subscriber_endpoint config.publisher_endpoint config.setup_port config.subscriber_port
      config.publisher_port config.io_threads

-- A library that was built with an encoder can make the one that its default configuration names.
pub create_encoder-default_encoding :
    (asn1 json : Bool)
    → (asn1 || json) ≡ true
    → Option-is_some (create_encoder asn1 json (default_encoding asn1 json)) ≡ true
unfolding create_encoder
create_encoder-default_encoding true json h = refl
create_encoder-default_encoding false true h = refl
create_encoder-default_encoding false false h = h
