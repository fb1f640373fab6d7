-- ===== src/Json.antt =====
-- src/encoder/json_encoder.hpp and json_encoder.cpp: PDUs as JSON documents.
pub mod Hex
pub mod Library
pub mod Objects
pub mod Encode
pub mod Decode
pub mod Codec
pub mod RoundTrip
pub mod Typed
pub mod Delivery
pub mod Streams
mod Tests
