-- ===== src/Json/RoundTrip.antt =====
-- What the encoder writes, the decoder reads back.
pub mod Requests
pub mod Actions
pub mod Responses
pub mod Choices
pub mod Dumps
pub mod Pdus
