-- ===== src/Posix.antt =====
-- src/connector/posix_connector.hpp and posix_connector.cpp: the connector over sockets.
pub mod Stream
pub mod Framing
pub mod Os
pub mod Connector
pub mod Sockets
pub mod Messages
mod Tests
