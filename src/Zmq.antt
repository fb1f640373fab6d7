-- ===== src/Zmq.antt =====
-- src/connector/zmq_connector.hpp and zmq_connector.cpp: the connector over ZeroMQ.
pub mod Library
pub mod Endpoints
pub mod Connector
pub mod Sockets
pub mod Messages
pub mod Holdings
pub mod Calls
pub mod Clean
pub mod Leaks
pub mod Reading
mod Tests
