-- ===== src/Interface.antt =====
-- include/libe3/e3_interface.hpp and src/core/e3_interface.cpp: the handlers and the loops of
-- E3Interface, which join the subscription manager, the registry of service models and the queue of
-- outbound PDUs.
pub mod Defs
pub mod Dispatch
pub mod Wiring
pub mod Handlers
pub mod Received
pub mod Answers
pub mod Setup
pub mod Lifecycle
pub mod Loops
pub mod Threads
pub mod Samples
mod Tests
