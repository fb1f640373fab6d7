-- ===== src/Agent.antt =====
-- include/libe3/e3_agent.hpp and src/core/e3_agent.cpp: the facade that owns an E3Interface.
pub mod Defs
pub mod Sending
pub mod Queries
pub mod Phases
pub mod Starts
pub mod Calls
pub mod Sends
mod Tests
