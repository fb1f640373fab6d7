-- ===== src/Interface/Threads.antt =====
-- The threads of E3Interface together: every thread's rounds, and the PDUs that the agent's user or a
-- service model queues, in any order. A round is one step.
pub mod Steps
pub mod Quiet
pub mod Flow
pub mod Order
pub mod Service
pub mod InStep
mod Tests
