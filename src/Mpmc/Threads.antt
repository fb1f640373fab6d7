-- ===== src/Mpmc/Threads.antt =====
-- include/libe3/mpmc_queue.hpp with any number of threads inside try_push and try_pop at once.
pub mod Steps
pub mod Invariant
pub mod Slots
pub mod Sound
pub mod Moves
pub mod Compares
pub mod Keeps
pub mod Pops
pub mod Runs
pub mod Accounts
pub mod Passing
pub mod Exclusion
pub mod Guarantees
mod Tests
