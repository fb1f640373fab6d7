-- ===== src/Mpmc.antt =====
-- include/libe3/mpmc_queue.hpp: the bounded ring buffer with a sequence counter in each slot.
pub mod Defs
pub mod Capacity
pub mod Represents
pub mod Refine
pub mod Fifo
pub mod Threads
mod Tests
