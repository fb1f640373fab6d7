-- ===== src/Response.antt =====
-- include/libe3/response_queue.hpp and src/core/response_queue.cpp: the queue of outbound PDUs.
pub mod Defs
pub mod Contents
pub mod Waiting
mod Tests
