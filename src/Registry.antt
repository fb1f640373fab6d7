-- ===== src/Registry.antt =====
-- include/libe3/sm_interface.hpp and src/core/sm_registry.cpp: the service models and the registry
-- that holds them by RAN function.
pub mod Defs
pub mod Running
pub mod Retire
pub mod Available
pub mod Fetch
mod Tests
