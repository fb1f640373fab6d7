-- ===== src/Subscription.antt =====
-- include/libe3/subscription_manager.hpp and src/core/subscription_manager.cpp: the registered
-- dApps, and which dApp subscribes to which RAN function. A method that takes the lock exclusively
-- returns the new manager, its result, and the calls that it makes of the lifecycle callback after
-- the lock is released; the locked section of each is a function of its own.
pub mod State
pub mod Register
pub mod Subscribe
pub mod Unsubscribe
pub mod Views
pub mod Outcomes
pub mod Invariant
pub mod Lifecycle
pub mod Ids
mod Tests
pub mod Commands
