-- ===== src/Database.antt =====
-- DiscoveryDatabase (ddspipe_core/src/cpp/dynamic/DiscoveryDatabase.cpp): the endpoints that the
-- participants have discovered, the queue of operations on them, and the callbacks.
pub mod Defs
mod Drain
mod Entities
mod Driven
mod Stopped
mod Tests
