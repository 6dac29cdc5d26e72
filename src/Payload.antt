-- ===== src/Payload.antt =====
-- The payload pools (ddspipe_core/src/cpp/efficiency/payload).
pub mod Defs
pub mod Count
pub mod Clients
pub mod Invariant
pub mod References
pub mod Calls
pub mod Sharing
pub mod Race
pub mod CacheChange
pub mod Safety
pub mod Mapped
pub mod Refined
pub mod Alike
mod Tests
