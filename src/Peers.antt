-- ===== src/Peers.antt =====
-- The participants that are given initial peers (ddspipe_participants/src/cpp).
pub mod Tls
pub mod Transports
pub mod Participant
pub mod Returns
pub mod OneAddress
mod Tests
