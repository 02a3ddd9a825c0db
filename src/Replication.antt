-- ===== src/Replication.antt =====
-- crates/mesh-replication/src/lib.rs: relaying, presence, the overlay and transfer planning.
pub mod Relay
pub mod Presence
pub mod Audience
pub mod Transfer
pub mod Transport
pub mod Neighbors
