-- ===== src/Protocol.antt =====
-- crates/mesh-protocol/src/lib.rs
pub mod Record
pub mod Signed
pub mod Certificate
pub mod Roster
pub mod Enrollment
pub mod Presence
pub mod Handoff
pub mod Policy
pub mod ReceiptAck
pub mod Example
pub mod Announcement
pub mod Receipt
