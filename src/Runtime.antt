-- ===== src/Runtime.antt =====
-- crates/mesh-runtime: the reducers that the native host drives.
pub mod Receiver
pub mod Sender
pub mod SessionLink
