-- ===== src/Sync/Chunk.antt =====
-- crates/clipse-sync/src/chunk.rs: offer-and-chunk transfer. `u64 as u32` and `usize` are written
-- out where the range of a value does not make them the identity.
pub mod Source
pub mod Receiver
pub mod Shape
pub mod Step
pub mod Transfer
pub mod Arrivals
pub mod Checks
