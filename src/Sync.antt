-- ===== src/Sync.antt =====
-- The rules by which two daemons reconcile (crates/clipse-sync): merging, the loop guard and
-- chunked transfers.
pub mod Merge
pub mod Chunk
pub mod Guard
mod Examples
