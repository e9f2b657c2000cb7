-- ===== src/Net.antt =====
-- The transport (crates/clipse-net): the addresses of a peer, and messages as frames.
pub mod Candidates
pub mod Backoff
pub mod Framing
mod Examples
