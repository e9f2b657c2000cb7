-- ===== src/Daemon.antt =====
-- The daemon (crates/clipsed): a synchronisation session over the store, the merge rules and the
-- loop guard.
pub mod Session
pub mod Pairing
pub mod Capture
pub mod Peers
mod Examples
mod PairingExamples
mod CaptureExamples
mod PeerExamples
