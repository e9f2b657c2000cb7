-- ===== src/Ipc.antt =====
-- The connection between the user interface and the daemon (crates/clipse-ipc).
pub mod Codec
mod Examples
