-- ===== src/Crypto.antt =====
-- Who is trusted, and how devices come to be (crates/clipse-crypto).
pub mod Trust
pub mod Code
pub mod Wire
pub mod Ceremony
pub mod Sessions
mod SessionExamples
mod Examples
mod PairingExamples
