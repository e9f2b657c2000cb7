-- ===== src/Clipboard.antt =====
-- The capture side (crates/clipse-clipboard): which captures are not recorded.
pub mod OwnWrites
pub mod Apps
pub mod Secrets
pub mod Watch
mod Examples
mod SecretExamples
