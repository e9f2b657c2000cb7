-- ===== src/Core.antt =====
-- The domain types of crates/clipse-core: identifiers, the hybrid logical clock, content hashes
-- and clips.
pub mod Id
pub mod Hlc
pub mod Hash
pub mod Clip
pub mod Samples
mod Examples
