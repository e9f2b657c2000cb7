-- ===== src/Store.antt =====
-- The history on disk (crates/clipse-store): the tables of the database and the statements on them.
pub mod Tables
pub mod Queries
pub mod Search
pub mod Blobs
pub mod Invariant
pub mod Writes
pub mod Removal
pub mod Roundtrip
mod SearchExamples
mod Examples
