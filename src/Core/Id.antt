-- ===== src/Core/Id.antt =====
-- crates/clipse-core/src/id.rs and hash.rs: the identifiers. A UUID is read as the 128-bit number
-- of its bytes in order, so that its byte-wise order is the order of numbers; a digest as
-- the number of its 32 bytes, least significant first.
use clipse.Prelude.{ℕ}

abbrev pub DeviceId : Type 0
DeviceId = ℕ

abbrev pub ClipId : Type 0
ClipId = ℕ

abbrev pub ContentHash : Type 0
ContentHash = ℕ
