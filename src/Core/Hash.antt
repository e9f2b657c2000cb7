-- ===== src/Core/Hash.antt =====
-- crates/clipse-core/src/hash.rs: content hashes. The digest function (BLAKE3) is not under the
-- repository's sources and is a parameter; feeding a hasher piece by piece digests the
-- concatenation of the pieces, and `encoding` is that concatenation.
use mathlib.Core.List.{append_assoc}
pub mod Injective
use clipse.Prelude.{
  ℕ, ◌+◌, ◌^◌, ◌<◌, ◌≡◌, refl, List, [], ◌∷◌, ◌++◌, arith, length, length-append, All, ap,
}
use clipse.Prelude.Bytes.{Bytes}
use clipse.Prelude.Words.{le_bytes, of_le_bytes, length-le_bytes, of_le_bytes-le_bytes}
use clipse.Core.Id.{ContentHash}

-- A piece behind its 64-bit little-endian length.
unfoldable pub length_prefixed : Bytes → Bytes
length_prefixed piece = le_bytes 8 (length piece) ++ piece

-- What `of_parts` feeds the hasher: each label and each payload, length-prefixed.
unfoldable pub encoding : List (Bytes × Bytes) → Bytes
unfolding length_prefixed
encoding [] = []
encoding ((label, bytes) ∷ parts) =
    length_prefixed label ++ (length_prefixed bytes ++ encoding parts)

-- `ContentHash::as_bytes`.
abbrev pub as_bytes : ContentHash → Bytes
as_bytes hash = le_bytes 32 hash

module _ (digest : Bytes → ContentHash) where
  -- `ContentHash::of`.
  unfoldable pub of : Bytes → ContentHash
  of bytes = digest bytes

  -- `ContentHash::of_parts`.
  unfoldable pub of_parts : List (Bytes × Bytes) → ContentHash
  of_parts parts = digest (encoding parts)
