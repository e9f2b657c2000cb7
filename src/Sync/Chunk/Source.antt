-- ===== src/Sync/Chunk/Source.antt =====
-- `ChunkError` and `ChunkSource`: the shape of a transfer.
use clipse.Prelude.{
  ℕ, ◌+◌, ◌*◌, ◌/◌, ◌%◌, ◌^◌, Option, none, some, min, leb, ltb, ◌==◌, if◌then◌else◌,
}

-- 512 MiB.
abbrev pub max_blob_bytes : ℕ
max_blob_bytes = 536870912

-- 256 KiB.
abbrev pub default_chunk_bytes : ℕ
default_chunk_bytes = 262144

pub data ChunkError : Type 0 where
  too_large : ℕ → ChunkError
  zero_chunk_size : ChunkError
  out_of_range : ℕ → ℕ → ChunkError
  wrong_length : ℕ → ℕ → ℕ → ChunkError
  incomplete : ℕ → ChunkError
  digest_mismatch : ChunkError

pub data Result {ℓ} (A : Type ℓ) : Type ℓ where
  ok : A → Result A
  err : ChunkError → Result A

pub record ChunkSource : Type 0 where
  pub size : ℕ
  pub chunk_bytes : ℕ

-- `ChunkSource::new`.
unfoldable pub new_source : ℕ → ℕ → Result ChunkSource
new_source size chunk_bytes =
    if chunk_bytes == 0
    then err zero_chunk_size
    else if ltb max_blob_bytes size
    then err (too_large size)
    else ok (record { size = size; chunk_bytes = chunk_bytes })

-- `u64::div_ceil`.
unfoldable pub div_ceil : ℕ → ℕ → ℕ
div_ceil a b = if a % b == 0 then a / b else a / b + 1

-- `ChunkSource::total_chunks`.
unfoldable pub total_chunks : ChunkSource → ℕ
unfolding div_ceil
total_chunks s = if s.size == 0 then 0 else div_ceil s.size s.chunk_bytes % 2 ^ 32

-- A `Range<usize>`.
pub record Range : Type 0 where
  pub start : ℕ
  pub end : ℕ

-- `ChunkSource::range`. With `usize` of 64 bits the product does not overflow: the index is below
-- the number of chunks.
unfoldable pub range : ChunkSource → ℕ → Option Range
range s index =
    if leb (total_chunks s) index
    then none
    else let start : ℕ = index * s.chunk_bytes in
      some (record { start = start; end = min (start + s.chunk_bytes) s.size })
