-- ===== src/Sync/Chunk/Shape.antt =====
-- How many chunks there are, and where each of them lies.
use clipse.Prelude.{
  ℕ, ◌+◌, ◌*◌, ◌/◌, ◌%◌, ◌^◌, ◌≤◌, ◌<◌, ◌≡◌, false, some, min, arith, length, length-replicate,
}
use native.Mathlib.Nat.{div-add-mod, mod-lt, mod-eq_of_lt, div-lt_iff_lt-mul}
use native.Mathlib.Decide.{dec_lt}
use clipse.Core.Id.{ContentHash}
use clipse.Sync.Chunk.Source.{ok, ChunkSource, div_ceil, total_chunks, Range, range, max_blob_bytes}
use clipse.Sync.Chunk.Receiver.{ChunkReceiver, new_receiver}

-- The range of a chunk.
pub range_bounds :
    (s : ChunkSource) (i : ℕ) (at : Range)
    → range s i ≡ some at
    → (i < total_chunks s)
      × (at.start ≡ i * s.chunk_bytes)
      × (at.end ≡ min (i * s.chunk_bytes + s.chunk_bytes) s.size)
unfolding range
range_bounds s i at h = ground arith

pub mul_step : (i j c : ℕ) → i < j → i * c + c ≤ j * c
mul_step i j c h = grind arith

le_mul : (n c : ℕ) → 0 < c → n ≤ n * c
le_mul n c h = grind arith

div_ceil_product : (n c : ℕ) → 0 < c → (n ≤ div_ceil n c * c) × (div_ceil n c * c < n + c)
unfolding div_ceil
div_ceil_product n c h = grind (arith, div-add-mod n c, mod-lt n h)

div_ceil_le : (n c : ℕ) → 0 < c → div_ceil n c ≤ n
div_ceil_le n c h = elim (dec_lt n (div_ceil n c)) [
  | yes over ↦
      absurd
        (omega (arith, mul_step n (div_ceil n c) c over, le_mul n c h, (div_ceil_product n c h).1))
  | no fits ↦ omega arith
]

-- The number of chunks is exact: the last chunk starts before the end, and covers it.
total_chunks_product :
    (s : ChunkSource)
    → 0 < s.chunk_bytes
    → s.size ≤ max_blob_bytes
    → (s.size ≤ total_chunks s * s.chunk_bytes)
      × (total_chunks s * s.chunk_bytes < s.size + s.chunk_bytes)
unfolding total_chunks
total_chunks_product s c z =
    let d = div_ceil s.size s.chunk_bytes in
    let le = div_ceil_le s.size s.chunk_bytes c in
    let same : d % 2 ^ 32 ≡ d = mod-eq_of_lt (omega arith) in
    ground (arith, same, div_ceil_product s.size s.chunk_bytes c)

pub chunk_starts_inside :
    (s : ChunkSource) (i : ℕ)
    → 0 < s.chunk_bytes
    → s.size ≤ max_blob_bytes
    → i < total_chunks s
    → i * s.chunk_bytes < s.size
chunk_starts_inside s i c z h =
    omega (arith, mul_step i (total_chunks s) s.chunk_bytes h, total_chunks_product s c z)

-- Each position lies in one chunk.
pub chunk_of :
    (s : ChunkSource) (j : ℕ)
    → 0 < s.chunk_bytes
    → s.size ≤ max_blob_bytes
    → j < s.size
    → (i : ℕ) × (i < total_chunks s)
      × (i * s.chunk_bytes ≤ j)
      × (j < i * s.chunk_bytes + s.chunk_bytes)
chunk_of s j c z h = (
  j / s.chunk_bytes,
  (div-lt_iff_lt-mul c).1 (omega (arith, total_chunks_product s c z)),
  omega (arith, div-add-mod j s.chunk_bytes, mod-lt j c),
  omega (arith, div-add-mod j s.chunk_bytes, mod-lt j c),
)

-- What every receiver keeps to: its buffer and its flags have the size of the source.
pub record IsShaped (r : ChunkReceiver) : Type 0 where
  pub small : r.source.size ≤ max_blob_bytes
  pub positive : 0 < r.source.chunk_bytes
  pub buffer : length r.buffer ≡ r.source.size
  pub flags : length r.received ≡ total_chunks r.source

pub new_receiver-IsShaped :
    (digest : ContentHash) (size chunk : ℕ) (r : ChunkReceiver)
    → new_receiver digest size chunk ≡ ok r
    → IsShaped r
unfolding new_receiver
new_receiver-IsShaped digest size chunk r h =
    ground (arith, length-replicate {A = ℕ} size 0, length-replicate (total_chunks r.source) false)
