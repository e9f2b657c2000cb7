-- ===== src/Sync/Chunk/Receiver.antt =====
-- `ChunkReceiver`: the buffer, and which chunks have been copied into it.
use clipse.Prelude.{
  ℕ, ◌+◌, ◌-◌, Bool, true, false, not, List, [], ◌∷◌, none, some, ◌==◌, if◌then◌else◌, length,
  replicate, keep_if, all_of,
}
use clipse.Prelude.Bytes.{Bytes}
use clipse.Prelude.Slices.{splice, set}
use clipse.Core.Id.{ContentHash}
use clipse.Core.Hash
use clipse.Sync.Chunk.Source.{
  Result, ok, err, out_of_range, wrong_length, incomplete, digest_mismatch, ChunkSource, new_source,
  total_chunks, Range, range,
}

pub record ChunkReceiver : Type 0 where
  pub digest : ContentHash
  pub source : ChunkSource
  pub buffer : Bytes
  pub received : List Bool

abbrev ◌>>=◌ {ℓ κ} : {A : Type ℓ} {B : Type κ} → Result A → (A → Result B) → Result B
◌>>=◌ (ok a) f = f a
◌>>=◌ (err e) f = err e

-- `ChunkReceiver::new`.
unfoldable pub new_receiver : ContentHash → ℕ → ℕ → Result ChunkReceiver
unfolding new_source
new_receiver digest size chunk_bytes = do
  source ← new_source size chunk_bytes
  ok (record {
    digest = digest;
    source = source;
    buffer = replicate size 0;
    received = replicate (total_chunks source) false;
  })

-- `received_chunks` and `is_complete`.
unfoldable pub received_chunks : ChunkReceiver → ℕ
received_chunks r = length (keep_if (λ got. got) r.received)

unfoldable pub is_complete : ChunkReceiver → Bool
is_complete r = all_of (λ got. got) r.received

-- The `position` of the first chunk that is missing, or the number of chunks.
unfoldable pub first_missing : List Bool → ℕ
first_missing [] = 0
first_missing (got ∷ rest) = if got then first_missing rest + 1 else 0

unfoldable pub resume_from : ChunkReceiver → ℕ
unfolding first_missing
resume_from r = first_missing r.received

-- `accept` on a range that the source has.
unfoldable pub copy_chunk : ChunkReceiver → ℕ → Bytes → Range → ChunkReceiver × Result (Unit {0})
copy_chunk r index bytes at =
    let expected : ℕ = at.end - at.start in
    if length bytes == expected
    then (
      record r { buffer = splice r.buffer at.start bytes; received = set r.received index true },
      ok tt,
    )
    else (r, err (wrong_length index (length bytes) expected))

-- `accept`: the receiver afterwards, and the answer.
unfoldable pub accept : ChunkReceiver → ℕ → Bytes → ChunkReceiver × Result (Unit {0})
unfolding copy_chunk
accept r index bytes = elim (range r.source index) [
  | none ↦ (r, err (out_of_range index (total_chunks r.source)))
  | some at ↦ copy_chunk r index bytes at
]

-- `finish`.
unfoldable pub finish : (Bytes → ContentHash) → ChunkReceiver → Result Bytes
unfolding Hash.of
finish digest r =
    let missing : ℕ = length (keep_if not r.received) in
    if missing == 0
    then if Hash.of digest r.buffer == r.digest then ok r.buffer else err digest_mismatch
    else err (incomplete missing)
