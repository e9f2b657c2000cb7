-- ===== src/Sync/Chunk/Checks.antt =====
-- What a receiver refuses, where a transfer resumes, and how the chunks cut up a blob.
use clipse.Prelude.{
  ℕ, zero, suc, ◌+◌, ◌-◌, ◌*◌, ◌≤◌, ◌<◌, ◌≡◌, ◌≢◌, ◌⊎◌, inl, inr, refl, Bool, true, false, List, [],
  ◌∷◌, none, some, arith, length, get_elem?, all_of, Option-cases,
}
use native.Mathlib.Numerals.{add-one}
use clipse.Prelude.Bytes.{Bytes}
use clipse.Sync.Chunk.Source.{ChunkError, err, ChunkSource, Range, range, max_blob_bytes}
use clipse.Sync.Chunk.Receiver.{
  ChunkReceiver, accept, copy_chunk, is_complete, resume_from, first_missing,
}
use native.Mathlib.Decide.{dec_lt}
use clipse.Sync.Chunk.Step.{range-some}
use clipse.Sync.Chunk.Shape.{range_bounds, chunk_of, mul_step}

copy_chunk-wrong :
    (r : ChunkReceiver) (i : ℕ) (bytes : Bytes) (at : Range) (e : ChunkError)
    → (copy_chunk r i bytes at).1 ≡ err e
    → ((copy_chunk r i bytes at).0 ≡ r) × (length bytes ≢ at.end - at.start)
unfolding copy_chunk
copy_chunk-wrong r i bytes at e h = ground arith

-- A refused chunk leaves the receiver as it was, and a chunk is refused only if its index is past
-- the end or its length is not that of the range.
pub accept-err :
    (r : ChunkReceiver) (i : ℕ) (bytes : Bytes) (e : ChunkError)
    → (accept r i bytes).1 ≡ err e
    → ((accept r i bytes).0 ≡ r)
      × ((range r.source i ≡ none)
          ⊎ ((at : Range) × (range r.source i ≡ some at) × (length bytes ≢ at.end - at.start)))
unfolding accept
accept-err r i bytes e h = elim (Option-cases (range r.source i)) [
  | inl n ↦ (rw (n, accept), inl n)
  | inr (at, f) ↦
      let (same, wrong) = copy_chunk-wrong r i bytes at e (rw (f, accept) at h) in
      (rw (f, accept) same, inr (at, f, wrong))
]

first_missing_prefix :
    (flags : List Bool) (i : ℕ) → i < first_missing flags → get_elem? flags i ≡ some true
unfolding first_missing
first_missing_prefix [] i h = absurd (omega arith)
first_missing_prefix (f ∷ fs) zero h = ground arith
first_missing_prefix (f ∷ fs) (suc i) h = ground (arith, first_missing_prefix fs i)

first_missing_gap :
    (flags : List Bool)
    → first_missing flags < length flags
    → get_elem? flags (first_missing flags) ≡ some false
unfolding first_missing
first_missing_gap [] h = absurd (omega arith)
first_missing_gap (false ∷ fs) h = refl
first_missing_gap (true ∷ fs) h = rw add-one (first_missing_gap fs (omega arith))

first_missing_le : (flags : List Bool) → first_missing flags ≤ length flags
unfolding first_missing
first_missing_le [] = omega arith
first_missing_le (f ∷ fs) = ground (arith, first_missing_le fs)

complete→first_missing :
    (flags : List Bool) → all_of (λ got. got) flags ≡ true → first_missing flags ≡ length flags
unfolding first_missing
complete→first_missing [] h = refl
complete→first_missing (f ∷ fs) h = ground (arith, complete→first_missing fs)

-- The index to resume from is the first gap: every chunk before it has arrived, it has not if it is
-- the index of a chunk at all, and a complete transfer has none.
pub resume_from_lem :
    (r : ChunkReceiver)
    → ((i : ℕ) → i < resume_from r → get_elem? r.received i ≡ some true)
      × (resume_from r < length r.received → get_elem? r.received (resume_from r) ≡ some false)
      × (is_complete r ≡ true → resume_from r ≡ length r.received)
unfolding resume_from is_complete
resume_from_lem r = (
  λ i. first_missing_prefix r.received i,
  first_missing_gap r.received,
  complete→first_missing r.received,
)

-- The chunks of a source cut up its bytes: every position lies in the range of one chunk, of a
-- valid index, and in the range of no other.
pub range_partition :
    (s : ChunkSource) (j : ℕ)
    → 0 < s.chunk_bytes
    → s.size ≤ max_blob_bytes
    → j < s.size
    → (i : ℕ) × (at : Range) × (range s i ≡ some at)
      × (at.start ≤ j)
      × (j < at.end)
      × ((i' : ℕ) (at' : Range) → range s i' ≡ some at' → at'.start ≤ j → j < at'.end → i' ≡ i)
range_partition s j c z h =
    let (i, lt, lo, hi) = chunk_of s j c z h in
    let (at, found) = range-some s i lt in
    let b = range_bounds s i at found in
    (i, at, found, omega arith, omega arith, λ i' at' e l u. one i i' at' e l u lo hi)
  where
    one :
        (i i' : ℕ) (at' : Range)
        → range s i' ≡ some at'
        → at'.start ≤ j
        → j < at'.end
        → i * s.chunk_bytes ≤ j
        → j < i * s.chunk_bytes + s.chunk_bytes
        → i' ≡ i
    one i i' at' e l u lo hi =
        let b = range_bounds s i' at' e in
        elim (dec_lt i i') [
          | yes p ↦ absurd (omega (arith, mul_step i i' s.chunk_bytes p))
          | no p ↦ elim (dec_lt i' i) [
            | yes q ↦ absurd (omega (arith, mul_step i' i s.chunk_bytes q))
            | no q ↦ omega arith
          ]
        ]
