-- ===== src/Sync/Chunk/Step.antt =====
-- One step of a transfer: a chunk of the blob, accepted by a receiver that holds what it got so far.
use clipse.Prelude.{
  ℕ, zero, suc, ◌+◌, ◌-◌, ◌*◌, ◌≤◌, ◌<◌, ◌≡◌, ◌≢◌, refl, sym, ap, ◌∙◌, ◌⊎◌, inl, inr, Bool, true,
  List, [], ◌∷◌, none, some, min, arith, length, get_elem?, Option-cases, subst, ==_iff, subst,
  ==_iff,
}
use native.Mathlib.Decide.{dec_lt, ℕ_discrete}
use clipse.Prelude.Bytes.{Bytes}
use clipse.Prelude.Slices.{
  splice, slice, set, length-set, length-splice, get_elem?-set_self, get_elem?-set_ne,
  get_elem?-splice_in, get_elem?-splice_out, get_elem?-slice, length-slice,
}
use clipse.Sync.Chunk.Source.{Result, ok, ChunkSource, total_chunks, Range, range}
use clipse.Sync.Chunk.Shape.{IsShaped, range_bounds, mul_step, chunk_starts_inside}
use clipse.Sync.Chunk.Receiver.{ChunkReceiver, accept}

-- The bytes of `blob` that a sender puts in chunk `index`.
unfoldable pub chunk_bytes_of : ChunkSource → Bytes → ℕ → Bytes
chunk_bytes_of s blob index = elim (range s index) [
  | none ↦ []
  | some at ↦ slice at.start at.end blob
]

-- Where a chunk is marked as received, the buffer holds the bytes of `blob`.
pub record Holds (blob : Bytes) (r : ChunkReceiver) : Type 0 where
  pub shaped : IsShaped r
  pub size : length blob ≡ r.source.size
  pub bytes :
      (i j : ℕ)
      → get_elem? r.received i ≡ some true
      → i * r.source.chunk_bytes ≤ j
      → j < i * r.source.chunk_bytes + r.source.chunk_bytes
      → j < r.source.size
      → get_elem? r.buffer j ≡ get_elem? blob j

-- One chunk copied.
module _ (blob : Bytes) (r : ChunkReceiver) (h : Holds blob r) (k : ℕ) (at : Range)
    (e : range r.source k ≡ some at) where
  bounds :
      (k < total_chunks r.source)
      × (at.start ≡ k * r.source.chunk_bytes)
      × (at.end ≡ min (k * r.source.chunk_bytes + r.source.chunk_bytes) r.source.size)
  bounds = range_bounds r.source k at e

  start-lt-size : at.start < r.source.size
  start-lt-size =
      let b = bounds in
      omega (arith, chunk_starts_inside r.source k h.shaped.positive h.shaped.small b.0)

  length-chunk : length (slice at.start at.end blob) ≡ at.end - at.start
  length-chunk =
      let b = bounds in
      let l = start-lt-size in
      let s = h.size in length-slice at.start at.end blob (omega arith) (omega arith)

  abbrev copied : ChunkReceiver
  copied = record r {
    buffer = splice r.buffer at.start (slice at.start at.end blob);
    received = set r.received k true;
  }

  fits : at.start + length (slice at.start at.end blob) ≤ length r.buffer
  fits =
      let b = bounds in
      let l = start-lt-size in let s = h.shaped.buffer in omega (arith, length-chunk)

  inside_chunk : (j : ℕ) → at.start ≤ j → j < at.end → get_elem? copied.buffer j ≡ get_elem? blob j
  inside_chunk j lo hi =
      let there : at.start + (j - at.start) ≡ j = omega arith in
      let read =
        get_elem?-splice_in r.buffer (slice at.start at.end blob) at.start fits (j - at.start)
          (omega (arith, length-chunk)) in
      let sent = get_elem?-slice at.start at.end blob (j - at.start) (omega arith) in
      subst (λ n. get_elem? copied.buffer n ≡ get_elem? blob n) there (read ∙ sent)

  outside_chunk :
      (j : ℕ) → (j < at.start) ⊎ (at.end ≤ j) → get_elem? copied.buffer j ≡ get_elem? r.buffer j
  outside_chunk j out =
      let l = start-lt-size in
      let b = bounds in
      get_elem?-splice_out r.buffer (slice at.start at.end blob) at.start fits j
        (omega (arith, length-chunk))

  copied-bytes :
      (i j : ℕ)
      → get_elem? (set r.received k true) i ≡ some true
      → i * r.source.chunk_bytes ≤ j
      → j < i * r.source.chunk_bytes + r.source.chunk_bytes
      → j < r.source.size
      → get_elem? copied.buffer j ≡ get_elem? blob j
  copied-bytes i j got lo hi inside =
      let b = bounds in
      elim (ℕ_discrete k i) [
        | yes same ↦
            let e' : k * r.source.chunk_bytes ≡ i * r.source.chunk_bytes =
              ap (λ t. t * r.source.chunk_bytes) same in
            inside_chunk j (omega arith) (omega arith)
        | no other ↦
            outside_chunk j (apart (dec_lt k i) other)
            ∙ h.bytes i j (sym (get_elem?-set_ne r.received k i true other) ∙ got) lo hi inside
      ]
    where
      apart : Dec (k < i) → k ≢ i → (j < at.start) ⊎ (at.end ≤ j)
      apart (yes p) ne = let b = bounds in inr (omega (arith, mul_step k i r.source.chunk_bytes p))
      apart (no p) ne =
          let b = bounds in inl (omega (arith, mul_step i k r.source.chunk_bytes (omega arith)))

  copied-Holds : Holds blob copied
  copied-Holds = record {
    shaped = record {
      small = h.shaped.small;
      positive = h.shaped.positive;
      buffer = length-splice r.buffer (slice at.start at.end blob) at.start fits ∙ h.shaped.buffer;
      flags = length-set r.received k true ∙ h.shaped.flags;
    };
    size = h.size;
    bytes = copied-bytes;
  }

  -- A chunk of the right length is taken.
  accept-copied : accept r k (slice at.start at.end blob) ≡ (copied, ok tt)
  unfolding accept
  accept-copied = rw (e, accept) (rw ((==_iff _ _).1 length-chunk))

-- What one step of a transfer leaves alone and what it marks.
pub record Advances (r r' : ChunkReceiver) : Type 0 where
  pub digest : r'.digest ≡ r.digest
  pub source : r'.source ≡ r.source
  pub keeps : (i : ℕ) → get_elem? r.received i ≡ some true → get_elem? r'.received i ≡ some true

pub Advances-refl : (r : ChunkReceiver) → Advances r r
Advances-refl r = record { digest = refl; source = refl; keeps = λ i h. h }

pub Advances-trans : (r s t : ChunkReceiver) → Advances r s → Advances s t → Advances r t
Advances-trans r s t f g = record {
  digest = g.digest ∙ f.digest;
  source = g.source ∙ f.source;
  keeps = λ i h. g.keeps i (f.keeps i h);
}

set-keeps :
    (flags : List Bool) (k i : ℕ)
    → get_elem? flags i ≡ some true
    → get_elem? (set flags k true) i ≡ some true
set-keeps flags k i h = elim (ℕ_discrete k i) [
  | yes same ↦
      subst (λ n. get_elem? (set flags k true) n ≡ some true) same
        (get_elem?-set_self flags k true (within flags k (rw same h)))
  | no other ↦ get_elem?-set_ne flags k i true other ∙ h
]
  where
    within : (fs : List Bool) (n : ℕ) → get_elem? fs n ≡ some true → n < length fs
    within [] n e = cc
    within (f ∷ fs) zero e = omega arith
    within (f ∷ fs) (suc n) e = omega (arith, within fs n e)

pub range-some :
    (s : ChunkSource) (i : ℕ) → i < total_chunks s → (at : Range) × (range s i ≡ some at)
unfolding range
range-some s i h = (
  record { start = i * s.chunk_bytes; end = min (i * s.chunk_bytes + s.chunk_bytes) s.size },
  ground arith,
)

-- What one chunk of the blob, in range or not, does to a receiver.
abbrev pub Takes : Bytes → ChunkReceiver → ℕ → ChunkReceiver → Type 0
Takes blob r k r' =
    Holds blob r'
    × Advances r r'
    × (k < total_chunks r.source → get_elem? r'.received k ≡ some true)

accept_beyond :
    (r : ChunkReceiver) (k : ℕ) (bytes : Bytes) → range r.source k ≡ none → (accept r k bytes).0 ≡ r
unfolding accept
accept_beyond r k bytes e = rw (e, accept)

chunk_bytes_of-range :
    (s : ChunkSource) (blob : Bytes) (k : ℕ) (at : Range)
    → range s k ≡ some at
    → chunk_bytes_of s blob k ≡ slice at.start at.end blob
unfolding chunk_bytes_of
chunk_bytes_of-range s blob k at e = rw (e, chunk_bytes_of)

pub accept_chunk :
    (blob : Bytes) (r : ChunkReceiver) (k : ℕ)
    → Holds blob r
    → Takes blob r k (accept r k (chunk_bytes_of r.source blob k)).0
accept_chunk blob r k h = elim (Option-cases (range r.source k)) [
  | inl e ↦ subst (Takes blob r k) (sym (accept_beyond r k (chunk_bytes_of r.source blob k) e)) (
    h,
    Advances-refl r,
    λ inside. let (at, found) = range-some r.source k inside in cc (e, found),
  )
  | inr (at, e) ↦
      let sent = ap (λ bytes. (accept r k bytes).0) (chunk_bytes_of-range r.source blob k at e) in
      let taken =
        ap (λ (p : ChunkReceiver × Result (Unit {0})). p.0) (accept-copied blob r h k at e) in
      subst (Takes blob r k) (sym (sent ∙ taken)) (
        copied-Holds blob r h k at e,
        record { digest = refl; source = refl; keeps = λ i. set-keeps r.received k i },
        λ inside. get_elem?-set_self r.received k true (rw (h.shaped.flags) inside),
      )
]
