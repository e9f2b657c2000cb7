-- ===== src/Sync/Chunk/Arrivals.antt =====
-- What a receiver has taken from a peer that sends anything at all.
use mathlib.Core.List.{Memᴰ}
use clipse.Prelude.{
  ℕ, zero, suc, ◌+◌, ◌-◌, ◌*◌, ◌≤◌, ◌<◌, ◌≡◌, ◌≢◌, refl, sym, ap, ◌∙◌, ◌⊎◌, inl, inr, Bool, true,
  false, not, List, [], ◌∷◌, some, min, arith, length, get_elem?, keep_if, All, replicate,
  Option-cases, subst, ==_iff, Bool-cases, ◌==◌,
}
use native.Mathlib.Decide.{dec_lt, ℕ_discrete}
use clipse.Prelude.Bytes.{Bytes}
use clipse.Prelude.Slices.{
  splice, set, length-set, length-splice, get_elem?-set_ne, get_elem?-splice_in,
  get_elem?-splice_out,
}
use clipse.Core.Id.{ContentHash}
use clipse.Sync.Chunk.Source.{ok, ChunkSource, total_chunks, Range, range}
use clipse.Sync.Chunk.Shape.{
  IsShaped, range_bounds, mul_step, chunk_starts_inside, new_receiver-IsShaped,
}
use clipse.Sync.Chunk.Receiver.{ChunkReceiver, new_receiver, accept, copy_chunk, finish}

-- The receiver after chunks with these indices and bytes, whatever becomes of each.
unfoldable pub receive_sent : ChunkReceiver → List (ℕ × Bytes) → ChunkReceiver
receive_sent r [] = r
receive_sent r ((i, bytes) ∷ sent) = receive_sent (accept r i bytes).0 sent

-- The bytes of chunk `i` of a buffer are those of a chunk that was sent.
abbrev pub IsFrom : (ℕ × Bytes → Type 0) → ChunkSource → Bytes → ℕ → Type 0
IsFrom Sent s buffer i =
    (bytes : Bytes) × Sent (i, bytes)
    × ((j : ℕ)
        → i * s.chunk_bytes ≤ j
        → j < min (i * s.chunk_bytes + s.chunk_bytes) s.size
        → get_elem? buffer j ≡ get_elem? bytes (j - i * s.chunk_bytes))

-- Where a chunk is marked as received, the buffer holds what was sent for it.
record IsBacked (Sent : ℕ × Bytes → Type 0) (r : ChunkReceiver) : Type 0 where
  shaped : IsShaped r
  backed : (i : ℕ) → get_elem? r.received i ≡ some true → IsFrom Sent r.source r.buffer i

-- One chunk copied.
module _ (Sent : ℕ × Bytes → Type 0) (r : ChunkReceiver) (h : IsBacked Sent r) (k : ℕ)
    (bytes : Bytes) (at : Range) (e : range r.source k ≡ some at)
    (fit : length bytes ≡ at.end - at.start) (sent : Sent (k, bytes)) where
  abbrev copied : ChunkReceiver
  copied = record r { buffer = splice r.buffer at.start bytes; received = set r.received k true }

  bounds :
      (k < total_chunks r.source)
      × (at.start ≡ k * r.source.chunk_bytes)
      × (at.end ≡ min (k * r.source.chunk_bytes + r.source.chunk_bytes) r.source.size)
      × (at.start < r.source.size)
  bounds =
      let b = range_bounds r.source k at e in
      (
        b.0,
        b.1,
        b.2,
        omega (arith, chunk_starts_inside r.source k h.shaped.positive h.shaped.small b.0),
      )

  fits : at.start + length bytes ≤ length r.buffer
  fits = let b = bounds in let s = h.shaped.buffer in omega arith

  own : IsFrom Sent r.source copied.buffer k
  own = (
    bytes,
    sent,
    λ j lo hi.
        let b = bounds in
        let there : at.start + (j - at.start) ≡ j = omega arith in
        subst (λ n. get_elem? copied.buffer n ≡ get_elem? bytes (j - k * r.source.chunk_bytes))
          there
          (get_elem?-splice_in r.buffer bytes at.start fits (j - at.start) (omega arith)
            ∙ ap (λ n. get_elem? bytes (j - n)) b.1),
  )

  kept : (i : ℕ) → k ≢ i → IsFrom Sent r.source r.buffer i → IsFrom Sent r.source copied.buffer i
  kept i other (old, was, same) = (
    old,
    was,
    λ j lo hi.
        let b = bounds in
        get_elem?-splice_out r.buffer bytes at.start fits j (apart j lo hi (dec_lt k i))
        ∙ same j lo hi,
  )
    where
      apart :
          (j : ℕ)
          → i * r.source.chunk_bytes ≤ j
          → j < min (i * r.source.chunk_bytes + r.source.chunk_bytes) r.source.size
          → Dec (k < i)
          → (j < at.start) ⊎ (at.start + length bytes ≤ j)
      apart j lo hi (yes p) =
          let b = bounds in inr (omega (arith, mul_step k i r.source.chunk_bytes p))
      apart j lo hi (no p) =
          let b = bounds in inl (omega (arith, mul_step i k r.source.chunk_bytes (omega arith)))

  copied-IsBacked : IsBacked Sent copied
  copied-IsBacked = record {
    shaped = record {
      small = h.shaped.small;
      positive = h.shaped.positive;
      buffer = length-splice r.buffer bytes at.start fits ∙ h.shaped.buffer;
      flags = length-set r.received k true ∙ h.shaped.flags;
    };
    backed = λ i got. elim (ℕ_discrete k i) [
      | yes same ↦ subst (IsFrom Sent r.source copied.buffer) same own
      | no other ↦
          kept i other (h.backed i (sym (get_elem?-set_ne r.received k i true other) ∙ got))
    ];
  }

-- A chunk that is refused changes nothing.
accept-cases :
    (r : ChunkReceiver) (k : ℕ) (bytes : Bytes)
    → ((accept r k bytes).0 ≡ r)
      ⊎ ((at : Range) × (range r.source k ≡ some at)
          × (length bytes ≡ at.end - at.start)
          × ((accept r k bytes).0 ≡ record r {
            buffer = splice r.buffer at.start bytes;
            received = set r.received k true;
          }))
unfolding accept copy_chunk
accept-cases r k bytes = elim (Option-cases (range r.source k)) [
  | inl e ↦ inl (rw (e, accept) refl)
  | inr (at, e) ↦ elim (Bool-cases (length bytes == at.end - at.start)) [
    | inl fit ↦ inr (at, e, (==_iff _ _).0 fit, rw (e, fit, accept) refl)
    | inr wrong ↦ inl (rw (e, wrong, accept) refl)
  ]
]

module _ (Sent : ℕ × Bytes → Type 0) where
  accept-IsBacked :
      (r : ChunkReceiver) (k : ℕ) (bytes : Bytes)
      → IsBacked Sent r
      → Sent (k, bytes)
      → IsBacked Sent (accept r k bytes).0
        × ((accept r k bytes).0.source ≡ r.source)
        × ((accept r k bytes).0.digest ≡ r.digest)
  accept-IsBacked r k bytes h sent = elim (accept-cases r k bytes) [
    | inl same ↦
        (subst (IsBacked Sent) (sym same) h, ap (λ q. q.source) same, ap (λ q. q.digest) same)
    | inr (at, e, fit, taken) ↦ (
      subst (IsBacked Sent) (sym taken) (copied-IsBacked Sent r h k bytes at e fit sent),
      ap (λ q. q.source) taken,
      ap (λ q. q.digest) taken,
    )
  ]

  receive_sent-IsBacked :
      (sent : List (ℕ × Bytes)) (r : ChunkReceiver)
      → IsBacked Sent r
      → All Sent sent
      → IsBacked Sent (receive_sent r sent)
        × ((receive_sent r sent).source ≡ r.source)
        × ((receive_sent r sent).digest ≡ r.digest)
  unfolding receive_sent
  receive_sent-IsBacked [] r h a = (h, refl, refl)
  receive_sent-IsBacked ((k, bytes) ∷ sent) r h a =
      let (h', s, d) = accept-IsBacked r k bytes h a.0 in
      let (h'', s', d') = receive_sent-IsBacked sent (accept r k bytes).0 h' a.1 in
      (h'', s' ∙ s, d' ∙ d)

All-Memᴰ :
    (xs ys : List (ℕ × Bytes)) → ((p : ℕ × Bytes) → Memᴰ p xs → Memᴰ p ys) → All (λ p. Memᴰ p ys) xs
All-Memᴰ [] ys f = tt
All-Memᴰ (x ∷ xs) ys f = (f x (Memᴰ.head refl), All-Memᴰ xs ys (λ p m. f p (Memᴰ.tail m)))

unmarked : (n i : ℕ) → get_elem? (replicate n false) i ≢ some true
unmarked zero i e = cc
unmarked (suc n) zero e = cc
unmarked (suc n) (suc i) e = unmarked n i e

new_receiver-IsBacked :
    (Sent : ℕ × Bytes → Type 0) (d : ContentHash) (size chunk : ℕ) (r : ChunkReceiver)
    → new_receiver d size chunk ≡ ok r
    → IsBacked Sent r × (r.digest ≡ d) × (r.source.size ≡ size)
unfolding new_receiver
new_receiver-IsBacked Sent d size chunk r h =
    let flags : r.received ≡ replicate (total_chunks r.source) false = ground arith in
    (
      record {
        shaped = new_receiver-IsShaped d size chunk r h;
        backed = λ i got.
            absurd
              (unmarked (total_chunks r.source) i (ap (λ fs. get_elem? fs i) (sym flags) ∙ got));
      },
      ground arith,
      ground arith,
    )

all_marked :
    (flags : List Bool) (i : ℕ)
    → length (keep_if not flags) ≡ 0
    → i < length flags
    → get_elem? flags i ≡ some true
all_marked [] i h inside = absurd (omega arith)
all_marked (f ∷ fs) zero h inside = ground arith
all_marked (f ∷ fs) (suc i) h inside = ground (arith, all_marked fs i)

finish-cases :
    (digest : Bytes → ContentHash) (r : ChunkReceiver) (bytes : Bytes)
    → finish digest r ≡ ok bytes
    → (bytes ≡ r.buffer) × (digest bytes ≡ r.digest) × (length (keep_if not r.received) ≡ 0)
unfolding finish
finish-cases digest r bytes h = ground arith

-- Whatever chunks a peer sends, of any index, length and order: if the transfer finishes, what it returns has the
-- promised digest and size, and in the range of each chunk it holds the bytes of a chunk that was sent with that
-- index.
pub finish-receive_sent :
    (digest : Bytes → ContentHash) (d : ContentHash) (size chunk : ℕ) (r : ChunkReceiver)
    (sent : List (ℕ × Bytes)) (bytes : Bytes)
    → new_receiver d size chunk ≡ ok r
    → finish digest (receive_sent r sent) ≡ ok bytes
    → (digest bytes ≡ d)
      × (length bytes ≡ size)
      × ((i : ℕ) → i < total_chunks r.source → IsFrom (λ p. Memᴰ p sent) r.source bytes i)
finish-receive_sent digest d size chunk r sent bytes made done =
    let Sent : ℕ × Bytes → Type 0 = λ p. Memᴰ p sent in
    let (fresh, promised, sized) = new_receiver-IsBacked Sent d size chunk r made in
    let (held, source, kept_digest) =
      receive_sent-IsBacked Sent sent r fresh (All-Memᴰ sent sent (λ p m. m)) in
    let r' = receive_sent r sent in
    let (whole, summed, none_missing) = finish-cases digest r' bytes done in
    (
      summed ∙ kept_digest ∙ promised,
      ap (λ (b : Bytes). length b) whole ∙ held.shaped.buffer ∙ ap (λ s. s.size) source ∙ sized,
      λ i inside.
          let marked =
            all_marked r'.received i none_missing
              (subst (λ n. i < n) (sym (held.shaped.flags ∙ ap total_chunks source)) inside) in
          subst (λ s. IsFrom Sent s bytes i) source
            (subst (λ b. IsFrom Sent r'.source b i) (sym whole) (held.backed i marked)),
    )
