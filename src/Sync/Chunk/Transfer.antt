-- ===== src/Sync/Chunk/Transfer.antt =====
-- A whole transfer: chunks of one blob, accepted in any order and any number of times.
use mathlib.Core.List.{Memᴰ}
use clipse.Prelude.{
  ℕ, zero, suc, ◌<◌, ◌≡◌, ◌≢◌, refl, sym, ◌∙◌, Bool, true, false, not, List, [], ◌∷◌, some, arith,
  length, get_elem?, replicate, keep_if, subst, subst,
}
use native.Mathlib.Decide.{dec_lt}
use clipse.Prelude.Bytes.{Bytes}
use clipse.Prelude.Slices.{get_elem?_above, eq_of_get_elem?}
use clipse.Core.Id.{ContentHash}
use clipse.Sync.Chunk.Source.{ok, total_chunks}
use clipse.Sync.Chunk.Shape.{new_receiver-IsShaped, chunk_of}
use clipse.Sync.Chunk.Step.{
  Holds, Advances, Advances-refl, Advances-trans, accept_chunk, chunk_bytes_of,
}
use clipse.Sync.Chunk.Receiver.{ChunkReceiver, new_receiver, accept, finish}

-- The receiver after the chunks of `blob` with these indices, in this order.
unfoldable pub receive_all : ChunkReceiver → Bytes → List ℕ → ChunkReceiver
receive_all r blob [] = r
receive_all r blob (i ∷ order) =
    receive_all (accept r i (chunk_bytes_of r.source blob i)).0 blob order

receive_all-Holds :
    (blob : Bytes) (order : List ℕ) (r : ChunkReceiver)
    → Holds blob r
    → Holds blob (receive_all r blob order) × Advances r (receive_all r blob order)
unfolding receive_all
receive_all-Holds blob [] r h = (h, Advances-refl r)
receive_all-Holds blob (k ∷ order) r h =
    let (h', step, marked) = accept_chunk blob r k h in
    let r' = (accept r k (chunk_bytes_of r.source blob k)).0 in
    let (h'', rest) = receive_all-Holds blob order r' h' in
    (h'', Advances-trans r r' (receive_all r' blob order) step rest)

receive_all-marks :
    (blob : Bytes) (order : List ℕ) (r : ChunkReceiver) (i : ℕ)
    → Holds blob r
    → i < total_chunks r.source
    → Memᴰ i order
    → get_elem? (receive_all r blob order).received i ≡ some true
unfolding receive_all
receive_all-marks blob [] r i h inside m = elim m [ ]
receive_all-marks blob (k ∷ order) r i h inside (Memᴰ.head e) =
    let (h', step, marked) = accept_chunk blob r k h in
    let r' = (accept r k (chunk_bytes_of r.source blob k)).0 in
    let (h'', rest) = receive_all-Holds blob order r' h' in
    rest.keeps i (
      subst (λ n. get_elem? r'.received n ≡ some true) (sym e)
        (marked (subst (λ n. n < total_chunks r.source) e inside)))
receive_all-marks blob (k ∷ order) r i h inside (Memᴰ.tail m) =
    let (h', step, marked) = accept_chunk blob r k h in
    receive_all-marks blob order (accept r k (chunk_bytes_of r.source blob k)).0 i h'
      (subst (λ s. i < total_chunks s) (sym step.source) inside) m

-- A receiver that has taken nothing holds any blob of its size.
get_elem?-replicate-false : (n i : ℕ) → get_elem? (replicate n false) i ≢ some true
get_elem?-replicate-false zero i e = cc
get_elem?-replicate-false (suc n) zero e = cc
get_elem?-replicate-false (suc n) (suc i) e = get_elem?-replicate-false n i e

new_receiver-Holds :
    (blob : Bytes) (d : ContentHash) (chunk : ℕ) (r : ChunkReceiver)
    → new_receiver d (length blob) chunk ≡ ok r
    → Holds blob r × (r.digest ≡ d)
unfolding new_receiver
new_receiver-Holds blob d chunk r h = (
  record {
    shaped = new_receiver-IsShaped d (length blob) chunk r h;
    size = ground arith;
    bytes = λ i j got. absurd (nothing i got);
  },
  ground arith,
)
  where
    flags : r.received ≡ replicate (total_chunks r.source) false
    flags = ground arith

    nothing : (i : ℕ) → get_elem? r.received i ≢ some true
    nothing i got = get_elem?-replicate-false (total_chunks r.source) i (rw flags at got)

none_missing :
    (flags : List Bool)
    → ((i : ℕ) → i < length flags → get_elem? flags i ≡ some true)
    → length (keep_if not flags) ≡ 0
none_missing [] h = refl
none_missing (f ∷ fs) h =
    ground (arith, h 0 (omega arith), none_missing fs (λ i lt. h (suc i) (omega arith)))

-- A receiver with every chunk marked holds the blob.
buffer-eq :
    (blob : Bytes) (r : ChunkReceiver)
    → Holds blob r
    → ((i : ℕ) → i < total_chunks r.source → get_elem? r.received i ≡ some true)
    → r.buffer ≡ blob
buffer-eq blob r h all = eq_of_get_elem? r.buffer blob λ j. at j (dec_lt j r.source.size)
  where
    at : (j : ℕ) → Dec (j < r.source.size) → get_elem? r.buffer j ≡ get_elem? blob j
    at j (yes p) =
        let (i, lt, lo, hi) = chunk_of r.source j h.shaped.positive h.shaped.small p in
        h.bytes i j (all i lt) lo hi p
    at j (no q) =
        let s = h.size in
        let b = h.shaped.buffer in
        get_elem?_above r.buffer j (omega arith) ∙ sym (get_elem?_above blob j (omega arith))

finish_of_Holds :
    (digest : Bytes → ContentHash) (blob : Bytes) (r : ChunkReceiver)
    → r.digest ≡ digest blob
    → r.buffer ≡ blob
    → length (keep_if not r.received) ≡ 0
    → finish digest r ≡ ok blob
unfolding finish
finish_of_Holds digest blob r d b m = ground arith

-- A receiver that is made for a blob and takes its chunks, each at least once, in any order, with
-- repeats and with indices past the end, finishes with exactly the blob.
pub finish-receive_all :
    (digest : Bytes → ContentHash) (blob : Bytes) (chunk : ℕ) (r : ChunkReceiver) (order : List ℕ)
    → new_receiver (digest blob) (length blob) chunk ≡ ok r
    → ((i : ℕ) → i < total_chunks r.source → Memᴰ i order)
    → finish digest (receive_all r blob order) ≡ ok blob
finish-receive_all digest blob chunk r order made covers =
    let (fresh, promised) = new_receiver-Holds blob (digest blob) chunk r made in
    let (held, path) = receive_all-Holds blob order r fresh in
    let r' = receive_all r blob order in
    let marked = λ (i : ℕ) (lt : i < total_chunks r.source).
      receive_all-marks blob order r i fresh lt (covers i lt) in
    finish_of_Holds digest blob r' (path.digest ∙ promised)
      (buffer-eq blob r' held (λ i lt. marked i (subst (λ s. i < total_chunks s) path.source lt)))
      (none_missing r'.received (λ i lt.
        marked i
          (subst (λ s. i < total_chunks s) path.source (subst (λ n. i < n) held.shaped.flags lt))))
