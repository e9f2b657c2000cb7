-- ===== src/Sync/Examples.antt =====
-- Runs of crates/clipse-sync, and its theorems at concrete inputs.
use mathlib.Core.List.{Memᴰ}
use clipse.Prelude.{ℕ, List, zero, suc, ◌<◌, ◌≡◌, refl, [], ◌∷◌, true, false, arith, length}
use clipse.Prelude.Bytes.{Bytes}
use clipse.Prelude.Assoc.{IsKeyed}
use clipse.Core.Samples.{sum}
use clipse.Prelude.Slices.{splice, set}
use clipse.Sync.Chunk.Arrivals.{receive_sent, IsFrom, finish-receive_sent}
use clipse.Sync.Chunk.Source.{ok, err, wrong_length, total_chunks, range}
use clipse.Sync.Chunk.Receiver.{ChunkReceiver, new_receiver, accept, copy_chunk, finish}
use clipse.Sync.Chunk.Transfer.{receive_all, finish-receive_all}
use clipse.Sync.Guard.{LoopGuard, record_received}
use clipse.Sync.Guard.Bounds.{IsBounded, record_received-IsBounded}

-- Five bytes in chunks of two.
abbrev blob : Bytes
blob = 1 ∷ 2 ∷ 3 ∷ 4 ∷ 5 ∷ []

abbrev fresh : ChunkReceiver
fresh = record {
  digest = 15;
  source = record { size = 5; chunk_bytes = 2 };
  buffer = 0 ∷ 0 ∷ 0 ∷ 0 ∷ 0 ∷ [];
  received = false ∷ false ∷ false ∷ [];
}

fresh_new : new_receiver (sum blob) (length blob) 2 ≡ ok fresh
unfolding new_receiver total_chunks sum
fresh_new = refl

all_three : (i : ℕ) → i < 3 → Memᴰ i (2 ∷ 9 ∷ 0 ∷ 1 ∷ 0 ∷ [])
all_three zero h = Memᴰ.tail (Memᴰ.tail (Memᴰ.head refl))
all_three (suc zero) h = Memᴰ.tail (Memᴰ.tail (Memᴰ.tail (Memᴰ.head refl)))
all_three (suc (suc zero)) h = Memᴰ.head refl
all_three (suc (suc (suc i))) h = absurd (omega arith)

all_chunks : (i : ℕ) → i < total_chunks fresh.source → Memᴰ i (2 ∷ 9 ∷ 0 ∷ 1 ∷ 0 ∷ [])
unfolding total_chunks
all_chunks = all_three

finish-receive_all_example : finish sum (receive_all fresh blob (2 ∷ 9 ∷ 0 ∷ 1 ∷ 0 ∷ [])) ≡ ok blob
finish-receive_all_example =
    finish-receive_all sum blob 2 fresh (2 ∷ 9 ∷ 0 ∷ 1 ∷ 0 ∷ []) fresh_new all_chunks

-- A peer that sends a chunk too short, one past the end and the three others out of order.
abbrev sent : List (ℕ × Bytes)
sent = (1, 3 ∷ 4 ∷ []) ∷ (0, 9 ∷ []) ∷ (0, 1 ∷ 2 ∷ []) ∷ (7, 8 ∷ []) ∷ (2, 5 ∷ []) ∷ []

sent-finishes : finish sum (receive_sent fresh sent) ≡ ok blob
unfolding finish receive_sent accept copy_chunk range total_chunks sum splice set
sent-finishes = refl

finish-receive_sent_example :
    (sum blob ≡ 15)
    × (length blob ≡ 5)
    × ((i : ℕ) → i < total_chunks fresh.source → IsFrom (λ p. Memᴰ p sent) fresh.source blob i)
unfolding sum
finish-receive_sent_example = finish-receive_sent sum 15 5 2 fresh sent blob fresh_new sent-finishes

abbrev half : ChunkReceiver
half = record {
  digest = 15;
  source = record { size = 5; chunk_bytes = 2 };
  buffer = 1 ∷ 2 ∷ 0 ∷ 0 ∷ 5 ∷ [];
  received = true ∷ false ∷ true ∷ [];
}

half-wrong : (accept half 2 (6 ∷ 7 ∷ [])).1 ≡ err (wrong_length 2 2 1)
unfolding accept range total_chunks
half-wrong = refl

-- A guard that has heard of one clip.
abbrev guard : LoopGuard
guard = record { window_ms = 30000; seen = (7, record { origin = 2; at_ms = 100 }) ∷ [] }

guard-IsKeyed : IsKeyed guard.seen
guard-IsKeyed = (tt, tt)

record_received-IsBounded_example : IsBounded (record_received 8 3 200 guard)
record_received-IsBounded_example =
    record_received-IsBounded 8 3 200 guard (record { keyed = guard-IsKeyed; capped = omega arith })
