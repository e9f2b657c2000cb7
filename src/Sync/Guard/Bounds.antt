-- ===== src/Sync/Guard/Bounds.antt =====
-- The loop guard never grows past its cap, and its keys stay distinct.
use clipse.Prelude.{
  ℕ, ◌≤◌, ◌<◌, map, arith, length, take, keep_if, leb, Bool-cases, inl, inr, length-map,
  length-take,
}
use clipse.Prelude.Assoc.{
  Assoc, IsKeyed, insert-IsKeyed, keep_if-IsKeyed, length-insert-le, key_in, length-keep_if_keys,
}
use clipse.Prelude.Sorting.{sort_by}
use clipse.Core.Id.{ContentHash, DeviceId}
use clipse.Sync.Guard.{
  Entry, LoopGuard, is_fresh, newer_first, newest_half, prune, record_received, max_entries,
}

-- The map of a guard: distinct hashes, at most `MAX_ENTRIES` of them.
pub record IsBounded (g : LoopGuard) : Type 0 where
  pub keyed : IsKeyed g.seen
  pub capped : length g.seen ≤ max_entries

length-newest_half : (seen : Assoc Entry) → length (newest_half seen) ≤ 2048
unfolding newest_half
length-newest_half seen =
    let sorted = sort_by newer_first (map (λ (h, e). (h, e.at_ms)) seen) in
    omega (arith, length-map (λ p. p.0) (take 2048 sorted), length-take 2048 sorted)

pub prune-IsKeyed : (now : ℕ) (g : LoopGuard) → IsKeyed g.seen → IsKeyed (prune now g).seen
unfolding prune
prune-IsKeyed now g h =
    let fresh = keep_if-IsKeyed (is_fresh g.window_ms now) g.seen h in
    let seen = keep_if (is_fresh g.window_ms now) g.seen in
    ground (arith, fresh, keep_if-IsKeyed (key_in (newest_half seen)) seen fresh)

pub length-prune :
    (now : ℕ) (g : LoopGuard) → IsKeyed g.seen → length (prune now g).seen < max_entries
unfolding prune
length-prune now g h =
    let seen = keep_if (is_fresh g.window_ms now) g.seen in
    let fresh = keep_if-IsKeyed (is_fresh g.window_ms now) g.seen h in
    let half = length-keep_if_keys (newest_half seen) seen fresh in
    let cap = length-newest_half seen in
    elim (Bool-cases (leb max_entries (length seen))) [
      | inl e ↦ rw (e, prune) (omega arith)
      | inr e ↦ rw (e, prune) (ground arith)
    ]

-- Recording a clip keeps the map within its cap, however many clips are recorded within the window,
-- and its hashes distinct.
pub record_received-IsBounded :
    (hash : ContentHash) (origin : DeviceId) (now : ℕ) (g : LoopGuard)
    → IsBounded g
    → IsBounded (record_received hash origin now g)
unfolding record_received
record_received-IsBounded hash origin now g b = record {
  keyed = insert-IsKeyed hash _ (prune now g).seen (prune-IsKeyed now g b.keyed);
  capped = omega (
    arith,
    length-insert-le hash (record { origin = origin; at_ms = now }) (prune now g).seen,
    length-prune now g b.keyed,
  );
}
