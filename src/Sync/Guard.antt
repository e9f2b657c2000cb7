-- ===== src/Sync/Guard.antt =====
-- crates/clipse-sync/src/loop_guard.rs: which captures are echoes of what a peer sent. The clock
-- reading is an argument; the order in which the map is enumerated is that of the list.
pub mod Bounds
pub mod Verdicts
use clipse.Prelude.{
  ℕ, ◌-◌, ◌/◌, Bool, true, false, List, [], ◌∷◌, map, Option, none, some, ltb, leb, ◌==◌,
  if◌then◌else◌, length, take, keep_if,
}
use clipse.Prelude.Assoc.{Assoc, lookup, insert, key_in}
use clipse.Prelude.Sorting.{sort_by}
use clipse.Core.Id.{ContentHash, DeviceId}

-- 30 s, in milliseconds.
abbrev pub default_echo_window : ℕ
default_echo_window = 30000

abbrev pub max_entries : ℕ
max_entries = 4096

pub data RebroadcastVerdict : Type 0 where
  send suppress_origin suppress_echo : RebroadcastVerdict

pub record Entry : Type 0 where
  pub origin : DeviceId
  pub at_ms : ℕ

pub record LoopGuard : Type 0 where
  pub window_ms : ℕ
  pub seen : Assoc Entry

-- `LoopGuard::new`.
abbrev pub new_guard : ℕ → LoopGuard
new_guard window = record { window_ms = window; seen = [] }

-- The test of the first `retain`, on `now.saturating_sub(at_ms)`.
unfoldable pub is_fresh : ℕ → ℕ → ContentHash × Entry → Bool
is_fresh window now (_, e) = leb (now - e.at_ms) window

-- `sort_by_key` on `Reverse(at)`.
unfoldable pub newer_first : ℕ × ℕ → ℕ × ℕ → Bool
newer_first (_, a) (_, b) = ltb b a

-- The hashes of the newest half of a full map.
unfoldable pub newest_half : Assoc Entry → List ContentHash
unfolding sort_by newer_first
newest_half seen =
    map (λ p. p.0)
      (take (max_entries / 2) (sort_by newer_first (map (λ (h, e). (h, e.at_ms)) seen)))

-- `prune`.
unfoldable pub prune : ℕ → LoopGuard → LoopGuard
unfolding is_fresh
prune now g =
    let seen = keep_if (is_fresh g.window_ms now) g.seen in
    if leb max_entries (length seen)
    then record g { seen = keep_if (key_in (newest_half seen)) seen }
    else record g { seen = seen }

-- `record_received`.
unfoldable pub record_received : ContentHash → DeviceId → ℕ → LoopGuard → LoopGuard
unfolding prune
record_received hash origin now g =
    let pruned = prune now g in
    record pruned { seen = insert hash (record { origin = origin; at_ms = now }) pruned.seen }

-- `verdict`.
unfoldable pub verdict : ContentHash → DeviceId → ℕ → LoopGuard → RebroadcastVerdict
verdict hash peer now g = elim (lookup hash g.seen) [
  | none ↦ send
  | some e ↦
      if ltb g.window_ms (now - e.at_ms)
      then send
      else if e.origin == peer
      then suppress_origin
      else suppress_echo
]
