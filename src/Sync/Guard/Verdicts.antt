-- ===== src/Sync/Guard/Verdicts.antt =====
-- What the loop guard says of a hash after clips have been recorded.
use clipse.Prelude.{
  ℕ, ◌-◌, ◌≤◌, ◌<◌, ◌≡◌, ◌≢◌, none, some, arith, ltb, ◌==◌, if◌then◌else◌, length, keep_if,
}
use clipse.Prelude.Assoc.{IsKeyed, lookup, lookup-insert, lookup-keep_if}
use clipse.Core.Id.{ContentHash, DeviceId}
use clipse.Sync.Guard.{
  LoopGuard, send, suppress_origin, suppress_echo, is_fresh, prune, record_received, verdict,
  max_entries,
}

-- The verdict on a hash that was just recorded, at any later reading of the clock and whatever else
-- the map held, a full map included: suppressed until the window is over, sent after that.
pub verdict-record_received :
    (hash : ContentHash) (origin peer : DeviceId) (now later : ℕ) (g : LoopGuard)
    → verdict hash peer later (record_received hash origin now g) ≡ (
        if ltb g.window_ms (later - now)
        then send
        else if origin == peer
        then suppress_origin
        else suppress_echo)
unfolding verdict record_received
verdict-record_received hash origin peer now later g =
    ground
      (arith, lookup-insert hash hash (record { origin = origin; at_ms = now }) (prune now g).seen)

lookup-prune :
    (hash : ContentHash) (now : ℕ) (g : LoopGuard)
    → IsKeyed g.seen
    → length (keep_if (is_fresh g.window_ms now) g.seen) < max_entries
    → lookup hash (prune now g).seen ≡ elim (lookup hash g.seen) [
      | none ↦ none
      | some e ↦ if is_fresh g.window_ms now (hash, e) then some e else none
    ]
unfolding prune
lookup-prune hash now g k room =
    ground (arith, lookup-keep_if (is_fresh g.window_ms now) hash g.seen k)

-- While the map has room, recording one clip changes the verdict on no other hash: what is pruned is
-- what had run out.
pub verdict-record_received_ne :
    (hash other : ContentHash) (origin peer : DeviceId) (now later : ℕ) (g : LoopGuard)
    → IsKeyed g.seen
    → length (keep_if (is_fresh g.window_ms now) g.seen) < max_entries
    → hash ≢ other
    → now ≤ later
    → verdict other peer later (record_received hash origin now g) ≡ verdict other peer later g
unfolding verdict record_received is_fresh
verdict-record_received_ne hash other origin peer now later g k room ne le = ground (
  arith,
  lookup-insert hash other (record { origin = origin; at_ms = now }) (prune now g).seen,
  lookup-prune other now g k room,
)
