-- ===== src/Core/Hlc/Drift.antt =====
-- What `observe` makes of a peer's timestamp, within the drift that it tolerates and beyond it.
use clipse.Prelude.{ℕ, ◌+◌, ◌≤◌, ◌<◌, ◌≡◌, arith, max}
use clipse.Prelude.Words.{u32_max, u64_max}
use clipse.Core.Hlc.{Hlc, HlcClock, now, observe, max_clock_drift_ms}
use clipse.Core.Hlc.Order.{Before}

-- A timestamp within the tolerated drift is ordered strictly before the one that `observe` returns,
-- unless the 32-bit counter has saturated.
pub observe-Before_remote :
    (physical : ℕ) (remote : Hlc) (c : HlcClock)
    → remote.wall_ms ≤ u64_max
    → remote.wall_ms ≤ physical + max_clock_drift_ms
    → (observe physical remote c).1.counter < u32_max
    → Before remote (observe physical remote c).1
unfolding observe
observe-Before_remote physical remote c w d h = ground arith

-- Whatever wall time the peer claims, our clock goes no further than its own value and the
-- tolerated drift beyond the system clock, and never back.
pub observe_bounds :
    (physical : ℕ) (remote : Hlc) (c : HlcClock)
    → (c.wall_ms ≤ (observe physical remote c).0.wall_ms)
      × (physical ≤ (observe physical remote c).0.wall_ms)
      × ((observe physical remote c).0.wall_ms ≤ max c.wall_ms (physical + max_clock_drift_ms))
unfolding observe
observe_bounds physical remote c = ground arith

-- A timestamp beyond the tolerated drift, and beyond our own clock, stays ahead: what `observe` returns
-- is ordered before it, and so is the event that `now` stamps next as long as the system clock has not
-- reached the remote time.
pub observe_future :
    (physical next : ℕ) (remote : Hlc) (c : HlcClock)
    → physical + max_clock_drift_ms < remote.wall_ms
    → remote.wall_ms ≤ u64_max
    → c.wall_ms < remote.wall_ms
    → next < remote.wall_ms
    → Before (observe physical remote c).1 remote
      × Before (now next (observe physical remote c).0).1 remote
unfolding now observe
observe_future physical next remote c f w h n = (ground arith, ground arith)

-- The wall time of a timestamp beyond the tolerated drift is discarded, its counter is not: if that
-- is the largest 32-bit value and the system clock is ahead of ours, `observe` returns the system
-- clock's time with the largest counter, and `now` in the same millisecond returns that timestamp
-- once more.
pub now-observe_saturated :
    (physical : ℕ) (remote : Hlc) (c : HlcClock)
    → physical + max_clock_drift_ms < remote.wall_ms
    → remote.wall_ms ≤ u64_max
    → remote.counter ≡ u32_max
    → c.wall_ms < physical
    → ((observe physical remote c).1.wall_ms ≡ physical)
      × ((observe physical remote c).1.counter ≡ u32_max)
      × ((now physical (observe physical remote c).0).1 ≡ (observe physical remote c).1)
unfolding now observe
now-observe_saturated physical remote c f w k h = (ground arith, ground arith, ground arith)
