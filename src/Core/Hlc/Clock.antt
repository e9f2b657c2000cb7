-- ===== src/Core/Hlc/Clock.antt =====
-- Histories of one clock: any interleaving of `now` and `observe`, under any readings of the
-- system clock, which may stall or go back.
use clipse.Prelude.{ℕ, ◌<◌, ◌≡◌, refl, List, [], ◌∷◌, arith, All, subst}
use clipse.Prelude.Words.{u32_max}
use clipse.Core.Hlc.{Hlc, HlcClock, now, observe}
use clipse.Core.Hlc.Order.{Before}

pub data ClockEvent : Type 0 where
  local : ℕ → ClockEvent
  remote : ℕ → Hlc → ClockEvent

unfoldable pub step : HlcClock → ClockEvent → HlcClock × Hlc
unfolding now observe
step c (local physical) = now physical c
step c (remote physical r) = observe physical r c

unfoldable pub stamps : HlcClock → List ClockEvent → List Hlc
unfolding step
stamps c [] = []
stamps c (e ∷ es) = (step c e).1 ∷ stamps (step c e).0 es

-- The last timestamp that a clock has given out.
abbrev pub last : HlcClock → Hlc
last c = record { wall_ms = c.wall_ms; counter = c.counter; device = c.device }

abbrev pub IsIncreasing : Hlc → List Hlc → Type 0
IsIncreasing prev [] = Unit
IsIncreasing prev (s ∷ ss) = Before prev s × IsIncreasing s ss

now-Before :
    (physical : ℕ) (c : HlcClock)
    → (now physical c).1.counter < u32_max
    → Before (last c) (now physical c).1
unfolding now
now-Before physical c h = ground arith

observe-Before :
    (physical : ℕ) (r : Hlc) (c : HlcClock)
    → (observe physical r c).1.counter < u32_max
    → Before (last c) (observe physical r c).1
unfolding observe
observe-Before physical r c h = ground arith

last-now : (physical : ℕ) (c : HlcClock) → last (now physical c).0 ≡ (now physical c).1
unfolding now
last-now physical c = ground arith

last-step : (c : HlcClock) (e : ClockEvent) → last (step c e).0 ≡ (step c e).1
unfolding step
last-step c (local physical) = last-now physical c
last-step c (remote physical r) = refl

step-Before :
    (c : HlcClock) (e : ClockEvent) → (step c e).1.counter < u32_max → Before (last c) (step c e).1
step-Before c (local physical) h = unfold step in now-Before physical c h
step-Before c (remote physical r) h = unfold step in observe-Before physical r c h

-- Along any history of one clock, readings of the system clock that stall or jump back included,
-- each timestamp is strictly after the one before, as long as the 32-bit counter has not saturated.
pub stamps-IsIncreasing :
    (c : HlcClock) (es : List ClockEvent)
    → All (λ s. s.counter < u32_max) (stamps c es)
    → IsIncreasing (last c) (stamps c es)
unfolding stamps
stamps-IsIncreasing c [] h = tt
stamps-IsIncreasing c (e ∷ es) h = (
  step-Before c e h.0,
  subst (λ s. IsIncreasing s (stamps (step c e).0 es)) (last-step c e)
      (stamps-IsIncreasing (step c e).0 es h.1),
)
