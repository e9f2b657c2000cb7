-- ===== src/Core/Hlc.antt =====
-- crates/clipse-core/src/hlc.rs: hybrid logical clocks. The system clock is an argument of each
-- call; `u32` and `u64` additions saturate as the source's do.
pub mod Order
pub mod Clock
pub mod Drift
use clipse.Prelude.{
  ℕ, ◌+◌, ◌≡◌, Bool, true, false, ◌&&◌, List, [], ◌∷◌, max, compare, Ordering, ltb, ◌==◌,
  if◌then◌else◌,
}
use clipse.Prelude.Words.{u32_max, u64_max, saturating_add}
use clipse.Core.Id.{DeviceId}

abbrev pub max_clock_drift_ms : ℕ
max_clock_drift_ms = 60000

pub record Hlc : Type 0 where
  pub wall_ms : ℕ
  pub counter : ℕ
  pub device : DeviceId

-- `Ordering::then`.
abbrev pub then_with : Ordering → Ordering → Ordering
then_with Ordering.eq o = o
then_with o _ = o

-- `Hlc::cmp`.
unfoldable pub cmp : Hlc → Hlc → Ordering
cmp a b =
    then_with (then_with (compare a.wall_ms b.wall_ms) (compare a.counter b.counter))
      (compare a.device b.device)

-- `a > b`, as `merge` writes it.
unfoldable pub later : Hlc → Hlc → Bool
unfolding cmp
later a b = elim (cmp a b) [ Ordering.gt ↦ true | _ ↦ false ]

-- `HlcClock`, its `State` inlined.
pub record HlcClock : Type 0 where
  pub device : DeviceId
  pub wall_ms : ℕ
  pub counter : ℕ

abbrev pub new_clock : DeviceId → HlcClock
new_clock device = record { device = device; wall_ms = 0; counter = 0 }

-- `HlcClock::now`, where `physical` is what the system clock says.
unfoldable pub now : ℕ → HlcClock → HlcClock × Hlc
now physical c =
    let c' : HlcClock =
      if ltb c.wall_ms physical
      then record c { wall_ms = physical; counter = 0 }
      else record c { counter = saturating_add u32_max c.counter 1 } in
    (c', record { wall_ms = c'.wall_ms; counter = c'.counter; device = c.device })

-- The wall time of `remote` that `observe` goes by.
unfoldable pub clamp_remote : ℕ → Hlc → ℕ
clamp_remote physical remote =
    if ltb (saturating_add u64_max physical max_clock_drift_ms) remote.wall_ms
    then physical
    else remote.wall_ms

-- The four cases of the `match` on where the greatest wall time came from.
unfoldable pub next_counter : Bool → Bool → ℕ → ℕ → ℕ
next_counter true true mine theirs = saturating_add u32_max (max mine theirs) 1
next_counter true false mine theirs = saturating_add u32_max mine 1
next_counter false true mine theirs = saturating_add u32_max theirs 1
next_counter false false mine theirs = 0

-- `HlcClock::observe`.
unfoldable pub observe : ℕ → Hlc → HlcClock → HlcClock × Hlc
unfolding clamp_remote next_counter
observe physical remote c =
    let remote_wall : ℕ = clamp_remote physical remote in
    let max_wall : ℕ = max (max c.wall_ms remote_wall) physical in
    let counter : ℕ =
      next_counter (max_wall == c.wall_ms) (max_wall == remote_wall) c.counter remote.counter in
    (
      record c { wall_ms = max_wall; counter = counter },
      record { wall_ms = max_wall; counter = counter; device = c.device },
    )
