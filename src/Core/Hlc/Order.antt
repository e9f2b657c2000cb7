-- ===== src/Core/Hlc/Order.antt =====
-- The order of timestamps: a strict total order, device ids breaking the ties.
use clipse.Prelude.{◌<◌, ◌≡◌, ◌⊎◌, true, false, arith}
use clipse.Core.Hlc.{Hlc, later}

-- `(wall_ms, counter, device)` is lexicographically below.
abbrev pub Before : Hlc → Hlc → Type 0
Before a b =
    (a.wall_ms < b.wall_ms)
    ⊎ ((a.wall_ms ≡ b.wall_ms) × (a.counter < b.counter))
    ⊎ ((a.wall_ms ≡ b.wall_ms) × (a.counter ≡ b.counter) × (a.device < b.device))

pub later→Before : (a b : Hlc) → later a b ≡ true → Before b a
unfolding later
later→Before a b h = ground arith

pub Before→later : (a b : Hlc) → Before b a → later a b ≡ true
unfolding later
Before→later a b h = ground arith

pub later_irrefl : (a : Hlc) → later a a ≡ false
unfolding later
later_irrefl a = ground arith

pub later_trans : (a b c : Hlc) → later a b ≡ true → later b c ≡ true → later a c ≡ true
unfolding later
later_trans a b c h k = ground arith

pub later_asymm : (a b : Hlc) → later a b ≡ true → later b a ≡ false
unfolding later
later_asymm a b h = ground arith

pub later_total : (a b : Hlc) → later a b ≡ false → later b a ≡ false → a ≡ b
unfolding later
later_total a b h k = ground arith
