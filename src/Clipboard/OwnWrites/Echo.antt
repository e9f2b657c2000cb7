-- ===== src/Clipboard/OwnWrites/Echo.antt =====
-- One write has one echo.
use clipse.Prelude.{
  ℕ, ◌+◌, ◌≤◌, ◌≡◌, ◌≢◌, refl, Bool, true, false, List, [], ◌∷◌, none, some, arith, length, keep_if,
  All,
}
use clipse.Core.Id.{ContentHash}
use clipse.Clipboard.OwnWrites.{Pending, OwnWriteGuard, record_write, check, check_all}

-- The number of captures that were suppressed.
abbrev pub suppressed : List Bool → ℕ
suppressed answers = length (keep_if (λ b. b) answers)

none-suppressed :
    (captures : List (ContentHash × ℕ)) (g : OwnWriteGuard)
    → g.pending ≡ none
    → suppressed (check_all captures g).1 ≡ 0
unfolding check_all check
none-suppressed [] g h = refl
none-suppressed ((hash, now) ∷ rest) g h = ground (arith, none-suppressed rest g h)

-- However many captures follow a write, at most one of them is suppressed.
pub check_all-suppressed :
    (captures : List (ContentHash × ℕ)) (g : OwnWriteGuard)
    → suppressed (check_all captures g).1 ≤ 1
unfolding check_all check
check_all-suppressed [] g = omega arith
check_all-suppressed ((hash, now) ∷ rest) g = ground (
  arith,
  check_all-suppressed rest g,
  none-suppressed rest (record g { pending = none }) refl,
  none-suppressed rest g,
)

-- The guard waits while other content is captured.
misses :
    (captures : List (ContentHash × ℕ)) (g : OwnWriteGuard) (p : Pending)
    → g.pending ≡ some p
    → All (λ c. (c.0 ≢ p.hash) × (c.1 ≤ p.written_at + g.ttl)) captures
    → (check_all captures g).0 ≡ g
unfolding check_all check
misses [] g p h a = refl
misses ((hash, now) ∷ rest) g p h a = ground (arith, misses rest g p h a.1, a.0)

-- The echo of a write is suppressed if it comes within the time that the guard waits, also when
-- other captures come first; the next capture of the same content is not suppressed.
pub check-record_write :
    (hash : ContentHash) (written seen again : ℕ) (captures : List (ContentHash × ℕ))
    (g : OwnWriteGuard)
    → All (λ c. (c.0 ≢ hash) × (c.1 ≤ written + g.ttl)) captures
    → seen ≤ written + g.ttl
    → let g' = (check_all captures (record_write hash written g)).0 in
      ((check hash seen g').1 ≡ true) × ((check hash again (check hash seen g').0).1 ≡ false)
unfolding check record_write
check-record_write hash written seen again captures g a h =
    let same =
      misses captures (record_write hash written g) (record { hash = hash; written_at = written })
        refl a in
    rw same (ground arith, ground arith)
