-- ===== src/Clipboard/OwnWrites.antt =====
-- crates/clipse-clipboard/src/own_write_guard.rs. Clock readings are arguments, in milliseconds of
-- one monotonic clock; `duration_since` is 0 for a reading that is not later.
pub mod Echo
use clipse.Prelude.{
  ℕ, ◌-◌, Bool, true, false, List, [], ◌∷◌, Option, none, some, ltb, ◌==◌, if◌then◌else◌,
}
use clipse.Core.Id.{ContentHash}

abbrev pub default_own_write_ttl : ℕ
default_own_write_ttl = 750

pub record Pending : Type 0 where
  pub hash : ContentHash
  pub written_at : ℕ

pub record OwnWriteGuard : Type 0 where
  pub ttl : ℕ
  pub pending : Option Pending

-- `OwnWriteGuard::new`.
abbrev pub new_own_write_guard : ℕ → OwnWriteGuard
new_own_write_guard ttl = record { ttl = ttl; pending = none }

-- `record_write`.
unfoldable pub record_write : ContentHash → ℕ → OwnWriteGuard → OwnWriteGuard
record_write hash now g = record g { pending = some (record { hash = hash; written_at = now }) }

-- `check`: whether the capture is the echo of our own write.
unfoldable pub check : ContentHash → ℕ → OwnWriteGuard → OwnWriteGuard × Bool
check hash now g = elim g.pending [
  | none ↦ (g, false)
  | some p ↦
      if ltb g.ttl (now - p.written_at)
      then (record g { pending = none }, false)
      else if p.hash == hash
      then (record g { pending = none }, true)
      else (g, false)
]

-- The captures that the watcher sees between two writes, each with its time, and the answers.
unfoldable pub check_all : List (ContentHash × ℕ) → OwnWriteGuard → OwnWriteGuard × List Bool
unfolding check
check_all [] g = (g, [])
check_all ((hash, now) ∷ rest) g =
    let (g', answer) = check hash now g in
    let (g'', answers) = check_all rest g' in (g'', answer ∷ answers)
