-- ===== src/Sync/Merge.antt =====
-- crates/clipse-sync/src/merge.rs: what to do with a clip that arrives from a peer.
use clipse.Prelude.{Bool, Option, none, some, if◌then◌else◌}
use clipse.Prelude.Bytes.{Bytes}
use clipse.Core.Id.{ContentHash}
use clipse.Core.Hlc.{later}
use clipse.Core.Clip.{Clip, hash_matches}

pub data MergeAction : Type 0 where
  insert ignore reject : MergeAction
  update_metadata : Bool → Bool → MergeAction

-- `merge`, the guard on forged clips included; the `debug_assert` is the caller's duty.
unfoldable pub merge : (Bytes → ContentHash) → Option Clip → Clip → MergeAction
merge digest found incoming =
    if hash_matches digest incoming
    then elim found [
      | none ↦ insert
      | some local ↦
          if later incoming.hlc local.hlc
          then update_metadata incoming.pinned incoming.deleted
          else ignore
    ]
    else reject
