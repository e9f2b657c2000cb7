-- ===== src/Daemon/Session.antt =====
-- crates/clipsed/src/sync.rs: what a session does to the state of a daemon. A message that is
-- received is an argument; what is sent is part of the result. The clip events for the user
-- interface are values; a tombstone of the store is `deleted`. The daemon's clock reading `now` is
-- used by the loop guard and by `Store::delete`.
pub mod History
pub mod Applying
pub mod Storing
pub mod Wanting
pub mod Rows
pub mod Newest
pub mod Convergence
use clipse.Prelude.{
  ℕ, ◌+◌, Bool, true, not, List, [], ◌∷◌, ◌++◌, map, Option, none, some, ◌==◌, if◌then◌else◌,
  keep_if, any_of, ◌&&◌,
}
use clipse.Prelude.Bytes.{Bytes}
use clipse.Core.Id.{ClipId, ContentHash, DeviceId}
use clipse.Core.Hlc.{Hlc, later}
use clipse.Core.Clip.Format.{ClipKind}
use clipse.Core.Clip.{Clip, is_blob, total_size}
use clipse.Sync.Merge.{MergeAction, merge}
use clipse.Sync.Guard.{LoopGuard, record_received}
use clipse.Store.Tables.{Store, Result, ok, err, insert, set_pinned, delete}
use clipse.Store.Queries.{get, lookup_by_hash, changes_since, max_hlc}

abbrev pub protocol_version : ℕ
protocol_version = 1

-- `ClipSummary`.
pub record ClipSummary : Type 0 where
  pub hash : ContentHash
  pub hlc : Hlc
  pub kind : ClipKind
  pub pinned : Bool
  pub deleted : Bool
  pub total_size : ℕ

-- `ClipSummary::of`.
unfoldable pub summary_of : Clip → ClipSummary
summary_of c = record {
  hash = c.hash;
  hlc = c.hlc;
  kind = c.kind;
  pinned = c.pinned;
  deleted = c.deleted;
  total_size = total_size c.payloads;
}

pub record Hello : Type 0 where
  pub device : DeviceId
  pub epoch : ℕ
  pub protocol : ℕ
  pub max_hlc : Option Hlc

pub data HelloError : Type 0 where
  protocol_mismatch : ℕ → HelloError
  identity_mismatch : DeviceId → DeviceId → HelloError

pub data HelloResult : Type 0 where
  accepted : Option Hlc → HelloResult
  refused : HelloError → HelloResult

-- `receive_hello`, when a `Hello` arrives.
unfoldable pub receive_hello : DeviceId → Hello → HelloResult
receive_hello peer hello =
    if not (hello.protocol == protocol_version)
    then refused (protocol_mismatch hello.protocol)
    else if not (hello.device == peer)
    then refused (identity_mismatch hello.device peer)
    else accepted hello.max_hlc

-- `send_hello`.
unfoldable pub send_hello : DeviceId → ℕ → Store → Hello
send_hello device epoch s = record {
  device = device;
  epoch = epoch;
  protocol = protocol_version;
  max_hlc = max_hlc s;
}

pub data Event : Type 0 where
  clip_added clip_updated : Clip → Event
  clip_removed : ClipId → Event

pub data Applied : Type 0 where
  inserted_clip : ClipId → Applied
  updated_clip refused_clip : Applied

-- The part of `SyncContext` that a session changes, and what it emits.
pub record Context : Type 0 where
  pub store : Store
  pub loop_guard : LoopGuard
  pub events : List Event

unfoldable pub emit : Event → Context → Context
emit event ctx = record ctx { events = ctx.events ++ event ∷ [] }

-- The updates of the store for `UpdateMetadata`; the first error ends them.
unfoldable pub update_metadata_of :
    ℕ → ClipId → Bool → Bool → Hlc → Store → Store × Result (Unit {0})
update_metadata_of now id pinned deleted hlc s =
    let (s', r) = set_pinned id pinned hlc s in
    elim r [ err e ↦ (s', err e) | ok _ ↦ if deleted then delete now id hlc s' else (s', ok tt) ]

-- What is emitted for `UpdateMetadata`: a removal, or the row as it now is.
unfoldable pub emit_update : ClipId → Bool → Context → Context
unfolding emit
emit_update id deleted ctx =
    if deleted
    then emit (clip_removed id) ctx
    else elim (get id ctx.store) [ none ↦ ctx | some c ↦ emit (clip_updated c) ctx ]

-- `record_received`, as `apply` calls it.
unfoldable pub record_clip : ℕ → Clip → Context → Context
record_clip now clip ctx = record ctx {
  loop_guard = record_received clip.hash clip.hlc.device now ctx.loop_guard;
}

module _ (digest : Bytes → ContentHash) (body_text : Clip → Bytes) where
  -- The branch for `Insert`.
  unfoldable pub apply_insert : ℕ → Clip → Context → Context × Result Applied
  unfolding emit record_clip
  apply_insert now clip ctx =
      let (s, r) = insert digest body_text clip ctx.store in
      elim r [
        | err e ↦ (record ctx { store = s }, err e)
        | ok _ ↦ (
          record_clip now clip (emit (clip_added clip) (record ctx { store = s })),
          ok (inserted_clip clip.id),
        )
      ]

  -- The branch for `UpdateMetadata`.
  unfoldable pub apply_update : ℕ → Clip → Clip → Bool → Bool → Context → Context × Result Applied
  unfolding emit_update record_clip update_metadata_of
  apply_update now existing clip pinned deleted ctx =
      let (s, r) = update_metadata_of now existing.id pinned deleted clip.hlc ctx.store in
      elim r [
        | err e ↦ (record ctx { store = s }, err e)
        | ok _ ↦ (
          record_clip now clip (emit_update existing.id deleted (record ctx { store = s })),
          ok updated_clip,
        )
      ]

  -- `apply`. `merge` updates metadata only if there is a local copy, so the `expect` does not fail.
  unfoldable pub apply : ℕ → Clip → Context → Context × Result Applied
  unfolding apply_insert apply_update
  apply now clip ctx =
      let found = lookup_by_hash clip.hash true ctx.store in
      elim (merge digest found clip) [
        | MergeAction.reject ↦ (ctx, ok refused_clip)
        | MergeAction.ignore ↦ (ctx, ok refused_clip)
        | MergeAction.insert ↦ apply_insert now clip ctx
        | MergeAction.update_metadata pinned deleted ↦ elim found [
          | none ↦ (ctx, ok refused_clip)
          | some existing ↦ apply_update now existing clip pinned deleted ctx
        ]
      ]
