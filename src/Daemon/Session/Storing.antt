-- ===== src/Daemon/Session/Storing.antt =====
-- What `apply` leaves in the store: new content as it was sent, and tombstones that stay.
use clipse.Prelude.{
  ℕ, ◌≡◌, refl, Bool, true, false, List, [], ◌∷◌, ◌==◌, none, some, arith, All, any_of, find_first,
}
use clipse.Prelude.Bytes.{Bytes}
use clipse.Prelude.Sorting.{IsSorted}
use clipse.Core.Id.{ClipId, ContentHash}
use clipse.Core.Hlc.{Hlc, later}
use clipse.Core.Clip.Format.{IsCanonical}
use clipse.Core.Clip.{Clip, hash_matches, label_lt}
use clipse.Sync.Merge.{merge}
use clipse.Store.Tables.{
  Row, ok, clip_row, is_live_copy, has_repeated_label, update_where, set_pinned,
}
use clipse.Store.Queries.{get, find_by_hash, lookup_by_hash, into_clip}
use clipse.Store.Roundtrip.{get-insert}
use clipse.Daemon.Session.{
  Context, inserted_clip, updated_clip, record_clip, emit, emit_update, apply_insert, apply_update,
  apply, update_metadata_of,
}

absent→none :
    (hash : ContentHash) (rs : List Row)
    → any_of (λ r. r.hash == hash) rs ≡ false
    → (find_first (is_live_copy hash) rs ≡ none) × (find_first (λ r. r.hash == hash) rs ≡ none)
unfolding is_live_copy
absent→none hash [] h = (refl, refl)
absent→none hash (r ∷ rs) h = ground (arith, absent→none hash rs)

-- The row that an update of its id finds.
find-repinned :
    (id : ClipId) (pinned : Bool) (hlc : Hlc) (rs : List Row) (r : Row)
    → find_first (λ q. q.id == id) rs ≡ some r
    → (find_first
          (λ q. q.id == id)
          (update_where (λ q. q.id == id) (λ q. record q { pinned = pinned; hlc = hlc }) rs)
        ≡ some (record r { pinned = pinned; hlc = hlc }))
      × (any_of (λ q. q.id == id) rs ≡ true)
unfolding update_where
find-repinned id pinned hlc [] r f = cc
find-repinned id pinned hlc (x ∷ rs) r f = ground (arith, find-repinned id pinned hlc rs r)

pub emit_update-store :
    (id : ClipId) (deleted : Bool) (ctx : Context) → (emit_update id deleted ctx).store ≡ ctx.store
unfolding emit_update emit
emit_update-store id deleted ctx = ground arith

module _ (digest : Bytes → ContentHash) (body_text : Clip → Bytes) where
  -- New content from a peer is stored as it was sent: if the clip is not forged, no row has its
  -- content or its id, and its formats are distinct, canonical and in the order of their labels,
  -- `get` returns exactly that clip afterwards.
  pub get-apply :
      (now : ℕ) (clip : Clip) (ctx : Context)
      → hash_matches digest clip ≡ true
      → any_of (λ r. r.hash == clip.hash) ctx.store.rows ≡ false
      → any_of (λ r. r.id == clip.id) ctx.store.rows ≡ false
      → has_repeated_label (clip_row clip).payloads ≡ false
      → IsSorted label_lt clip.payloads
      → All (λ p. IsCanonical p.format) clip.payloads
      → ((apply digest body_text now clip ctx).1 ≡ ok (inserted_clip clip.id))
        × (get clip.id (apply digest body_text now clip ctx).0.store ≡ some clip)
  unfolding apply apply_insert merge lookup_by_hash find_by_hash emit record_clip
  get-apply now clip ctx m h i l o c =
      let free = absent→none clip.hash ctx.store.rows h in
      let stored = get-insert digest body_text clip ctx.store m free.0 i l o c in
      ground (arith, free, stored)

  -- A tombstone is not revived: if the row that is found for a clip is deleted, and the clip is not
  -- forged, is live and is newer, the row takes the pin and the time of the clip and stays deleted.
  pub get-apply_tombstone :
      (now : ℕ) (clip : Clip) (ctx : Context) (r : Row)
      → hash_matches digest clip ≡ true
      → clip.deleted ≡ false
      → find_by_hash clip.hash true ctx.store ≡ some r
      → find_first (λ q. q.id == r.id) ctx.store.rows ≡ some r
      → r.deleted ≡ true
      → later clip.hlc r.hlc ≡ true
      → ((apply digest body_text now clip ctx).1 ≡ ok updated_clip)
        × (get r.id (apply digest body_text now clip ctx).0.store
            ≡ some (record (into_clip r) { pinned = clip.pinned; hlc = clip.hlc; deleted = true }))
  unfolding apply apply_update update_metadata_of set_pinned merge lookup_by_hash get into_clip
      record_clip
  get-apply_tombstone now clip ctx r m live found known dead newer =
      let kept = find-repinned r.id clip.pinned clip.hlc ctx.store.rows r known in
      ground (
        arith,
        kept,
        emit_update-store r.id false
            (record ctx { store = (set_pinned r.id clip.pinned clip.hlc ctx.store).0 }),
      )
