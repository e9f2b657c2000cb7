-- ===== src/Daemon/Session/Applying.antt =====
-- What `apply` does with a clip from a peer, seen from the store and the loop guard.
use clipse.Prelude.{
  ℕ, ◌-◌, ◌≡◌, ◌≢◌, ap, ◌∙◌, Bool, true, false, ◌==◌, arith, ltb, if◌then◌else◌, Option-cases, inl,
  inr, ◌⊎◌,
}
use clipse.Prelude.Bytes.{Bytes}
use clipse.Core.Id.{ClipId, ContentHash, DeviceId}
use clipse.Core.Clip.{Clip, hash_matches}
use clipse.Sync.Merge.{merge}
use clipse.Sync.Guard.{send, suppress_origin, suppress_echo, LoopGuard, verdict, record_received}
use clipse.Sync.Guard.Verdicts.{verdict-record_received}
use clipse.Store.Tables.{ok}
use clipse.Store.Queries.{lookup_by_hash}
use clipse.Daemon.Session.{
  Context, Applied, refused_clip, record_clip, emit, emit_update, apply_insert, apply_update, apply,
  update_metadata_of, summary_of,
}
use clipse.Daemon.Session.History.{is_clip_wanted}

module _ (digest : Bytes → ContentHash) (body_text : Clip → Bytes) where
  -- A pushed clip is refused exactly if it is forged or the summary comparison would not ask for it, since a
  -- copy that is at least as new is held; and then the daemon's state stays as it was.
  pub apply-unwanted :
      (now : ℕ) (clip : Clip) (ctx : Context)
      → ((hash_matches digest clip ≡ false) ⊎ (is_clip_wanted ctx.store (summary_of clip) ≡ false)
          → apply digest body_text now clip ctx ≡ (ctx, ok refused_clip))
        × ((apply digest body_text now clip ctx).1 ≡ ok refused_clip
            → (hash_matches digest clip ≡ false)
              ⊎ (is_clip_wanted ctx.store (summary_of clip) ≡ false))
  unfolding apply apply_insert apply_update merge is_clip_wanted summary_of
  apply-unwanted now clip ctx = (λ h. ground arith, λ h. ground arith)

  emit_update-guard :
      (id : ClipId) (deleted : Bool) (ctx : Context)
      → (emit_update id deleted ctx).loop_guard ≡ ctx.loop_guard
  unfolding emit_update emit
  emit_update-guard id deleted ctx = ground arith

  -- What the guard is after an incoming clip.
  abbrev noted : ℕ → Clip → Context → LoopGuard
  noted now clip ctx = record_received clip.hash clip.hlc.device now ctx.loop_guard

  apply_insert-guard :
      (now : ℕ) (clip : Clip) (ctx ctx' : Context) (a : Applied)
      → apply_insert digest body_text now clip ctx ≡ (ctx', ok a)
      → ctx'.loop_guard ≡ noted now clip ctx
  unfolding apply_insert emit record_clip
  apply_insert-guard now clip ctx ctx' a h = ground arith

  apply_update-guard :
      (now : ℕ) (existing clip : Clip) (p d : Bool) (ctx ctx' : Context) (a : Applied)
      → apply_update digest body_text now existing clip p d ctx ≡ (ctx', ok a)
      → ctx'.loop_guard ≡ noted now clip ctx
  unfolding apply_update record_clip
  apply_update-guard now existing clip p d ctx ctx' a h = ground (
    arith,
    emit_update-guard existing.id d
        (record ctx { store = (update_metadata_of now existing.id p d clip.hlc ctx.store).0 }),
  )

  apply-guard :
      (now : ℕ) (clip : Clip) (ctx ctx' : Context) (a : Applied)
      → apply digest body_text now clip ctx ≡ (ctx', ok a)
      → a ≢ refused_clip
      → ctx'.loop_guard ≡ noted now clip ctx
  unfolding apply merge
  apply-guard now clip ctx ctx' a h n =
      elim (Option-cases (lookup_by_hash clip.hash true ctx.store)) [
        | inl e ↦ ground (arith, apply_insert-guard now clip ctx ctx' a)
        | inr (existing, e) ↦
            ground (arith, apply_update-guard now existing clip clip.pinned clip.deleted ctx ctx' a)
      ]

  -- Once a clip has been taken in, its content counts as received for the length of the guard's
  -- window: a capture of it is an echo for every peer, and belongs to the device that stamped it.
  pub verdict-apply :
      (now at : ℕ) (clip : Clip) (ctx ctx' : Context) (a : Applied) (peer : DeviceId)
      → apply digest body_text now clip ctx ≡ (ctx', ok a)
      → a ≢ refused_clip
      → verdict clip.hash peer at ctx'.loop_guard ≡ (
          if ltb ctx.loop_guard.window_ms (at - now)
          then send
          else if clip.hlc.device == peer
          then suppress_origin
          else suppress_echo)
  verdict-apply now at clip ctx ctx' a peer h n =
      ap (verdict clip.hash peer at) (apply-guard now clip ctx ctx' a h n)
      ∙ verdict-record_received clip.hash clip.hlc.device peer now at ctx.loop_guard
