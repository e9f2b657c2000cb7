-- ===== src/Daemon/Session/History.antt =====
-- The exchange of histories in crates/clipsed/src/sync.rs: what is offered, what is asked for, and the
-- loop over the clips that arrive.
use clipse.Prelude.{
  ℕ, ◌+◌, Bool, true, not, List, [], ◌∷◌, ◌++◌, map, Option, none, some, ◌==◌, if◌then◌else◌,
  keep_if, any_of, ◌&&◌,
}
use clipse.Prelude.Bytes.{Bytes}
use clipse.Core.Id.{ClipId, ContentHash}
use clipse.Core.Hlc.{Hlc, later}
use clipse.Core.Clip.{Clip, is_blob}
use clipse.Store.Tables.{Store, Result, ok, err}
use clipse.Store.Queries.{lookup_by_hash, changes_since}
use clipse.Daemon.Session.{
  ClipSummary, summary_of, Applied, Context, apply, inserted_clip, refused_clip,
}

-- The summaries that `offer_our_history` sends, oldest first.
abbrev pub summary_page : ℕ
summary_page = 200

unfoldable pub history_summaries : Store → List ClipSummary
unfolding summary_of
history_summaries s = map summary_of (changes_since none 100000 s)

-- What `take_their_history` asks for: a clip that it lacks, or has with an older time.
unfoldable pub is_clip_wanted : Store → ClipSummary → Bool
is_clip_wanted s entry = elim (lookup_by_hash entry.hash true s) [
  | none ↦ true
  | some existing ↦ later entry.hlc existing.hlc
]

unfoldable pub wanted_hashes : Store → List ClipSummary → List ContentHash
unfolding is_clip_wanted
wanted_hashes s entries = map (λ e. e.hash) (keep_if (is_clip_wanted s) entries)

-- The clips that `offer_our_history` sends for the hashes it is asked for, from the store as it is
-- then. A hash that is no longer there is skipped.
unfoldable pub pushed_clips : Store → List ContentHash → List Clip
pushed_clips s [] = []
pushed_clips s (hash ∷ rest) = elim (lookup_by_hash hash true s) [
  | none ↦ pushed_clips s rest
  | some c ↦ c ∷ pushed_clips s rest
]

-- The digests of the payloads of a clip that travel as blobs.
unfoldable pub blob_digests : Clip → List ContentHash
blob_digests c = map (λ p. p.digest) (keep_if is_blob c.payloads)

-- The digests to ask for: those that are not held, each once.
unfoldable pub needed_blobs :
    (ContentHash → Bool) → List ContentHash → List ContentHash → List ContentHash
needed_blobs has_blob needed [] = needed
needed_blobs has_blob needed (d ∷ rest) =
    needed_blobs has_blob
      (if not (has_blob d) && not (any_of (λ n. n == d) needed) then needed ++ d ∷ [] else needed)
      rest

-- What a session counts.
pub record SyncOutcome : Type 0 where
  pub sent : ℕ
  pub received : ℕ
  pub rejected : ℕ
  pub blobs_sent : ℕ
  pub blobs_received : ℕ
  pub blobs_rejected : ℕ
  pub newest_received : Option ClipId

-- The state of the loop over the pushed clips.
pub record Taking : Type 0 where
  pub ctx : Context
  pub outcome : SyncOutcome
  pub newest : Option (Hlc × ClipId)
  pub missing_blobs : List ContentHash

unfoldable pub newest_of : Hlc → ClipId → Option (Hlc × ClipId) → Option (Hlc × ClipId)
newest_of hlc id none = some (hlc, id)
newest_of hlc id (some (seen, old)) = if later hlc seen then some (hlc, id) else some (seen, old)

-- The counters after one pushed clip.
unfoldable pub count_applied : Applied → SyncOutcome → SyncOutcome
count_applied refused_clip o = record o { rejected = o.rejected + 1 }
count_applied _ o = record o { received = o.received + 1 }

unfoldable pub newest_after : Clip → Applied → Option (Hlc × ClipId) → Option (Hlc × ClipId)
unfolding newest_of
newest_after clip (inserted_clip id) newest = newest_of clip.hlc id newest
newest_after clip _ newest = newest

unfoldable pub missing_after : Clip → Applied → List ContentHash → List ContentHash
unfolding blob_digests
missing_after clip refused_clip missing = missing
missing_after clip _ missing = missing ++ blob_digests clip

module _ (digest : Bytes → ContentHash) (body_text : Clip → Bytes) where
  -- The loop of `take_their_history` over the pushed clips, each with the clock reading at which it
  -- is applied; an error of the store ends the session.
  unfoldable pub take_clips : List (ℕ × Clip) → Taking → Taking × Result (Unit {0})
  unfolding apply count_applied newest_after missing_after
  take_clips [] t = (t, ok tt)
  take_clips ((now, clip) ∷ rest) t =
      let (ctx, r) = apply digest body_text now clip t.ctx in
      elim r [
        | err e ↦ (record t { ctx = ctx }, err e)
        | ok a ↦ take_clips rest (record {
          ctx = ctx;
          outcome = count_applied a t.outcome;
          newest = newest_after clip a t.newest;
          missing_blobs = missing_after clip a t.missing_blobs;
        })
      ]
