-- ===== src/Daemon/Examples.antt =====
-- Runs of crates/clipsed, and its theorems at concrete inputs.
use mathlib.Core.List.{Permᴰ}
use clipse.Prelude.{
  ℕ, Bool, ◌-◌, ◌≡◌, refl, [], ◌∷◌, true, false, none, some, ltb, ◌==◌, if◌then◌else◌, ◌⊎◌,
}
use clipse.Prelude.Bytes.{Bytes, ascii}
use clipse.Core.Samples.{sum, at_time, copy}
use clipse.Core.Hash
use clipse.Core.Hlc.{Hlc, later}
use clipse.Core.Clip.{Clip, compute_hash, hash_matches}
use clipse.Sync.Guard.{send, suppress_origin, suppress_echo, verdict, new_guard}
use clipse.Store.Tables.{Row, empty_store, ok, is_live_copy, has_repeated_label, clip_row}
use clipse.Store.Queries.{into_clip, get, find_by_hash}
use clipse.Daemon.Session.{Context, inserted_clip, updated_clip, refused_clip, apply, summary_of}
use clipse.Daemon.Session.History.{is_clip_wanted, Taking, take_clips}
use clipse.Daemon.Session.Newest.{newest}
use clipse.Daemon.Session.Convergence.{IsCopy, take_clips-agree}
use clipse.Daemon.Session.Applying.{apply-unwanted, verdict-apply}
use clipse.Daemon.Session.Storing.{get-apply, get-apply_tombstone}

abbrev no_text : Clip → Bytes
no_text c = []

abbrev idle : Context
idle = record { store = empty_store; loop_guard = new_guard 30000; events = [] }

get-apply_example :
    ((apply sum no_text 100 (copy 0 5 false false) idle).1 ≡ ok (inserted_clip 5))
    × (get 5 (apply sum no_text 100 (copy 0 5 false false) idle).0.store
        ≡ some (copy 0 5 false false))
unfolding hash_matches compute_hash sum Hash.encoding has_repeated_label clip_row
get-apply_example = get-apply sum no_text 100 (copy 0 5 false false) idle refl refl refl refl tt tt

abbrev after : Context
after = (apply sum no_text 100 (copy 0 5 false false) idle).0

after-ok : apply sum no_text 100 (copy 0 5 false false) idle ≡ (after, ok (inserted_clip 5))
after-ok = cc (get-apply_example.0)

-- An older copy of content that is held.
apply-unwanted_example :
    ((hash_matches sum (copy 0 4 false false) ≡ false)
        ⊎ (is_clip_wanted after.store (summary_of (copy 0 4 false false)) ≡ false)
      → apply sum no_text 200 (copy 0 4 false false) after ≡ (after, ok refused_clip))
    × ((apply sum no_text 200 (copy 0 4 false false) after).1 ≡ ok refused_clip
        → (hash_matches sum (copy 0 4 false false) ≡ false)
          ⊎ (is_clip_wanted after.store (summary_of (copy 0 4 false false)) ≡ false))
apply-unwanted_example = apply-unwanted sum no_text 200 (copy 0 4 false false) after

verdict-apply_example :
    verdict 0 2 200 after.loop_guard
    ≡ (if ltb 30000 (200 - 100) then send else if 1 == 2 then suppress_origin else suppress_echo)
verdict-apply_example =
    verdict-apply sum no_text 100 200 (copy 0 5 false false) idle after (inserted_clip 5) 2 after-ok
      (λ e. cc)

abbrev tombstone : Row
tombstone = record {
  id = 4;
  hash = 0;
  kind = ascii "other";
  payloads = [];
  preview = [];
  source = record { device = 1; device_label = []; app = none };
  hlc = at_time 4;
  created_at_ms = 4;
  pinned = false;
  deleted = true;
  deleted_at_ms = some 4;
}

abbrev buried : Context
buried = record idle { store = record { rows = tombstone ∷ []; index = [] } }

get-apply_tombstone_example :
    ((apply sum no_text 100 (copy 0 5 true false) buried).1 ≡ ok updated_clip)
    × (get 4 (apply sum no_text 100 (copy 0 5 true false) buried).0.store
        ≡ some (record (into_clip tombstone) { pinned = true; hlc = at_time 5; deleted = true }))
unfolding hash_matches compute_hash sum Hash.encoding find_by_hash is_live_copy later
get-apply_tombstone_example =
    get-apply_tombstone sum no_text 100 (copy 0 5 true false) buried tombstone refl refl refl refl
      refl refl

-- Two copies of the buried clip, of which the later one is pinned.
abbrev pins : Hlc → Bool
pins h = h.wall_ms == 6

abbrev first_push : ℕ × Clip
first_push = (100, copy 0 5 false false)

abbrev second_push : ℕ × Clip
second_push = (101, copy 0 6 true false)

first_push-IsCopy : IsCopy sum no_text pins 0 first_push
unfolding hash_matches compute_hash sum Hash.encoding
first_push-IsCopy = (refl, refl, refl)

second_push-IsCopy : IsCopy sum no_text pins 0 second_push
unfolding hash_matches compute_hash sum Hash.encoding
second_push-IsCopy = (refl, refl, refl)

abbrev taking : Taking
taking = record {
  ctx = buried;
  outcome = record {
    sent = 0;
    received = 0;
    rejected = 0;
    blobs_sent = 0;
    blobs_received = 0;
    blobs_rejected = 0;
    newest_received = none;
  };
  newest = none;
  missing_blobs = [];
}

take_clips-agree_example :
    let a = take_clips sum no_text (first_push ∷ second_push ∷ []) taking in
    let b = take_clips sum no_text (second_push ∷ first_push ∷ []) taking in
    (a.1 ≡ ok tt)
    × (b.1 ≡ ok tt)
    × ((p : Row) × (q : Row) × (find_by_hash 0 true a.0.ctx.store ≡ some p)
        × (find_by_hash 0 true b.0.ctx.store ≡ some q)
        × (p.hlc ≡ newest (at_time 4) (first_push.1 ∷ second_push.1 ∷ []))
        × (q.hlc ≡ p.hlc)
        × (q.pinned ≡ p.pinned)
        × (true ≡ true → (p.deleted ≡ true) × (q.deleted ≡ true)))
take_clips-agree_example =
    take_clips-agree sum no_text pins (first_push ∷ second_push ∷ [])
      (second_push ∷ first_push ∷ []) taking tombstone ([], [], refl, tt, tt) (Permᴰ.swap refl refl)
      refl (first_push-IsCopy, (second_push-IsCopy, tt))
      (second_push-IsCopy, (first_push-IsCopy, tt))
