-- ===== src/Store/Examples.antt =====
-- Runs of crates/clipse-store, and its theorems at concrete inputs.
use clipse.Prelude.{ℕ, ◌≡◌, refl, List, [], ◌∷◌, Bool, true, false, none, some, arith}
use clipse.Prelude.Bytes.{Bytes, ascii, bytes_eq, bytes_lt}
use clipse.Prelude.Words.{le_bytes}
use clipse.Core.Samples.{sum, at_time, copy}
use clipse.Core.Hash
use clipse.Core.Hlc.{Hlc}
use clipse.Core.Clip.Format.{text, html, text_kind}
use clipse.Core.Clip.{Payload, inline, Clip, compute_hash, hash_matches, label_lt}
use clipse.Store.Tables.{
  Row, Store, empty_store, ok, inserted, clip_row, is_live_copy, has_repeated_label, insert, delete,
}
use clipse.Store.Queries.{into_clip, get, lookup_by_hash}
use clipse.Prelude.Sorting.{insert_by}
use clipse.Store.Blobs.{BlobDir, enforce_blob_quota}
use clipse.Store.Blobs.Quota.{Fulfils, enforce_blob_quota-Fulfils}
use clipse.Store.Invariant.{IsSound}
use clipse.Store.Writes.{save, pin, remove, purge, write_all, write_all-IsSound}
use clipse.Store.Removal.{delete-get}
use clipse.Store.Roundtrip.{get-insert}

abbrev no_text : Clip → Bytes
no_text c = []

write_all-IsSound_example :
    IsSound
      (write_all sum no_text
        (save (copy 0 5 false false)
          ∷ save (copy 0 6 false false)
          ∷ remove 9 5 (at_time 8)
          ∷ save (copy 0 7 true false)
          ∷ pin 7 false (at_time 9)
          ∷ purge 100 50
          ∷ [])
        empty_store).rows
write_all-IsSound_example =
    write_all-IsSound sum no_text
      (save (copy 0 5 false false)
        ∷ save (copy 0 6 false false)
        ∷ remove 9 5 (at_time 8)
        ∷ save (copy 0 7 true false)
        ∷ pin 7 false (at_time 9)
        ∷ purge 100 50
        ∷ [])
      empty_store tt

-- A tombstone and a live copy of the same content.
abbrev row : ℕ → Bool → Row
row time deleted = record {
  id = time;
  hash = 0;
  kind = ascii "other";
  payloads = [];
  preview = [];
  source = record { device = 1; device_label = []; app = none };
  hlc = at_time time;
  created_at_ms = time;
  pinned = false;
  deleted = deleted;
  deleted_at_ms = none;
}

abbrev dead_row : Row
dead_row = row 4 true

abbrev live_row : Row
live_row = row 5 false

abbrev two_rows : Store
two_rows = record { rows = dead_row ∷ live_row ∷ []; index = [] }

two_rows-IsSound : IsSound two_rows.rows
two_rows-IsSound = ((((λ e. omega arith), (λ l k e. cc)), tt), (tt, tt))

delete-get_example :
    ((delete 99 5 (at_time 8) two_rows).1 ≡ ok tt)
    × (get 5 (delete 99 5 (at_time 8) two_rows).0
        ≡ some (record (into_clip live_row) { deleted = true; hlc = at_time 8 }))
    × (lookup_by_hash live_row.hash false (delete 99 5 (at_time 8) two_rows).0 ≡ none)
    × ((later : ℕ) (hlc' : Hlc)
        → delete later 5 hlc' (delete 99 5 (at_time 8) two_rows).0
          ≡ ((delete 99 5 (at_time 8) two_rows).0, ok tt))
delete-get_example = delete-get 99 5 (at_time 8) two_rows live_row two_rows-IsSound refl refl

abbrev payloads : List Payload
payloads =
    record { format = html; digest = 9; size = 4; body = inline (ascii "<hi>") }
    ∷ record { format = text; digest = 5; size = 2; body = inline (ascii "hi") }
    ∷ []

abbrev rich : Clip
rich = record (copy (compute_hash sum payloads) 6 false false) {
  payloads = payloads;
  kind = text_kind;
}

get-insert_example :
    ((insert sum no_text rich two_rows).1 ≡ ok (inserted 6))
    × (get 6 (insert sum no_text rich two_rows).0 ≡ some rich)
unfolding hash_matches compute_hash label_lt clip_row sum Hash.encoding le_bytes is_live_copy
    has_repeated_label bytes_eq bytes_lt
get-insert_example =
    get-insert sum no_text rich two_rows refl refl refl refl ((refl, tt), (tt, tt)) (tt, (tt, tt))

-- Two blobs of ten bytes, and room for one of them.
abbrev two_blobs : BlobDir
two_blobs = record {
  files = (1, 4 ∷ []) ∷ (2, 5 ∷ []) ∷ [];
  meta = (1, record { size = 10; used_seq = 2 }) ∷ (2, record { size = 10; used_seq = 1 }) ∷ [];
  used_seq = 2;
}

-- The one that was used last is kept.
quota_run : (enforce_blob_quota 15 empty_store two_blobs).0.files ≡ (1, 4 ∷ []) ∷ []
unfolding enforce_blob_quota insert_by
quota_run = refl

enforce_blob_quota-Fulfils_example :
    Fulfils empty_store 15 two_blobs (enforce_blob_quota 15 empty_store two_blobs)
enforce_blob_quota-Fulfils_example =
    enforce_blob_quota-Fulfils empty_store 15 two_blobs (((λ e. omega arith), tt), (tt, tt))
      (((λ e. omega arith), tt), (tt, tt))
