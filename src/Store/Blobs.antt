-- ===== src/Store/Blobs.antt =====
-- crates/clipse-store/src/blob.rs: the blob directory, its accounting in the table `blob_meta`, and
-- the quota. A file is found under its digest; both are association lists. Where SQL leaves the order
-- of equal `used_seq` open, ties keep the order of the rows.
pub mod Books
pub mod Quota
use clipse.Prelude.{
  ℕ, ◌+◌, ◌-◌, Bool, true, false, not, ◌&&◌, List, [], ◌∷◌, Option, none, some, ltb, leb, ◌==◌,
  if◌then◌else◌, length, keep_if, any_of,
}
use clipse.Prelude.Bytes.{Bytes}
use clipse.Prelude.Assoc.{Assoc, lookup, insert}
use clipse.Prelude.Sorting.{sort_by}
use clipse.Core.Id.{ContentHash}
use clipse.Store.Tables.{PayloadRow, Row, Store}

-- A row of `blob_meta`, under its digest.
pub record BlobMeta : Type 0 where
  pub size : ℕ
  pub used_seq : ℕ

pub record BlobDir : Type 0 where
  pub files : Assoc Bytes
  pub meta : Assoc BlobMeta
  pub used_seq : ℕ

-- `has_blob`.
unfoldable pub has_blob : ContentHash → BlobDir → Bool
has_blob digest d = elim (lookup digest d.files) [ none ↦ false | some _ ↦ true ]

-- The row after the INSERT ... ON CONFLICT of `put_blob`.
unfoldable pub used_row : ContentHash → ℕ → ℕ → Assoc BlobMeta → BlobMeta
used_row digest size seq meta = elim (lookup digest meta) [
  | none ↦ record { size = size; used_seq = seq }
  | some row ↦ record row { used_seq = seq }
]

-- `put_blob`, where no call of the file system fails.
unfoldable pub put_blob : ContentHash → Bytes → BlobDir → BlobDir
unfolding has_blob used_row
put_blob digest bytes d =
    let seq : ℕ = d.used_seq + 1 in
    record {
      files = if has_blob digest d then d.files else insert digest bytes d.files;
      meta = insert digest (used_row digest (length bytes) seq d.meta) d.meta;
      used_seq = seq;
    }

-- `read_blob`; `none` is `BlobNotFound`.
unfoldable pub read_blob : ContentHash → BlobDir → BlobDir × Option Bytes
read_blob digest d = elim (lookup digest d.files) [
  | none ↦ (d, none)
  | some bytes ↦
      let seq : ℕ = d.used_seq + 1 in
      elim (lookup digest d.meta) [
        | none ↦ (record d { used_seq = seq }, some bytes)
        | some row ↦ (
          record d { used_seq = seq; meta = insert digest (record row { used_seq = seq }) d.meta },
          some bytes,
        )
      ]
]

-- SUM(size)
unfoldable pub total_bytes : Assoc BlobMeta → ℕ
total_bytes [] = 0
total_bytes (e ∷ meta) = e.1.size + total_bytes meta

-- The digests that a live pinned clip has a payload with.
unfoldable pub is_protected : Store → ContentHash → Bool
is_protected s digest =
    any_of (λ r. r.pinned && not r.deleted && any_of (λ p. p.digest == digest) r.payloads) s.rows

-- ORDER BY used_seq ASC
unfoldable pub used_before : ContentHash × BlobMeta → ContentHash × BlobMeta → Bool
used_before a b = ltb a.1.used_seq b.1.used_seq

-- The candidates for eviction.
unfoldable pub eviction_order : Store → BlobDir → Assoc BlobMeta
unfolding is_protected used_before sort_by
eviction_order s d = sort_by used_before (keep_if (λ e. not (is_protected s e.0)) d.meta)

-- `QuotaReport`.
pub record QuotaReport : Type 0 where
  pub quota_bytes : ℕ
  pub bytes_before : ℕ
  pub bytes_after : ℕ
  pub blobs_evicted : ℕ
  pub bytes_evicted : ℕ

-- The file and the row of a digest removed.
unfoldable pub remove_blob : ContentHash → BlobDir → BlobDir
remove_blob digest d = record d {
  files = keep_if (λ e. not (e.0 == digest)) d.files;
  meta = keep_if (λ e. not (e.0 == digest)) d.meta;
}

-- One turn of the loop of `enforce_blob_quota`.
unfoldable pub evict : ContentHash × BlobMeta → BlobDir × QuotaReport → BlobDir × QuotaReport
unfolding remove_blob
evict (digest, row) (d, r) = (
  remove_blob digest d,
  record r {
    bytes_after = r.bytes_after - row.size;
    blobs_evicted = r.blobs_evicted + 1;
    bytes_evicted = r.bytes_evicted + row.size;
  },
)

unfoldable pub evict_all : Assoc BlobMeta → BlobDir × QuotaReport → BlobDir × QuotaReport
unfolding evict
evict_all [] (d, r) = (d, r)
evict_all (c ∷ rest) (d, r) =
    let next = evict_all rest (evict c (d, r)) in
    if leb r.bytes_after r.quota_bytes then (d, r) else next

-- `enforce_blob_quota`.
unfoldable pub enforce_blob_quota : ℕ → Store → BlobDir → BlobDir × QuotaReport
unfolding evict_all eviction_order total_bytes
enforce_blob_quota quota s d =
    let before : ℕ = total_bytes d.meta in
    let report : QuotaReport = record {
      quota_bytes = quota;
      bytes_before = before;
      bytes_after = before;
      blobs_evicted = 0;
      bytes_evicted = 0;
    } in
    if ltb quota before then evict_all (eviction_order s d) (d, report) else (d, report)

-- The digests that no payload row has.
unfoldable pub is_orphan : Store → ContentHash × BlobMeta → Bool
is_orphan s e = not (any_of (λ r. any_of (λ p. p.digest == e.0) r.payloads) s.rows)

unfoldable pub remove_all : Assoc BlobMeta → BlobDir → BlobDir
unfolding remove_blob
remove_all [] d = d
remove_all (e ∷ rest) d = remove_all rest (remove_blob e.0 d)

-- `prune_orphan_blobs`.
unfoldable pub prune_orphan_blobs : Store → BlobDir → BlobDir
unfolding remove_all is_orphan
prune_orphan_blobs s d = remove_all (keep_if (is_orphan s) d.meta) d
