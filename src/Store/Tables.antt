-- ===== src/Store/Tables.antt =====
-- The writing half of crates/clipse-store/src/store.rs. A row of `clip` carries its rows of `payload`,
-- which are deleted with it. A statement that violates a primary key fails, and its transaction
-- changes nothing. The digest function and the text that is indexed (`fts::body_text`) are
-- arguments, and so is the system clock.
use clipse.Prelude.{
  ℕ, ◌-◌, Bool, true, false, not, ◌&&◌, List, [], ◌∷◌, ◌++◌, map, Option, none, some, leb, ◌==◌,
  if◌then◌else◌, length, keep_if, any_of, find_first,
}
use clipse.Prelude.Bytes.{Bytes, bytes_eq}
use clipse.Core.Id.{ClipId, ContentHash}
use clipse.Core.Hlc.{Hlc}
use clipse.Core.Clip.Format.{label, as_str}
use clipse.Core.Clip.{Payload, ClipSource, Clip, inline_bytes, hash_matches}

pub data StoreError : Type 0 where
  not_found : ClipId → StoreError
  constraint_violated : StoreError

pub data Result {ℓ} (A : Type ℓ) : Type ℓ where
  ok : A → Result A
  err : StoreError → Result A

-- A row of `payload`; `inline_bytes` is NULL for a blob.
pub record PayloadRow : Type 0 where
  pub format_label : Bytes
  pub digest : ContentHash
  pub size : ℕ
  pub inline_bytes : Option Bytes

-- A row of `clip`, with its payload rows.
pub record Row : Type 0 where
  pub id : ClipId
  pub hash : ContentHash
  pub kind : Bytes
  pub payloads : List PayloadRow
  pub preview : Bytes
  pub source : ClipSource
  pub hlc : Hlc
  pub created_at_ms : ℕ
  pub pinned : Bool
  pub deleted : Bool
  pub deleted_at_ms : Option ℕ

pub record Store : Type 0 where
  pub rows : List Row
  -- `clip_fts`
  pub index : List (ClipId × Bytes)

abbrev pub empty_store : Store
empty_store = record { rows = []; index = [] }

pub data InsertOutcome : Type 0 where
  inserted deduplicated : ClipId → InsertOutcome
  rejected : InsertOutcome

-- The parameters of the second INSERT, and of the first.
unfoldable pub payload_row : Payload → PayloadRow
unfolding label inline_bytes
payload_row p = record {
  format_label = label p.format;
  digest = p.digest;
  size = p.size;
  inline_bytes = inline_bytes p;
}

unfoldable pub clip_row : Clip → Row
unfolding payload_row as_str
clip_row c = record {
  id = c.id;
  hash = c.hash;
  kind = as_str c.kind;
  payloads = map payload_row c.payloads;
  preview = c.preview;
  source = c.source;
  hlc = c.hlc;
  created_at_ms = c.created_at_ms;
  pinned = c.pinned;
  deleted = c.deleted;
  deleted_at_ms = none;
}

-- WHERE hash = ?1 AND deleted = 0
unfoldable pub is_live_copy : ContentHash → Row → Bool
is_live_copy hash r = r.hash == hash && not r.deleted

-- UPDATE ... WHERE
unfoldable pub update_where : (Row → Bool) → (Row → Row) → List Row → List Row
update_where test change [] = []
update_where test change (r ∷ rs) = (if test r then change r else r) ∷ update_where test change rs

-- The primary key (clip_id, format_label) of `payload`.
unfoldable pub has_repeated_label : List PayloadRow → Bool
has_repeated_label [] = false
has_repeated_label (p ∷ ps) =
    if any_of (λ q. bytes_eq p.format_label q.format_label) ps then true else has_repeated_label ps

-- The dedup UPDATE of `insert`.
unfoldable pub bump : Clip → Row → Row
bump c r = record r { hlc = c.hlc; created_at_ms = c.created_at_ms; source = c.source }

-- The INSERTs of `insert`.
unfoldable pub insert_new : (Clip → Bytes) → Clip → Store → Store × Result InsertOutcome
unfolding clip_row
insert_new body_text c s =
    if any_of (λ r. r.id == c.id) s.rows
    then (s, err constraint_violated)
    else if has_repeated_label (clip_row c).payloads
    then (s, err constraint_violated)
    else (
      record { rows = s.rows ++ clip_row c ∷ []; index = s.index ++ (c.id, body_text c) ∷ [] },
      ok (inserted c.id),
    )

-- `Store::insert`.
unfoldable pub insert :
    (Bytes → ContentHash) → (Clip → Bytes) → Clip → Store → Store × Result InsertOutcome
unfolding is_live_copy update_where bump insert_new
insert digest body_text c s =
    if hash_matches digest c
    then elim (find_first (is_live_copy c.hash) s.rows) [
      | none ↦ insert_new body_text c s
      | some existing ↦ (
        record s { rows = update_where (λ r. r.id == existing.id) (bump c) s.rows },
        ok (deduplicated existing.id),
      )
    ]
    else (s, ok rejected)

-- `Store::set_pinned`.
unfoldable pub set_pinned : ClipId → Bool → Hlc → Store → Store × Result (Unit {0})
unfolding update_where
set_pinned id pinned hlc s =
    if any_of (λ r. r.id == id) s.rows
    then (
      record s {
        rows = update_where (λ r. r.id == id) (λ r. record r { pinned = pinned; hlc = hlc }) s.rows;
      },
      ok tt,
    )
    else (s, err (not_found id))

-- The UPDATE of `delete`, where `now` is the system clock.
unfoldable pub bury : ℕ → Hlc → Row → Row
bury now hlc r = record r { deleted = true; deleted_at_ms = some now; hlc = hlc }

-- `Store::delete`.
unfoldable pub delete : ℕ → ClipId → Hlc → Store → Store × Result (Unit {0})
unfolding update_where bury
delete now id hlc s =
    if any_of (λ r. r.id == id && not r.deleted) s.rows
    then (
      record {
        rows = update_where (λ r. r.id == id && not r.deleted) (bury now hlc) s.rows;
        index = keep_if (λ e. not (e.0 == id)) s.index;
      },
      ok tt,
    )
    else if any_of (λ r. r.id == id) s.rows
    then (s, ok tt)
    else (s, err (not_found id))

-- WHERE deleted = 1 AND deleted_at_ms IS NOT NULL AND deleted_at_ms <= ?1
unfoldable pub is_expired : ℕ → Row → Bool
is_expired cutoff r =
    if r.deleted then elim r.deleted_at_ms [ none ↦ false | some at ↦ leb at cutoff ] else false

-- `Store::purge_tombstones`, its blobs left to `prune_orphan_blobs`. The index is not touched.
unfoldable pub purge_tombstones : ℕ → ℕ → Store → Store × ℕ
unfolding is_expired
purge_tombstones now older_than_ms s =
    let cutoff : ℕ = now - older_than_ms in
    (
      record s { rows = keep_if (λ r. not (is_expired cutoff r)) s.rows },
      length (keep_if (is_expired cutoff) s.rows),
    )
