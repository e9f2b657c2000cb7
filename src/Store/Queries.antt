-- ===== src/Store/Queries.antt =====
-- The reading half of crates/clipse-store/src/store.rs, and row.rs. A timestamp's wall time is stored
-- as `i64`, so SQL compares it as a signed number. Where SQL leaves the order of ties open, ties keep
-- the order of the rows.
use clipse.Prelude.{
  ℕ, ◌+◌, ◌%◌, ◌^◌, Bool, true, false, not, ◌&&◌, List, [], ◌∷◌, map, Option, none, some, ◌==◌,
  if◌then◌else◌, length, take, drop, keep_if, find_first,
}
use clipse.Prelude.Bytes.{Bytes, ascii, bytes_eq, bytes_lt}
use clipse.Prelude.Sorting.{sort_by}
use clipse.Core.Id.{ClipId, ContentHash}
use clipse.Core.Hlc.{Hlc, later}
use clipse.Core.Clip.Format.{
  ClipKind, text_kind, html_kind, rtf_kind, image_kind, files_kind, other_kind, from_label, as_str,
}
use clipse.Core.Clip.{inline, blob, Payload, Clip}
use clipse.Store.Tables.{PayloadRow, Row, Store, is_live_copy}

-- `parse_kind`.
unfoldable pub parse_kind : Bytes → ClipKind
parse_kind s =
    if bytes_eq s (ascii "text")
    then text_kind
    else if bytes_eq s (ascii "html")
    then html_kind
    else if bytes_eq s (ascii "rtf")
    then rtf_kind
    else if bytes_eq s (ascii "image")
    then image_kind
    else if bytes_eq s (ascii "files")
    then files_kind
    else other_kind

-- `RawPayload::into_payload`.
unfoldable pub into_payload : PayloadRow → Payload
unfolding from_label
into_payload p = record {
  format = from_label p.format_label;
  digest = p.digest;
  size = p.size;
  body = elim p.inline_bytes [ none ↦ blob | some bytes ↦ inline bytes ];
}

-- ORDER BY format_label ASC
unfoldable pub row_label_lt : PayloadRow → PayloadRow → Bool
row_label_lt a b = bytes_lt a.format_label b.format_label

-- `load_payloads` and `RawClip::into_clip`.
unfoldable pub into_clip : Row → Clip
unfolding parse_kind into_payload row_label_lt sort_by
into_clip r = record {
  id = r.id;
  hash = r.hash;
  kind = parse_kind r.kind;
  payloads = map into_payload (sort_by row_label_lt r.payloads);
  preview = r.preview;
  source = r.source;
  hlc = r.hlc;
  created_at_ms = r.created_at_ms;
  pinned = r.pinned;
  deleted = r.deleted;
}

-- `Store::get`.
unfoldable pub get : ClipId → Store → Option Clip
unfolding into_clip
get id s = elim (find_first (λ r. r.id == id) s.rows) [ none ↦ none | some r ↦ some (into_clip r) ]

-- ORDER BY deleted ASC LIMIT 1: a live copy if there is one, else a tombstone.
unfoldable pub find_by_hash : ContentHash → Bool → Store → Option Row
find_by_hash hash include_deleted s = elim (find_first (is_live_copy hash) s.rows) [
  | some r ↦ some r
  | none ↦ if include_deleted then find_first (λ r. r.hash == hash) s.rows else none
]

-- `lookup_by_hash`: `by_hash` and `by_hash_including_deleted`.
unfoldable pub lookup_by_hash : ContentHash → Bool → Store → Option Clip
unfolding find_by_hash
lookup_by_hash hash include_deleted s = elim (find_by_hash hash include_deleted s) [
  | none ↦ none
  | some r ↦ get r.id s
]

-- A `u64` cast to `i64`, as its place in the signed order.
unfoldable pub i64_key : ℕ → ℕ
i64_key n = (n + 2 ^ 63) % 2 ^ 64

-- hlc_wall_ms > ?1 OR (hlc_wall_ms = ?1 AND hlc_counter > ?2) OR ...
unfoldable pub sql_later : Hlc → Hlc → Bool
unfolding i64_key later
sql_later a b =
    later (record a { wall_ms = i64_key a.wall_ms }) (record b { wall_ms = i64_key b.wall_ms })

pub record HistoryQuery : Type 0 where
  pub limit : ℕ
  pub offset : ℕ
  pub kind : Option ClipKind
  pub pinned_only : Bool

abbrev pub default_query : HistoryQuery
default_query = record { limit = 100; offset = 0; kind = none; pinned_only = false }

-- The WHERE clause of `recent`.
unfoldable pub is_wanted : HistoryQuery → Row → Bool
unfolding as_str
is_wanted q r =
    not r.deleted
    && elim q.kind [ none ↦ true | some k ↦ bytes_eq r.kind (as_str k) ]
    && (if q.pinned_only then r.pinned else true)

-- `Store::recent`.
unfoldable pub recent : HistoryQuery → Store → List Clip
unfolding is_wanted sql_later sort_by into_clip
recent q s = map into_clip (
    take q.limit
      (drop q.offset (sort_by (λ a b. sql_later a.hlc b.hlc) (keep_if (is_wanted q) s.rows))))

-- `Store::changes_since`.
unfoldable pub changes_since : Option Hlc → ℕ → Store → List Clip
unfolding sql_later sort_by into_clip
changes_since cursor limit s =
    let rows : List Row = elim cursor [
      | none ↦ s.rows
      | some hlc ↦ keep_if (λ r. sql_later r.hlc hlc) s.rows
    ] in
    map into_clip (take limit (sort_by (λ a b. sql_later b.hlc a.hlc) rows))

-- `Store::max_hlc`.
unfoldable pub max_hlc : Store → Option Hlc
unfolding sql_later sort_by
max_hlc s = elim (sort_by (λ (a b : Row). sql_later a.hlc b.hlc) s.rows) [
  | [] ↦ none
  | r ∷ _ ↦ some r.hlc
]

-- `Store::clip_count`.
unfoldable pub clip_count : Store → ℕ
clip_count s = length (keep_if (λ r. not r.deleted) s.rows)
