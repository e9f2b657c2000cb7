-- ===== src/Core/Clip.antt =====
-- crates/clipse-core/src/clip.rs: formats, payloads and clips. The digest function, the random
-- `ClipId` and the preview line (`build_preview`, display text only) are arguments.
pub mod Format
pub mod Identity
pub mod Kind
use clipse.Prelude.{
  ℕ, ◌+◌, ◌≡◌, Bool, true, false, List, [], ◌∷◌, map, Option, none, some, leb, ltb, ◌==◌,
  if◌then◌else◌, length, all_of,
}
use clipse.Prelude.Bytes.{Bytes, bytes_lt}
use clipse.Prelude.Sorting.{sort_by}
use clipse.Core.Id.{ClipId, DeviceId, ContentHash}
use clipse.Core.Hash
use clipse.Core.Hash.{as_bytes, of_parts}
use clipse.Core.Hlc.{Hlc}
use Format.{ClipFormat, ClipKind, label, kind, display_rank}

abbrev pub inline_max_bytes : ℕ
inline_max_bytes = 65536

pub data PayloadBody : Type 0 where
  inline : Bytes → PayloadBody
  blob : PayloadBody

pub record Payload : Type 0 where
  pub format : ClipFormat
  pub digest : ContentHash
  pub size : ℕ
  pub body : PayloadBody

-- `Payload::blob`.
unfoldable pub blob_payload : ClipFormat → ContentHash → ℕ → Payload
blob_payload format digest size = record {
  format = format;
  digest = digest;
  size = size;
  body = blob;
}

-- `Payload::inline_bytes`.
unfoldable pub inline_bytes : Payload → Option Bytes
inline_bytes p = elim p.body [ inline bytes ↦ some bytes | blob ↦ none ]

-- `Payload::is_blob`.
unfoldable pub is_blob : Payload → Bool
is_blob p = elim p.body [ inline _ ↦ false | blob ↦ true ]

pub record ClipSource : Type 0 where
  pub device : DeviceId
  pub device_label : Bytes
  pub app : Option Bytes

pub record Clip : Type 0 where
  pub id : ClipId
  pub hash : ContentHash
  pub kind : ClipKind
  pub payloads : List Payload
  pub preview : Bytes
  pub source : ClipSource
  pub hlc : Hlc
  pub created_at_ms : ℕ
  pub pinned : Bool
  pub deleted : Bool

-- The comparison that `Clip::new` sorts by.
unfoldable pub label_lt : Payload → Payload → Bool
unfolding label
label_lt a b = bytes_lt (label a.format) (label b.format)

-- `max_by_key` on the rank, which keeps the last of equal elements.
unfoldable pub richer : Payload → Payload → Payload
richer best p = if leb (display_rank best.format) (display_rank p.format) then p else best

unfoldable pub max_by_rank : Payload → List Payload → Payload
unfolding richer
max_by_rank best [] = best
max_by_rank best (p ∷ ps) = max_by_rank (richer best p) ps

-- The headline kind that `Clip::new` picks.
unfoldable pub headline_kind : List Payload → ClipKind
unfolding max_by_rank kind
headline_kind [] = ClipKind.other_kind
headline_kind (p ∷ ps) = kind (max_by_rank p ps).format

-- `Clip::total_size`, for sizes whose sum fits a `u64`.
unfoldable pub total_size : List Payload → ℕ
total_size [] = 0
total_size (p ∷ ps) = p.size + total_size ps

-- `Clip::is_complete`.
unfoldable pub is_complete : (ContentHash → Bool) → Clip → Bool
unfolding is_blob
is_complete has_blob c = all_of (λ p. if is_blob p then has_blob p.digest else true) c.payloads

module _ (digest : Bytes → ContentHash) where
  -- `Payload::new`.
  unfoldable pub new_payload : ClipFormat → Bytes → Payload
  unfolding Hash.of
  new_payload format bytes =
      let size : ℕ = length bytes in
      record {
        format = format;
        digest = Hash.of digest bytes;
        size = size;
        body = if leb size inline_max_bytes then inline bytes else blob;
      }

  -- `Clip::compute_hash`.
  unfoldable pub compute_hash : List Payload → ContentHash
  unfolding of_parts label
  compute_hash payloads = of_parts digest (map (λ p. (label p.format, as_bytes p.digest)) payloads)

  -- `Clip::hash_matches`.
  unfoldable pub hash_matches : Clip → Bool
  hash_matches c = compute_hash c.payloads == c.hash

  -- `Clip::new` on sorted payloads.
  unfoldable pub assemble :
      (List Payload → ClipKind → Bytes) → ClipId → ClipSource → Hlc → List Payload → Clip
  unfolding headline_kind
  assemble build_preview id source hlc payloads =
      let kind = headline_kind payloads in
      record {
        id = id;
        hash = compute_hash payloads;
        kind = kind;
        payloads = payloads;
        preview = build_preview payloads kind;
        source = source;
        hlc = hlc;
        created_at_ms = hlc.wall_ms;
        pinned = false;
        deleted = false;
      }

  -- `Clip::new`; `none` is the panic on an empty list of payloads.
  unfoldable pub new_clip :
      (List Payload → ClipKind → Bytes) → ClipId → List Payload → ClipSource → Hlc → Option Clip
  unfolding assemble
  new_clip build_preview id [] source hlc = none
  new_clip build_preview id (first ∷ rest) source hlc =
      some (assemble build_preview id source hlc (sort_by label_lt (first ∷ rest)))
