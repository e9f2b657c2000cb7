-- ===== src/Daemon/Capture.antt =====
-- crates/clipsed/src/capture.rs: from an event of the watcher to a clip in the store. The digest function,
-- the preview line, the indexed text and what one capture is given (its id, source and time) are
-- arguments; so is the blob quota.
pub mod Storing
pub mod Privacy
use clipse.Prelude.{
  ℕ, ◌+◌, ◌%◌, ◌^◌, Bool, true, false, List, [], ◌∷◌, map, Option, none, some, ltb, if◌then◌else◌,
  length,
}
use clipse.Prelude.Bytes.{Bytes}
use clipse.Core.Id.{ClipId, ContentHash}
use clipse.Core.Hash as Hash
use clipse.Core.Hlc.{Hlc}
use clipse.Core.Clip.Format.{ClipFormat, ClipKind}
use clipse.Core.Clip.{
  Payload, ClipSource, Clip, inline_max_bytes, blob_payload, new_payload, new_clip,
}
use clipse.Store.Tables.{Store, insert}
use clipse.Store.Tables as Tables
use clipse.Store.Blobs.{BlobDir, put_blob, enforce_blob_quota}
use clipse.Clipboard.OwnWrites.{OwnWriteGuard}
use clipse.Clipboard.Secrets.{Patterns}
use clipse.Clipboard.Watch.{
  Capture, CaptureEvent, captured, suppressed_event, WatchConfig, RawPoll, classify,
}

-- What is made for one capture besides its content.
pub record Stamp : Type 0 where
  pub id : ClipId
  pub source : ClipSource
  pub hlc : Hlc

-- The part of the daemon that captures change.
pub record Recorder : Type 0 where
  pub store : Store
  pub blobs : BlobDir
  pub secrets_refused : ℕ
  pub paused : Bool

-- The quota is enforced unless the insert failed.
unfoldable pub written : ℕ → Store × Tables.Result Tables.InsertOutcome → BlobDir → Store × BlobDir
unfolding enforce_blob_quota
written quota (s, Tables.err e) d = (s, d)
written quota (s, Tables.ok outcome) d = (s, (enforce_blob_quota quota s d).0)

module _ (digest : Bytes → ContentHash) where
  -- The payload of a representation.
  unfoldable pub payload_of : ClipFormat × Bytes → Payload
  unfolding new_payload blob_payload Hash.of
  payload_of (format, bytes) =
      if ltb inline_max_bytes (length bytes)
      then blob_payload format (Hash.of digest bytes) (length bytes)
      else new_payload digest format bytes

  -- `spill` and the loop that writes it to the blob directory.
  unfoldable pub spill : List (ClipFormat × Bytes) → List Bytes
  spill [] = []
  spill (p ∷ ps) =
      let rest = spill ps in if ltb inline_max_bytes (length p.1) then p.1 ∷ rest else rest

  unfoldable pub put_all : List Bytes → BlobDir → BlobDir
  unfolding put_blob Hash.of
  put_all [] d = d
  put_all (bytes ∷ rest) d = put_all rest (put_blob (Hash.of digest bytes) bytes d)

  module _ (build_preview : List Payload → ClipKind → Bytes) (body_text : Clip → Bytes)
      (quota : ℕ) where
    -- The task that writes.
    unfoldable pub write_clip : List Bytes → Clip → Store → BlobDir → Store × BlobDir
    unfolding put_all insert written
    write_clip spilled clip s d =
        let d' = put_all spilled d in written quota (insert digest body_text clip s) d'

    -- `store_capture`; a capture without payloads is the panic of `Clip::new`.
    unfoldable pub store_capture : Stamp → Capture → Recorder → Recorder
    unfolding payload_of spill write_clip new_clip
    store_capture stamp capture r =
        elim (new_clip digest build_preview stamp.id (map payload_of capture.payloads) stamp.source
          stamp.hlc) [
            | none ↦ r
            | some clip ↦
                let (s, d) = write_clip (spill capture.payloads) clip r.store r.blobs in
                record r { store = s; blobs = d }
          ]

    -- One turn of the loop of `run`; the count is an `AtomicU64`.
    unfoldable pub handle : Stamp → CaptureEvent → Recorder → Recorder
    unfolding store_capture
    handle stamp (suppressed_event reason) r = record r {
      secrets_refused = (r.secrets_refused + 1) % 2 ^ 64;
    }
    handle stamp (captured capture) r = elim r.paused [
      | true ↦ r
      | false ↦ store_capture stamp capture r
    ]

    -- A change of the clipboard, from the watcher to the store.
    unfoldable pub observe :
        Patterns
        → (Bytes → Bytes)
        → WatchConfig
        → ℕ
        → Stamp
        → RawPoll
        → OwnWriteGuard × Recorder
        → OwnWriteGuard × Recorder
    unfolding classify handle
    observe patterns lossy config now stamp poll (guard, r) =
        let (guard', event) = classify digest patterns lossy poll config now guard in
        (guard', handle stamp event r)
