-- ===== src/Daemon/Capture/Storing.antt =====
-- What a capture leaves in the store and in the blob directory.
use mathlib.Core.List.{Permᴰ}
use clipse.Prelude.{
  ℕ, ◌≤◌, ◌≡◌, refl, sym, ap, ◌∙◌, true, false, List, [], ◌∷◌, map, some, arith, if◌then◌else◌, ltb,
  ◌==◌, length, all_of, All, Bool-cases, inl, inr, subst,
}
use clipse.Prelude.Bytes.{Bytes}
use clipse.Prelude.Assoc.{lookup-insert}
use clipse.Prelude.Sorting.{sort_by, sort_by-perm, All-perm}
use clipse.Core.Id.{ClipId, ContentHash}
use clipse.Core.Hash as Hash
use clipse.Core.Clip.Format.{ClipFormat, ClipKind}
use clipse.Core.Clip.{
  Payload, ClipSource, Clip, blob_payload, new_payload, new_clip, is_blob, is_complete, label_lt,
  assemble,
}
use clipse.Core.Hlc.{Hlc}
use clipse.Store.Tables.{Store, insert}
use clipse.Store.Tables as Tables
use clipse.Store.Blobs.{BlobDir, has_blob, put_blob, total_bytes, enforce_blob_quota}
use clipse.Clipboard.Watch.{Capture}
use clipse.Daemon.Capture.{
  Stamp, Recorder, payload_of, spill, put_all, written, write_clip, store_capture,
}

has_blob-put_blob :
    (digest other : ContentHash) (bytes : Bytes) (d : BlobDir)
    → has_blob other (put_blob digest bytes d)
      ≡ (if digest == other then true else has_blob other d)
unfolding has_blob put_blob
has_blob-put_blob digest other bytes d = ground (arith, lookup-insert digest other bytes d.files)

enforce_blob_quota-fits :
    (quota : ℕ) (s : Store) (d : BlobDir)
    → total_bytes d.meta ≤ quota
    → (enforce_blob_quota quota s d).0 ≡ d
unfolding enforce_blob_quota
enforce_blob_quota-fits quota s d h = ground arith

after_insert :
    (quota : ℕ) (outcome : Store × Tables.Result Tables.InsertOutcome) (d : BlobDir)
    → total_bytes d.meta ≤ quota
    → (written quota outcome d).1 ≡ d
unfolding written
after_insert quota (s, Tables.err e) d h = refl
after_insert quota (s, Tables.ok o) d h = enforce_blob_quota-fits quota s d h

module _ (digest : Bytes → ContentHash) where
  -- What the daemon builds for a representation is what `Payload::new` builds.
  pub payload_of-new_payload :
      (p : ClipFormat × Bytes) → payload_of digest p ≡ new_payload digest p.0 p.1
  unfolding payload_of new_payload blob_payload Hash.of
  payload_of-new_payload p = ground arith

  put_all-keeps :
      (h : ContentHash) (all : List Bytes) (d : BlobDir)
      → has_blob h d ≡ true
      → has_blob h (put_all digest all d) ≡ true
  unfolding put_all
  put_all-keeps h [] d k = k
  put_all-keeps h (bytes ∷ rest) d k =
      put_all-keeps h rest (put_blob (Hash.of digest bytes) bytes d)
        (ground (arith, has_blob-put_blob (Hash.of digest bytes) h bytes d))

  -- A blob has its file.
  abbrev HasFile : BlobDir → Payload → Type 0
  HasFile d p = (if is_blob p then has_blob p.digest d else true) ≡ true

  payload_of-HasFile-small :
      (p : ClipFormat × Bytes) (d : BlobDir)
      → ltb 65536 (length p.1) ≡ false
      → HasFile d (payload_of digest p)
  unfolding payload_of new_payload is_blob
  payload_of-HasFile-small p d h = ground arith

  payload_of-HasFile-large :
      (p : ClipFormat × Bytes) (d : BlobDir)
      → ltb 65536 (length p.1) ≡ true
      → has_blob (Hash.of digest p.1) d ≡ true
      → HasFile d (payload_of digest p)
  unfolding payload_of blob_payload is_blob
  payload_of-HasFile-large p d h k = ground arith

  spill-large :
      (p : ClipFormat × Bytes) (ps : List (ClipFormat × Bytes))
      → ltb 65536 (length p.1) ≡ true
      → spill digest (p ∷ ps) ≡ p.1 ∷ spill digest ps
  unfolding spill
  spill-large p ps h = rw (h) refl

  spill-small :
      (p : ClipFormat × Bytes) (ps : List (ClipFormat × Bytes))
      → ltb 65536 (length p.1) ≡ false
      → spill digest (p ∷ ps) ≡ spill digest ps
  unfolding spill
  spill-small p ps h = rw (h) refl

  unfoldable AllFiles : List (ClipFormat × Bytes) → BlobDir → Type 0
  AllFiles ps d = All (HasFile d) (map (payload_of digest) ps)

  put_all-first :
      (bytes : Bytes) (rest : List Bytes) (d : BlobDir)
      → has_blob (Hash.of digest bytes) (put_all digest (bytes ∷ rest) d) ≡ true
  unfolding put_all
  put_all-first bytes rest d =
      put_all-keeps (Hash.of digest bytes) rest (put_blob (Hash.of digest bytes) bytes d)
        (ground (arith, has_blob-put_blob (Hash.of digest bytes) (Hash.of digest bytes) bytes d))

  put_all-HasFile :
      (ps : List (ClipFormat × Bytes)) (d : BlobDir)
      → AllFiles ps (put_all digest (spill digest ps) d)
  unfolding put_all AllFiles
  put_all-HasFile [] d = tt
  put_all-HasFile (p ∷ ps) d = elim (Bool-cases (ltb 65536 (length p.1))) [
    | inl large ↦
        subst (λ all. AllFiles (p ∷ ps) (put_all digest all d)) (sym (spill-large p ps large))
          (
            payload_of-HasFile-large p (put_all digest (p.1 ∷ spill digest ps) d) large
                (put_all-first p.1 (spill digest ps) d),
            put_all-HasFile ps (put_blob (Hash.of digest p.1) p.1 d),
          )
    | inr small ↦
        subst (λ all. AllFiles (p ∷ ps) (put_all digest all d)) (sym (spill-small p ps small))
          (
            payload_of-HasFile-small p (put_all digest (spill digest ps) d) small,
            put_all-HasFile ps d,
          )
  ]

  all_of-of_files :
      (d : BlobDir) (ps : List Payload)
      → All (HasFile d) ps
      → all_of (λ p. if is_blob p then has_blob p.digest d else true) ps ≡ true
  all_of-of_files d [] h = refl
  all_of-of_files d (p ∷ ps) h = ground (arith, all_of-of_files d ps h.1)

  module _ (build_preview : List Payload → ClipKind → Bytes) where
    new_clip-payloads :
        (ps : List Payload) (id : ClipId) (source : ClipSource) (hlc : Hlc) (clip : Clip)
        → new_clip digest build_preview id ps source hlc ≡ some clip
        → Permᴰ ps clip.payloads
    unfolding new_clip assemble
    new_clip-payloads [] id source hlc clip h = cc
    new_clip-payloads (p ∷ ps) id source hlc clip h =
        let same : assemble digest build_preview id source hlc (sort_by label_lt (p ∷ ps)) ≡ clip =
          cc h in
        subst (λ (c : Clip). Permᴰ (p ∷ ps) c.payloads) same (sort_by-perm label_lt (p ∷ ps))

    stored_complete :
        (capture : Capture) (stamp : Stamp) (clip : Clip) (d : BlobDir)
        → new_clip digest build_preview stamp.id
            (map (payload_of digest) capture.payloads)
            stamp.source
            stamp.hlc
          ≡ some clip
        → is_complete (λ h. has_blob h (put_all digest (spill digest capture.payloads) d)) clip
          ≡ true
    unfolding is_complete AllFiles
    stored_complete capture stamp clip d h =
        let files = put_all digest (spill digest capture.payloads) d in
        all_of-of_files files clip.payloads (
          All-perm (HasFile files) (new_clip-payloads _ stamp.id stamp.source stamp.hlc clip h)
            (put_all-HasFile capture.payloads d))

    write_clip-blobs :
        (body_text : Clip → Bytes) (quota : ℕ) (all : List Bytes) (clip : Clip) (s : Store)
        (d : BlobDir)
        → total_bytes (put_all digest all d).meta ≤ quota
        → (write_clip digest build_preview body_text quota all clip s d).1 ≡ put_all digest all d
    unfolding write_clip
    write_clip-blobs body_text quota all clip s d h =
        after_insert quota (insert digest body_text clip s) (put_all digest all d) h

    store_capture-blobs :
        (body_text : Clip → Bytes) (quota : ℕ) (stamp : Stamp) (capture : Capture) (r : Recorder)
        (clip : Clip)
        → new_clip digest build_preview stamp.id
            (map (payload_of digest) capture.payloads)
            stamp.source
            stamp.hlc
          ≡ some clip
        → (store_capture digest build_preview body_text quota stamp capture r).blobs
          ≡ (write_clip digest build_preview body_text quota
              (spill digest capture.payloads)
              clip
              r.store
              r.blobs).1
    unfolding store_capture
    store_capture-blobs body_text quota stamp capture r clip h = rw (h, store_capture) refl

    -- A recorded capture is complete: as long as the blobs with it fit the quota, every representation that
    -- is too large for its row has its file in the blob directory when the capture has been stored.
    pub store_capture-is_complete :
        (body_text : Clip → Bytes) (quota : ℕ) (stamp : Stamp) (capture : Capture) (r : Recorder)
        (clip : Clip)
        → new_clip digest build_preview stamp.id
            (map (payload_of digest) capture.payloads)
            stamp.source
            stamp.hlc
          ≡ some clip
        → total_bytes (put_all digest (spill digest capture.payloads) r.blobs).meta ≤ quota
        → is_complete
            (λ h.
              has_blob h (store_capture digest build_preview body_text quota stamp capture r).blobs)
            clip
          ≡ true
    store_capture-is_complete body_text quota stamp capture r clip h fits =
        let same =
          store_capture-blobs body_text quota stamp capture r clip h
          ∙ write_clip-blobs body_text quota (spill digest capture.payloads) clip r.store r.blobs
              fits in
        ap (λ d. is_complete (λ x. has_blob x d) clip) same
        ∙ stored_complete capture stamp clip r.blobs h
