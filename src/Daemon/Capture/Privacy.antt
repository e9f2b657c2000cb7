-- ===== src/Daemon/Capture/Privacy.antt =====
-- What the history never holds.
use clipse.Prelude.{
  ℕ, ◌≡◌, ◌≢◌, refl, sym, ap, ◌∙◌, true, List, [], ◌∷◌, ◌++◌, Option, none, arith, all_of,
}
use clipse.Prelude.Bytes.{Bytes}
use clipse.Core.Id.{ContentHash}
use clipse.Core.Clip.Format.{ClipFormat, ClipKind}
use clipse.Core.Clip.{Payload, Clip}
use clipse.Clipboard.OwnWrites.{OwnWriteGuard}
use clipse.Clipboard.Secrets.{Patterns, detect_secret, is_run_character, is_card}
use clipse.Clipboard.Secrets.Cards.{Starts, Ends}
use clipse.Clipboard.Secrets.Detection.{detect_secret-card}
use clipse.Clipboard.Watch.{
  Capture, CaptureEvent, captured, suppressed_event, WatchConfig, RawPoll, data_poll, is_text_like,
  detect_secret_in_payloads, classify,
}
use clipse.Clipboard.Watch.Accepting.{classify-captured}
use clipse.Daemon.Capture.{Stamp, Recorder, handle, observe}

detect_secret_in_payloads-found :
    (patterns : Patterns) (lossy : Bytes → Bytes) (before after : List (ClipFormat × Bytes))
    (format : ClipFormat) (bytes : Bytes)
    → is_text_like format ≡ true
    → detect_secret patterns (lossy bytes) ≢ none
    → detect_secret_in_payloads patterns lossy (before ++ (format, bytes) ∷ after) ≢ none
unfolding detect_secret_in_payloads
detect_secret_in_payloads-found patterns lossy [] after format bytes t h = ground arith
detect_secret_in_payloads-found patterns lossy (p ∷ before) after format bytes t h =
    ground (arith, detect_secret_in_payloads-found patterns lossy before after format bytes t h)

module _ (digest : Bytes → ContentHash) (build_preview : List Payload → ClipKind → Bytes)
    (body_text : Clip → Bytes) (quota : ℕ) where
  handle-suppressed :
      (stamp : Stamp) (event : CaptureEvent) (r : Recorder)
      → ((c : Capture) → event ≢ captured c)
      → ((handle digest build_preview body_text quota stamp event r).store ≡ r.store)
        × ((handle digest build_preview body_text quota stamp event r).blobs ≡ r.blobs)
  unfolding handle
  handle-suppressed stamp (suppressed_event reason) r h = (refl, refl)
  handle-suppressed stamp (captured c) r h = absurd (h c refl)

  classify-clean :
      (patterns : Patterns) (lossy : Bytes → Bytes) (config : WatchConfig) (now : ℕ)
      (guard : OwnWriteGuard) (poll : RawPoll) (capture : Capture)
      → poll ≡ data_poll capture
      → config.detect_secrets ≡ true
      → (c : Capture) → (classify digest patterns lossy poll config now guard).1 ≡ captured c
      → detect_secret_in_payloads patterns lossy capture.payloads ≡ none
  classify-clean patterns lossy config now guard poll capture q d c k =
      let guard' = (classify digest patterns lossy poll config now guard).0 in
      let (same, e1, e2, e3, e4, clean) =
        classify-captured digest patterns lossy poll config now guard guard' c
          (ap (λ v. (guard', v)) k) in
      let equal : capture ≡ c = cc (sym q ∙ same) in
      ap (λ x. detect_secret_in_payloads patterns lossy x.payloads) equal ∙ clean d

  -- While the search for secrets is on, a change of the clipboard whose text, in any of the formats plain
  -- text, HTML and RTF, holds a card number leaves the history and the blobs as they are: if the digits
  -- of a run of digits, spaces and dashes in it are 13 to 19, start like an issuer's numbers and pass the
  -- Luhn check, and the run does not go on before or behind it.
  pub observe-card :
      (patterns : Patterns) (lossy : Bytes → Bytes) (config : WatchConfig) (now : ℕ) (stamp : Stamp)
      (formats more : List (ClipFormat × Bytes)) (format : ClipFormat) (app : Option Bytes)
      (before run after bytes : Bytes) (guard : OwnWriteGuard) (r : Recorder) (poll : RawPoll)
      → config.detect_secrets ≡ true
      → is_text_like format ≡ true
      → lossy bytes ≡ before ++ (run ++ after)
      → Starts before
      → Ends after
      → all_of is_run_character run ≡ true
      → is_card run ≡ true
      → poll ≡ data_poll (record { payloads = formats ++ (format, bytes) ∷ more; app = app })
      → ((observe digest build_preview body_text quota patterns lossy config now stamp poll
            (guard, r)).1.store
          ≡ r.store)
        × ((observe digest build_preview body_text quota patterns lossy config now stamp poll
              (guard, r)).1.blobs
            ≡ r.blobs)
  unfolding observe
  observe-card patterns lossy config now stamp formats more format app before run after bytes guard
        r poll d t e s f a c q =
      let clean = classify-clean patterns lossy config now guard poll _ q d in
      let secret = detect_secret-card patterns before run after s f a c in
      let found =
        detect_secret_in_payloads-found patterns lossy formats more format bytes t
          (λ n. secret (ap (detect_secret patterns) (sym e) ∙ n)) in
      handle-suppressed stamp (classify digest patterns lossy poll config now guard).1 r
        (λ x k. found (clean x k))
