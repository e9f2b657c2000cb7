-- ===== src/Daemon/CaptureExamples.antt =====
-- Runs of the capture of the clipboard, and its theorems at concrete inputs.
use clipse.Prelude.{◌≡◌, refl, true, false, [], ◌∷◌, map, none, arith}
use clipse.Prelude.Bytes.{ascii}
use clipse.Core.Samples.{sum, at_time}
use clipse.Core.Clip.Format.{text, html}
use clipse.Core.Clip.{Clip, new_clip, assemble, is_complete}
use clipse.Prelude.Sorting.{sort_by}
use clipse.Store.Tables.{empty_store}
use clipse.Store.Blobs.{has_blob, total_bytes}
use clipse.Clipboard.OwnWrites.{OwnWriteGuard, new_own_write_guard}
use clipse.Clipboard.Secrets.{Patterns, is_card, is_run_character}
use clipse.Clipboard.Watch.{Capture, RawPoll, data_poll, default_watch_config, is_text_like}
use clipse.Daemon.Capture.{Stamp, Recorder, payload_of, spill, put_all, store_capture, observe}
use clipse.Daemon.Capture.Privacy.{observe-card}
use clipse.Daemon.Capture.Storing.{store_capture-is_complete}

abbrev patterns : Patterns
patterns = record {
  pem_header = λ _. false;
  aws_key = λ _. false;
  github_token = λ _. false;
  slack_token_pattern = λ _. false;
  stripe_key_pattern = λ _. false;
  openai_key = λ _. false;
  google_key = λ _. false;
  jwt_matches = λ _. [];
  is_utf8 = λ _. true;
}

abbrev stamp : Stamp
stamp = record {
  id = 7;
  source = record { device = 1; device_label = []; app = none };
  hlc = at_time 5;
}

abbrev recorder : Recorder
recorder = record {
  store = empty_store;
  blobs = record { files = []; meta = []; used_seq = 0 };
  secrets_refused = 0;
  paused = false;
}

abbrev guard : OwnWriteGuard
guard = new_own_write_guard 750

abbrev poll : RawPoll
poll = data_poll (record {
  payloads = (html, ascii "<b>") ∷ (text, ascii "no. 4111-1111 1111 1111!") ∷ [];
  app = none;
})

observe-card_example :
    ((observe sum
        (λ _ _. [])
        (λ _. [])
        1000
        patterns
        (λ s. s)
        default_watch_config
        9
        stamp
        poll
        (guard, recorder)).1.store
      ≡ recorder.store)
    × ((observe sum
          (λ _ _. [])
          (λ _. [])
          1000
          patterns
          (λ s. s)
          default_watch_config
          9
          stamp
          poll
          (guard, recorder)).1.blobs
        ≡ recorder.blobs)
unfolding is_card is_text_like is_run_character
observe-card_example =
    observe-card sum (λ _ _. []) (λ _. []) 1000 patterns (λ s. s) default_watch_config 9 stamp
      ((html, ascii "<b>") ∷ []) [] text none (ascii "no.") (ascii " 4111-1111 1111 1111")
      (ascii "!") (ascii "no. 4111-1111 1111 1111!") guard recorder poll refl refl refl refl refl
      refl refl refl

abbrev greeting : Capture
greeting = record { payloads = (text, ascii "hello") ∷ []; app = none }

abbrev clip : Clip
clip = assemble sum (λ _ _. []) 7 stamp.source stamp.hlc (map (payload_of sum) greeting.payloads)

store_capture-is_complete_example :
    is_complete
      (λ h. has_blob h (store_capture sum (λ _ _. []) (λ _. []) 1000 stamp greeting recorder).blobs)
      clip
    ≡ true
unfolding new_clip sort_by payload_of total_bytes put_all spill
store_capture-is_complete_example =
    store_capture-is_complete sum (λ _ _. []) (λ _. []) 1000 stamp greeting recorder clip refl
      (omega arith)
