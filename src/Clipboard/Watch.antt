-- ===== src/Clipboard/Watch.antt =====
-- crates/clipse-clipboard/src/watch.rs and capture.rs: what a change of the clipboard becomes. The digest
-- function, the patterns and the lossy UTF-8 decoding are parameters; times are arguments, in
-- milliseconds.
pub mod Accepting
use clipse.Prelude.{
  ℕ, ◌+◌, ◌*◌, Bool, true, false, ◌&&◌, List, [], ◌∷◌, map, Option, none, some, ltb, if◌then◌else◌,
  length,
}
use clipse.Prelude.Bytes.{Bytes, bytes_lt}
use clipse.Prelude.Sorting.{sort_by}
use clipse.Core.Id.{ContentHash}
use clipse.Core.Hash.{of_parts}
use clipse.Core.Clip.Format.{ClipFormat, text, html, rtf, label}
use clipse.Clipboard.OwnWrites.{OwnWriteGuard, default_own_write_ttl, record_write, check}
use clipse.Clipboard.Apps.{AppBlocklist, default_blocklist, is_blocked}
use clipse.Clipboard.Secrets.{Patterns, SecretKind, detect_secret}

pub record Capture : Type 0 where
  pub payloads : List (ClipFormat × Bytes)
  pub app : Option Bytes

-- `total_bytes`.
unfoldable pub bytes_of : List (ClipFormat × Bytes) → ℕ
bytes_of [] = 0
bytes_of (p ∷ ps) = length p.1 + bytes_of ps

unfoldable pub total_bytes : Capture → ℕ
unfolding bytes_of
total_bytes capture = bytes_of capture.payloads

-- The comparison that `hash_payloads` sorts by.
unfoldable pub format_lt : ClipFormat × Bytes → ClipFormat × Bytes → Bool
unfolding label
format_lt a b = bytes_lt (label a.0) (label b.0)

pub data SuppressionReason : Type 0 where
  concealed_format : SuppressionReason
  blocked_app : Bytes → SuppressionReason
  detected_secret : SecretKind → SuppressionReason
  no_content : SuppressionReason
  too_large : ℕ → SuppressionReason
  own_write : SuppressionReason

pub data CaptureEvent : Type 0 where
  captured : Capture → CaptureEvent
  suppressed_event : SuppressionReason → CaptureEvent

pub record WatchConfig : Type 0 where
  pub app_blocklist : AppBlocklist
  pub max_payload_bytes : ℕ
  pub detect_secrets : Bool
  pub own_write_ttl : ℕ
  pub channel_capacity : ℕ

abbrev pub default_max_payload_bytes : ℕ
default_max_payload_bytes = 64 * 1024 * 1024

abbrev pub default_watch_config : WatchConfig
default_watch_config = record {
  app_blocklist = default_blocklist;
  max_payload_bytes = default_max_payload_bytes;
  detect_secrets = true;
  own_write_ttl = default_own_write_ttl;
  channel_capacity = 16;
}

pub data RawPoll : Type 0 where
  concealed no_data : RawPoll
  data_poll : Capture → RawPoll

unfoldable pub is_text_like : ClipFormat → Bool
is_text_like text = true
is_text_like html = true
is_text_like rtf = true
is_text_like _ = false

-- The test of the application.
unfoldable pub blocked_by : WatchConfig → Option Bytes → Option Bytes
unfolding is_blocked
blocked_by config none = none
blocked_by config (some app) = if is_blocked app config.app_blocklist then some app else none

module _ (patterns : Patterns) (from_utf8_lossy : Bytes → Bytes) where
  -- `detect_secret_in_payloads`.
  unfoldable pub detect_secret_in_payloads : List (ClipFormat × Bytes) → Option SecretKind
  unfolding is_text_like
  detect_secret_in_payloads [] = none
  detect_secret_in_payloads (p ∷ ps) =
      elim (if is_text_like p.0 then detect_secret patterns (from_utf8_lossy p.1) else none) [
        | some kind ↦ some kind
        | none ↦ detect_secret_in_payloads ps
      ]

module _ (digest : Bytes → ContentHash) where
  -- `hash_payloads`.
  unfoldable pub hash_payloads : List (ClipFormat × Bytes) → ContentHash
  unfolding of_parts format_lt sort_by
  hash_payloads payloads =
      of_parts digest (map (λ p. (label p.0, p.1)) (sort_by format_lt payloads))

  -- `Watcher::write`, as far as the guard goes: armed with the hash before the system's clipboard is set.
  unfoldable pub arm : List (ClipFormat × Bytes) → ℕ → OwnWriteGuard → OwnWriteGuard
  unfolding hash_payloads record_write
  arm payloads now guard = record_write (hash_payloads payloads) now guard

  module _ (patterns : Patterns) (from_utf8_lossy : Bytes → Bytes) where
    -- The last two tests of `classify`.
    unfoldable pub scan :
        Capture → WatchConfig → OwnWriteGuard × Bool → OwnWriteGuard × CaptureEvent
    unfolding detect_secret_in_payloads
    scan capture config (guard, echo) =
        if echo
        then (guard, suppressed_event own_write)
        else elim (if config.detect_secrets
            then detect_secret_in_payloads patterns from_utf8_lossy capture.payloads
            else none) [
              | some kind ↦ (guard, suppressed_event (detected_secret kind))
              | none ↦ (guard, captured capture)
            ]

    unfoldable pub classify_capture :
        Capture → WatchConfig → ℕ → OwnWriteGuard → OwnWriteGuard × CaptureEvent
    unfolding total_bytes blocked_by check hash_payloads scan
    classify_capture capture config now guard =
        if ltb config.max_payload_bytes (total_bytes capture)
        then (guard, suppressed_event (too_large (total_bytes capture)))
        else elim (blocked_by config capture.app) [
          | some app ↦ (guard, suppressed_event (blocked_app app))
          | none ↦ scan capture config (check (hash_payloads capture.payloads) now guard)
        ]

    -- `classify`.
    unfoldable pub classify :
        RawPoll → WatchConfig → ℕ → OwnWriteGuard → OwnWriteGuard × CaptureEvent
    unfolding classify_capture
    classify concealed config now guard = (guard, suppressed_event concealed_format)
    classify no_data config now guard = (guard, suppressed_event no_content)
    classify (data_poll capture) config now guard = elim capture.payloads [
      | [] ↦ (guard, suppressed_event no_content)
      | _ ∷ _ ↦ classify_capture capture config now guard
    ]
