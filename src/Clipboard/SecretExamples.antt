-- ===== src/Clipboard/SecretExamples.antt =====
-- Runs of the detection of secrets and of the watcher, and their theorems at concrete inputs.
use clipse.Prelude.{◌≤◌, ◌≡◌, ◌≢◌, refl, true, false, [], ◌∷◌, ◌++◌, none, some, arith}
use clipse.Prelude.Bytes.{Bytes, ascii}
use clipse.Core.Samples.{sum}
use clipse.Core.Clip.Format.{text}
use clipse.Clipboard.OwnWrites.{OwnWriteGuard, new_own_write_guard, check}
use clipse.Clipboard.Apps.{new_blocklist}
use clipse.Clipboard.Secrets.{Patterns, luhn_valid, base64url_decode, detect_secret, credit_card}
use clipse.Clipboard.Secrets.Luhn.{luhn_valid-changed}
use clipse.Clipboard.Secrets.Base64.{symbol, base64url_encode, base64url_decode-encode}
use clipse.Clipboard.Watch.{
  Capture, WatchConfig, data_poll, total_bytes, blocked_by, hash_payloads,
  detect_secret_in_payloads, classify,
}
use clipse.Clipboard.Watch.Accepting.{classify-captured}

luhn_valid-changed_example : luhn_valid (ascii "411" ++ 50 ∷ ascii "111111111111") ≡ false
unfolding luhn_valid
luhn_valid-changed_example =
    luhn_valid-changed (ascii "411") (ascii "111111111111") 49 50 (omega arith) (omega arith)
      (omega arith) (omega arith) (omega arith) refl

base64url_decode-encode_example :
    base64url_decode (base64url_encode (5 ∷ 250 ∷ 7 ∷ 9 ∷ [])) ≡ some (5 ∷ 250 ∷ 7 ∷ 9 ∷ [])
base64url_decode-encode_example =
    base64url_decode-encode (5 ∷ 250 ∷ 7 ∷ 9 ∷ [])
      (omega arith, (omega arith, (omega arith, (omega arith, tt))))

-- The alphabet at its ends.
encoded : base64url_encode (255 ∷ 239 ∷ []) ≡ ascii "_-8"
unfolding base64url_encode symbol
encoded = refl

-- Patterns that find nothing, but every text as a token.
abbrev patterns : Patterns
patterns = record {
  pem_header = λ _. false;
  aws_key = λ _. false;
  github_token = λ _. false;
  slack_token_pattern = λ _. false;
  stripe_key_pattern = λ _. false;
  openai_key = λ _. false;
  google_key = λ _. false;
  jwt_matches = λ s. s ∷ [];
  is_utf8 = λ _. true;
}

abbrev header : Bytes
header = ascii "{\"alg\"}"

-- A card number in a text.
card_found : detect_secret patterns (ascii "no. 4111-1111 1111 1111!") ≡ some credit_card
unfolding detect_secret
card_found = refl

abbrev config : WatchConfig
config = record {
  app_blocklist = new_blocklist (ascii "keeper" ∷ []);
  max_payload_bytes = 8;
  detect_secrets = true;
  own_write_ttl = 750;
  channel_capacity = 16;
}

abbrev greeting : Capture
greeting = record { payloads = (text, ascii "hello") ∷ []; app = some (ascii "Editor") }

abbrev guard : OwnWriteGuard
guard = new_own_write_guard 750

classify-captured_example :
    (data_poll greeting ≡ data_poll greeting)
    × (greeting.payloads ≢ [])
    × (total_bytes greeting ≤ 8)
    × (blocked_by config greeting.app ≡ none)
    × ((check (hash_payloads sum greeting.payloads) 5 guard).1 ≡ false)
    × (config.detect_secrets ≡ true
        → detect_secret_in_payloads patterns (λ s. s) greeting.payloads ≡ none)
unfolding classify new_blocklist detect_secret
classify-captured_example =
    classify-captured sum patterns (λ s. s) (data_poll greeting) config 5 guard guard greeting refl
