-- ===== src/Net/Examples.antt =====
-- Runs of crates/clipse-net, and its theorems at concrete inputs.
use clipse.Prelude.{
  ℕ, ◌+◌, ◌≡◌, ◌++◌, replicate, drop, ◌==◌, refl, if◌then◌else◌, List, [], ◌∷◌, Option, none, some,
  arith,
}
use clipse.Prelude.Sorting.{insert_by}
use clipse.Prelude.Bytes.{Bytes, ascii}
use clipse.Net.Backoff.{next_delay_ms}
use clipse.Net.Framing.{ok, encode, accept_all, chunks, prefixed}
use clipse.Prelude.Words.{le_bytes}
use clipse.Crypto.Sessions.{Noise, Session, new_session}
use clipse.Net.Framing.Roundtrip.{IsChannel, HasRoom, segments_of, sealed_bytes, accept_all-encode}
use clipse.Net.Candidates.{Candidate, dial_order, lan_candidate, tailnet_candidate, seen_at}

abbrev known : List Candidate
known = tailnet_candidate 100 ∷ lan_candidate 10 ∷ seen_at 50 (lan_candidate 11) ∷ []

-- The address that was seen, then the one from pairing, then the tailnet.
dialled :
    dial_order known ≡ seen_at 50 (lan_candidate 11) ∷ lan_candidate 10 ∷ tailnet_candidate 100 ∷ []
unfolding dial_order insert_by
dialled = refl

abbrev sighted : List Candidate
sighted = seen_at 60 (lan_candidate 10) ∷ seen_at 60 (lan_candidate 12) ∷ []

-- A library that numbers its messages in front of fifteen zeros, and refuses one out of order.
unfoldable write_counted : ℕ → Bytes → Option (ℕ × Bytes)
write_counted n segment = some (n + 1, n ∷ replicate 15 0 ++ segment)

unfoldable read_counted : ℕ → Bytes → Option (ℕ × Bytes)
read_counted n [] = none
read_counted n (k ∷ sealed) = if k == n then some (n + 1, drop 15 sealed) else none

abbrev counted : Noise ℕ
counted = record {
  encrypt = λ n segment. write_counted n segment;
  decrypt = λ n frame. read_counted n frame;
  rekey_outgoing = λ n. n;
  rekey_incoming = λ n. n;
}

counted-IsChannel : IsChannel counted (λ a b. a ≡ b)
unfolding write_counted read_counted
counted-IsChannel = record {
  deliver = λ a b segment e small.
      (a + 1, b + 1, a ∷ replicate 15 0 ++ segment, refl, ground arith, omega arith, omega arith);
}

-- A session that has passed nine thousand messages.
abbrev long_used : Session ℕ
long_used = record (new_session 2 22 0 5) { messages_since_rekey = 9000 }

hello_fits : HasRoom (segments_of (ascii "hello")) long_used
unfolding chunks prefixed le_bytes sealed_bytes
hello_fits = (omega arith, omega arith)

accept_all-encode_example :
    (a' : Session ℕ) × (b' : Session ℕ) × (frames : List Bytes) × (encode counted some some
        long_used
        (ascii "hello")
      ≡ ok (a', frames))
    × (accept_all counted some some long_used [] frames ≡ ok (b', [], ascii "hello" ∷ []))
    × (a'.transport ≡ b'.transport)
accept_all-encode_example =
    accept_all-encode counted some some (λ a b. a ≡ b) counted-IsChannel (ascii "hello")
      (ascii "hello") long_used long_used refl refl (omega arith) refl hello_fits hello_fits

-- The documented delays, and one after days.
delays : (next_delay_ms (record { base_ms = 500; max_ms = 8000; attempt = 100 })).1 ≡ 8000
unfolding next_delay_ms
delays = refl
