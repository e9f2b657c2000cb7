-- ===== src/Clipboard/Watch/Accepting.antt =====
-- Which changes of the clipboard are accepted, and what the hash of a capture depends on.
use mathlib.Core.List.{Permᴰ}
use clipse.Prelude.{
  ℕ, ◌≤◌, ◌≡◌, ◌≢◌, sym, ap, ◌∙◌, Bool, true, false, List, [], ◌∷◌, map, none, arith, All, ◌⊎◌, inl,
  inr, Bool-cases, subst,
}
use clipse.Prelude.Bytes.{Bytes, bytes_lt_asymm, bytes_lt_neg_trans, bytes_lt_total}
use clipse.Prelude.Sorting.{IsOrder, IsDistinct, sort_by_of_perm}
use clipse.Core.Id.{ContentHash}
use clipse.Core.Hash.{of_parts}
use clipse.Core.Clip.Format.{ClipFormat, label}
use clipse.Clipboard.OwnWrites.{OwnWriteGuard, check}
use clipse.Clipboard.Secrets.{Patterns}
use clipse.Clipboard.Watch.{
  Capture, total_bytes, format_lt, captured, WatchConfig, RawPoll, concealed, no_data, data_poll,
  detect_secret_in_payloads, hash_payloads, scan, blocked_by, classify_capture, classify,
}

format_lt-IsOrder : IsOrder format_lt
unfolding format_lt
format_lt-IsOrder = record {
  asymm = λ a b. bytes_lt_asymm (label a.0) (label b.0);
  neg_trans = λ a b c. bytes_lt_neg_trans (label a.0) (label b.0) (label c.0);
}

-- No two representations have the same label.
abbrev pub HasDistinctFormats : List (ClipFormat × Bytes) → Type 0
HasDistinctFormats [] = Unit
HasDistinctFormats (p ∷ ps) = All (λ q. label p.0 ≢ label q.0) ps × HasDistinctFormats ps

format_lt_apart :
    (p q : ClipFormat × Bytes)
    → label p.0 ≢ label q.0
    → (format_lt p q ≡ true) ⊎ (format_lt q p ≡ true)
unfolding format_lt
format_lt_apart p q h = elim (Bool-cases (format_lt p q)) [
  | inl e ↦ inl e
  | inr e ↦ elim (Bool-cases (format_lt q p)) [
    | inl k ↦ inr k
    | inr k ↦ absurd (h (bytes_lt_total (label p.0) (label q.0) e k))
  ]
]

apart_each :
    (p : ClipFormat × Bytes) (ps : List (ClipFormat × Bytes))
    → All (λ q. label p.0 ≢ label q.0) ps
    → All (λ q. (format_lt p q ≡ true) ⊎ (format_lt q p ≡ true)) ps
apart_each p [] h = tt
apart_each p (q ∷ ps) h = (format_lt_apart p q h.0, apart_each p ps h.1)

IsDistinct-of_formats :
    (ps : List (ClipFormat × Bytes)) → HasDistinctFormats ps → IsDistinct format_lt ps
IsDistinct-of_formats [] h = tt
IsDistinct-of_formats (p ∷ ps) h = (apart_each p ps h.0, IsDistinct-of_formats ps h.1)

module _ (digest : Bytes → ContentHash) where
  -- The hash of a capture does not depend on the order in which the system lists its formats.
  pub hash_payloads_of_perm :
      (ps qs : List (ClipFormat × Bytes))
      → Permᴰ ps qs
      → HasDistinctFormats ps
      → hash_payloads digest ps ≡ hash_payloads digest qs
  unfolding hash_payloads
  hash_payloads_of_perm ps qs p h =
      ap (λ s. of_parts digest (map (λ p. (label p.0, p.1)) s))
        (sort_by_of_perm format_lt format_lt-IsOrder p (IsDistinct-of_formats ps h))

  module _ (patterns : Patterns) (lossy : Bytes → Bytes) where
    scan-captured :
        (capture c : Capture) (config : WatchConfig) (answer : OwnWriteGuard × Bool)
        (guard' : OwnWriteGuard)
        → scan digest patterns lossy capture config answer ≡ (guard', captured c)
        → (c ≡ capture)
          × (answer.1 ≡ false)
          × (config.detect_secrets ≡ true
              → detect_secret_in_payloads patterns lossy capture.payloads ≡ none)
    unfolding scan
    scan-captured capture c config (guard, echo) guard' h = ground arith

    classify_capture-captured :
        (capture c : Capture) (config : WatchConfig) (now : ℕ) (guard guard' : OwnWriteGuard)
        → classify_capture digest patterns lossy capture config now guard ≡ (guard', captured c)
        → (total_bytes capture ≤ config.max_payload_bytes)
          × (blocked_by config capture.app ≡ none)
          × (scan digest patterns lossy capture config
                (check (hash_payloads digest capture.payloads) now guard)
              ≡ (guard', captured c))
    unfolding classify_capture
    classify_capture-captured capture c config now guard guard' h = ground arith

    classify-data :
        (capture c : Capture) (config : WatchConfig) (now : ℕ) (guard guard' : OwnWriteGuard)
        → classify digest patterns lossy (data_poll capture) config now guard ≡ (guard', captured c)
        → (capture.payloads ≢ [])
          × (classify_capture digest patterns lossy capture config now guard ≡ (guard', captured c))
    unfolding classify
    classify-data capture c config now guard guard' h = ground arith

    -- A change of the clipboard is recorded only if it is not concealed, has content, is not larger than
    -- the limit, does not come from a blocked application, is not the echo of a write of our own and,
    -- unless the search for secrets is off, no text in it looks like a secret; it is recorded unchanged.
    pub classify-captured :
        (poll : RawPoll) (config : WatchConfig) (now : ℕ) (guard guard' : OwnWriteGuard)
        (c : Capture)
        → classify digest patterns lossy poll config now guard ≡ (guard', captured c)
        → (poll ≡ data_poll c)
          × (c.payloads ≢ [])
          × (total_bytes c ≤ config.max_payload_bytes)
          × (blocked_by config c.app ≡ none)
          × ((check (hash_payloads digest c.payloads) now guard).1 ≡ false)
          × (config.detect_secrets ≡ true
              → detect_secret_in_payloads patterns lossy c.payloads ≡ none)
    unfolding classify
    classify-captured concealed config now guard guard' c h = cc
    classify-captured no_data config now guard guard' c h = cc
    classify-captured (data_poll capture) config now guard guard' c h =
        let (some_data, whole) = classify-data capture c config now guard guard' h in
        let (small, allowed, rest) =
          classify_capture-captured capture c config now guard guard' whole in
        let (same, fresh, clean) =
          scan-captured capture c config (check (hash_payloads digest capture.payloads) now guard)
            guard' rest in
        (
          ap data_poll (sym same),
          (λ e. some_data (ap (λ x. x.payloads) (sym same) ∙ e)),
          subst (λ x. total_bytes x ≤ config.max_payload_bytes) (sym same) small,
          ap (λ x. blocked_by config x.app) same ∙ allowed,
          ap (λ x. (check (hash_payloads digest x.payloads) now guard).1) same ∙ fresh,
          (λ d. ap (λ x. detect_secret_in_payloads patterns lossy x.payloads) same ∙ clean d),
        )
