-- ===== src/Daemon/Pairing/Guesses.antt =====
-- How often the digits may be guessed.
use clipse.Prelude.{
  ℕ, ◌+◌, ◌≤◌, ◌<◌, ◌≡◌, refl, ap, ◌∙◌, true, false, List, [], ◌∷◌, leb, if◌then◌else◌, arith,
  length, All, Bool-cases, inl, inr, suc,
}
use clipse.Prelude.Bytes.{Bytes}
use clipse.Crypto.Wire.{PairingOffer}
use clipse.Crypto.Ceremony.{PairingInitiator, answers}
use clipse.Daemon.Pairing.{
  PairingState, idle, offering, proving, answering, offer_outcome, expire_if_stale, answer_lookup,
  lookup,
}

module _ (digest : Bytes → Bytes) where
  -- Lookups one after the other, each with its time.
  unfoldable pub lookups : List (Bytes × ℕ) → PairingState → PairingState
  unfolding lookup
  lookups [] s = s
  lookups ((tag, now) ∷ rest) s = lookups rest (lookup digest tag now s).0

  lookup-wrong :
      (i : PairingInitiator) (expires_at_ms wrong : ℕ) (tag : Bytes) (now : ℕ)
      → answers digest i tag ≡ false
      → now ≤ expires_at_ms
      → (lookup digest tag now (offering i expires_at_ms wrong)).0
        ≡ (if leb 8 (wrong + 1) then idle else offering i expires_at_ms (wrong + 1))
  unfolding lookup answer_lookup expire_if_stale
  lookup-wrong i expires_at_ms wrong tag now a t = ground arith

  lookups-idle : (guesses : List (Bytes × ℕ)) → lookups guesses idle ≡ idle
  unfolding lookups lookup expire_if_stale answer_lookup
  lookups-idle [] = refl
  lookups-idle (g ∷ guesses) = lookups-idle guesses

  shift :
      (i : PairingInitiator) (e wrong n : ℕ)
      → (if leb 8 (wrong + 1 + n) then idle else offering i e (wrong + 1 + n))
        ≡ (if leb 8 (wrong + suc n) then idle else offering i e (wrong + suc n))
  shift i e wrong n = ap (λ m. if leb 8 m then idle else offering i e m) (omega arith)

  lookups-count :
      (i : PairingInitiator) (expires_at_ms wrong : ℕ) (guesses : List (Bytes × ℕ))
      → wrong < 8
      → All (λ g. (answers digest i g.0 ≡ false) × (g.1 ≤ expires_at_ms)) guesses
      → lookups guesses (offering i expires_at_ms wrong) ≡ (
          if leb 8 (wrong + length guesses)
          then idle
          else offering i expires_at_ms (wrong + length guesses))
  unfolding lookups
  lookups-count i expires_at_ms wrong [] w h = ground arith
  lookups-count i expires_at_ms wrong ((tag, now) ∷ guesses) w ((a, t), h) =
      let first = lookup-wrong i expires_at_ms wrong tag now a t in
      elim (Bool-cases (leb 8 (wrong + 1))) [
        | inl full ↦
            ap (lookups guesses) (first ∙ rw (full) refl) ∙ lookups-idle guesses ∙ ground arith
        | inr left ↦
            let ih = lookups-count i expires_at_ms (wrong + 1) guesses (ground arith) h in
            ap (lookups guesses) (first ∙ rw (left) refl)
            ∙ ih
            ∙ shift i expires_at_ms wrong (length guesses)
      ]

  -- An offer stands until the eighth wrong guess: wrong guesses in its three minutes are counted one by
  -- one, and as soon as there have been eight the offer is gone, for whatever follows.
  pub lookups_wrong :
      (i : PairingInitiator) (expires_at_ms : ℕ) (guesses more : List (Bytes × ℕ))
      → All (λ g. (answers digest i g.0 ≡ false) × (g.1 ≤ expires_at_ms)) guesses
      → (length guesses < 8
          → lookups guesses (offering i expires_at_ms 0)
            ≡ offering i expires_at_ms (length guesses))
        × (8 ≤ length guesses → lookups more (lookups guesses (offering i expires_at_ms 0)) ≡ idle)
  lookups_wrong i expires_at_ms guesses more h =
      let count = lookups-count i expires_at_ms 0 guesses (omega arith) h in
      (
        (λ few. count ∙ ground arith),
        (λ many. ap (lookups more) (count ∙ ground arith) ∙ lookups-idle more),
      )

  -- The offer is handed out only to who has the tag of the digits on the screen, only while the offer is
  -- valid, and unchanged; the state stays as it is.
  pub lookup-offer :
      (tag : Bytes) (now : ℕ) (s s' : PairingState) (offer : PairingOffer)
      → lookup digest tag now s ≡ (s', offer_outcome offer)
      → (i : PairingInitiator) × (expires_at_ms : ℕ) × (wrong : ℕ) × (s
          ≡ offering i expires_at_ms wrong)
        × (s' ≡ s)
        × (offer ≡ i.offer)
        × (answers digest i tag ≡ true)
        × (now ≤ expires_at_ms)
  unfolding lookup answer_lookup expire_if_stale
  lookup-offer tag now idle s' offer h = cc
  lookup-offer tag now (offering i e k) s' offer h =
      (i, e, k, refl, ground arith, ground arith, ground arith, ground arith)
  lookup-offer tag now (proving w) s' offer h = cc
  lookup-offer tag now answering s' offer h = cc
