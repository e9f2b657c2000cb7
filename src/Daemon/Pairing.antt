-- ===== src/Daemon/Pairing.antt =====
-- crates/clipsed/src/pairing.rs and the pairing requests of crates/clipsed/src/daemon.rs: the ceremony as
-- the daemon sees it. The clock, the nonce and the code that `begin` draws are arguments.
pub mod Guesses
pub mod Events
pub mod Memory
pub mod Proofs
pub mod Serving
pub mod Together
pub mod Meeting
pub mod Waiting
use clipse.Prelude.{ℕ, suc, ◌+◌, Bool, true, false, not, List, [], ◌∷◌, leb, ltb, if◌then◌else◌}
use clipse.Prelude.Bytes.{Bytes}
use clipse.Crypto.Trust.{Platform, CandidateAddress, PairedDevice, Trust, add_peer}
use clipse.Crypto.Code.{PairingCode, max_lookup_attempts}
use clipse.Crypto.Code as Code
use clipse.Crypto.Wire.{Identity, PairingOffer, PairingAccept, PairingConfirm, PairingFinish}
use clipse.Crypto.Ceremony.{
  PairingInitiator, PairingAwaitingProof, create_initiator, answers, accept_pairing, verify_proof,
}

pub data PairingError : Type 0 where
  not_in_progress already_in_progress expired not_found failed : PairingError

pub data Outcome {ℓ} (A : Type ℓ) : Type ℓ where
  done : A → Outcome A
  fails : PairingError → Outcome A

pub data PairingState : Type 0 where
  idle : PairingState
  offering : PairingInitiator → ℕ → ℕ → PairingState
  proving : PairingAwaitingProof → PairingState
  answering : PairingState

pub data LookupOutcome : Type 0 where
  offer_outcome : PairingOffer → LookupOutcome
  refuse : LookupOutcome

-- `is_busy`.
unfoldable pub is_busy : PairingState → Bool
is_busy idle = false
is_busy (offering i expires_at_ms wrong_lookups) = true
is_busy (proving w) = true
is_busy answering = true

-- `begin_answering`.
unfoldable pub begin_answering : PairingState → PairingState × Outcome (Unit {0})
unfolding is_busy
begin_answering s = if is_busy s then (s, fails already_in_progress) else (answering, done tt)

-- `expire_if_stale`.
unfoldable pub expire_if_stale : ℕ → PairingState → PairingState × Bool
expire_if_stale now_ms (offering i expires_at_ms wrong_lookups) =
    if ltb expires_at_ms now_ms
    then (idle, true)
    else (offering i expires_at_ms wrong_lookups, false)
expire_if_stale now_ms s = (s, false)

-- `cancel`.
unfoldable pub cancel : PairingState → PairingState
cancel s = idle

-- `finish`.
unfoldable pub finish : PairingFinish → PairingState → PairingState × Outcome PairedDevice
unfolding verify_proof
finish message (proving w) = elim (verify_proof w message) [
  | Code.ok peer ↦ (idle, done peer)
  | Code.err e ↦ (idle, fails failed)
]
finish message s = (idle, fails not_in_progress)

module _ (digest : Bytes → Bytes) where
  -- `begin`.
  unfoldable pub begin :
      Identity
      → Bytes
      → Platform
      → List CandidateAddress
      → Bytes
      → PairingCode
      → ℕ
      → PairingState
      → PairingState × Outcome (PairingCode × ℕ)
  unfolding create_initiator is_busy
  begin identity label platform addresses nonce code now s =
      if is_busy s
      then (s, fails already_in_progress)
      else (let i = create_initiator digest identity label platform addresses nonce code now in
          (offering i i.offer.expires_at_ms 0, done (i.code, i.offer.expires_at_ms)))

  -- What `lookup` does with a tag while an offer is up.
  unfoldable pub answer_lookup : Bytes → PairingState → PairingState × LookupOutcome
  unfolding answers
  answer_lookup tag (offering i expires_at_ms wrong_lookups) =
      if answers digest i tag
      then (offering i expires_at_ms wrong_lookups, offer_outcome i.offer)
      else if leb max_lookup_attempts (wrong_lookups + 1)
      then (idle, refuse)
      else (offering i expires_at_ms (wrong_lookups + 1), refuse)
  answer_lookup tag s = (s, refuse)

  -- `lookup`.
  unfoldable pub lookup : Bytes → ℕ → PairingState → PairingState × LookupOutcome
  unfolding expire_if_stale answer_lookup
  lookup tag now s = answer_lookup tag (expire_if_stale now s).0

  -- `answer_accept`, with the two readings of the clock.
  unfoldable pub answer_accept :
      PairingAccept → ℕ → ℕ → PairingState → PairingState × Outcome PairingConfirm
  unfolding accept_pairing
  answer_accept accept now again (offering i expires_at_ms wrong_lookups) =
      if ltb expires_at_ms now
      then (idle, fails expired)
      else elim (accept_pairing digest i accept again) [
        | Code.ok (confirm, awaiting) ↦ (proving awaiting, done confirm)
        | Code.err e ↦ (idle, fails failed)
      ]
  answer_accept accept now again s = (idle, fails not_in_progress)

-- `commit_pairing`, as far as the set of trusted devices goes.
unfoldable pub commit_pairing : PairedDevice → Trust → Trust
unfolding add_peer
commit_pairing p t = add_peer p t
