-- ===== src/Daemon/Pairing/Events.antt =====
-- The events of a daemon that pairs, and what they leave behind.
use mathlib.Core.List.{Memᴰ}
use clipse.Prelude.{ℕ, ◌≡◌, List, [], ◌∷◌}
use clipse.Prelude.Bytes.{Bytes}
use clipse.Crypto.Trust.{Platform, CandidateAddress, PairedDevice, Trust}
use clipse.Crypto.Code.{PairingCode, mac_a_label, mac_b_label}
use clipse.Crypto.Code as Code
use clipse.Crypto.Wire.{Identity, PairingAccept, PairingConfirm, PairingFinish}
use clipse.Crypto.Ceremony.{
  PairingInitiator, PairingAwaitingProof, PairingResponder, mac, initiator_transcript,
  responder_transcript, accepted_peer, offered_peer, create_initiator, verify_confirm,
}
use clipse.Daemon.Pairing.{
  PairingState, idle, offering, proving, answering, Outcome, done, fails, begin, begin_answering,
  expire_if_stale, cancel, lookup, answer_accept, finish, commit_pairing,
}

-- What can happen: the user's requests, the messages of a connection, and the end of a ceremony in which
-- this device typed the digits.
pub data Event : Type 0 where
  begun : Identity → Bytes → Platform → List CandidateAddress → Bytes → PairingCode → ℕ → Event
  typing_begun : Event
  looked_up : Bytes → ℕ → Event
  accepted : PairingAccept → ℕ → ℕ → Event
  finished : PairingFinish → Event
  confirmed : PairingResponder → PairingConfirm → ℕ → Event
  cancelled : Event
  checked : ℕ → Event

pub record World : Type 0 where
  pub state : PairingState
  pub trust : Trust

-- `commit_pairing` with what a ceremony ended with.
unfoldable pub commit_outcome : Outcome PairedDevice → Trust → Trust
unfolding commit_pairing
commit_outcome (done p) t = commit_pairing p t
commit_outcome (fails e) t = t

unfoldable pub commit_confirmed : Code.Result (PairingFinish × PairedDevice) → Trust → Trust
unfolding commit_pairing
commit_confirmed (Code.ok (f, p)) t = commit_pairing p t
commit_confirmed (Code.err e) t = t

module _ (digest : Bytes → Bytes) where
  unfoldable pub happen : Event → World → World
  unfolding begin begin_answering lookup answer_accept finish verify_confirm cancel expire_if_stale
      commit_outcome commit_confirmed
  happen (begun identity label platform addresses nonce code now) w = record w {
    state = (begin digest identity label platform addresses nonce code now w.state).0;
  }
  happen typing_begun w = record w { state = (begin_answering w.state).0 }
  happen (looked_up tag now) w = record w { state = (lookup digest tag now w.state).0 }
  happen (accepted accept now again) w = record w {
    state = (answer_accept digest accept now again w.state).0;
  }
  happen (finished f) w = record w {
    state = (finish f w.state).0;
    trust = commit_outcome (finish f w.state).1 w.trust;
  }
  happen (confirmed r c now) w = record w {
    state = cancel w.state;
    trust = commit_confirmed (verify_confirm digest r c now) w.trust;
  }
  happen cancelled w = record w { state = cancel w.state }
  happen (checked now) w = record w { state = (expire_if_stale now w.state).0 }

  -- The worlds that events lead to, the last event first.
  pub data Reached (start : World) : List Event → World → Type 0 where
    at_start : Reached start [] start
    after :
        {es : List Event} {w : World} (e : Event)
        → Reached start es w
        → Reached start (e ∷ es) (happen e w)

  -- The offer was made by this device, with digits that it showed.
  pub data Shown (es : List Event) (i : PairingInitiator) : Type 0 where
    shown :
        (identity : Identity) (label : Bytes) (platform : Platform)
        (addresses : List CandidateAddress) (nonce : Bytes) (code : PairingCode) (now : ℕ)
        → Memᴰ (begun identity label platform addresses nonce code now) es
        → i ≡ create_initiator digest identity label platform addresses nonce code now
        → Shown es i

  -- What makes a device trusted: its proof for the digits that were shown to it, or for those typed here.
  pub data Proved (es : List Event) (p : PairedDevice) : Type 0 where
    for_shown :
        (i : PairingInitiator) (accept : PairingAccept) (now again : ℕ) (f : PairingFinish)
        → Shown es i
        → Memᴰ (accepted accept now again) es
        → Memᴰ (finished f) es
        → f.mac ≡ mac digest mac_b_label (initiator_transcript i accept)
        → p ≡ accepted_peer accept again
        → Proved es p
    for_typed :
        (r : PairingResponder) (c : PairingConfirm) (now : ℕ)
        → Memᴰ (confirmed r c now) es
        → c.mac ≡ mac digest mac_a_label (responder_transcript r c)
        → p ≡ offered_peer r.offer now
        → Proved es p

  -- What a state remembers is true.
  pub data Remembers (es : List Event) : PairingState → Type 0 where
    of_idle : Remembers es idle
    of_answering : Remembers es answering
    of_offering :
        (i : PairingInitiator) (expires_at_ms wrong : ℕ)
        → Shown es i
        → Remembers es (offering i expires_at_ms wrong)
    of_proving :
        (w : PairingAwaitingProof) (i : PairingInitiator) (accept : PairingAccept) (now again : ℕ)
        → Shown es i
        → Memᴰ (accepted accept now again) es
        → w.expected ≡ mac digest mac_b_label (initiator_transcript i accept)
        → w.peer ≡ accepted_peer accept again
        → Remembers es (proving w)
