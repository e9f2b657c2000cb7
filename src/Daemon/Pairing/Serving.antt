-- ===== src/Daemon/Pairing/Serving.antt =====
-- `serve_pairing` and `pairing_ceremony` of crates/clipsed/src/peers.rs: the device that shows the digits, on one
-- connection, with the time that a ceremony may take. Writing the trust set to disk does not fail here.
use clipse.Prelude.{ℕ, ◌+◌, Bool, List, [], ◌∷◌, ltb, if◌then◌else◌}
use clipse.Prelude.Bytes.{Bytes}
use clipse.Crypto.Trust.{PairedDevice}
use clipse.Crypto.Wire.{PairingFinish, PairingWire, lookup_wire, accept_wire, finish_wire}
use clipse.Daemon.Pairing.{
  Outcome, done, fails, offer_outcome, refuse, lookup, answer_accept, finish, cancel,
}
use clipse.Daemon.Pairing.Events.{World, commit_outcome}

-- Twenty seconds.
abbrev pub pairing_ceremony_timeout : ℕ
pairing_ceremony_timeout = 20000

-- Whether the timeout of a ceremony that began at the first time has run out at the second.
unfoldable pub is_late : ℕ → ℕ → Bool
is_late start at = ltb (start + pairing_ceremony_timeout) at

-- What the connection brings: a message at some time, or its end. Where the list of these is over nothing
-- comes any more.
pub data Received : Type 0 where
  arrived : PairingWire → ℕ → Received
  lost : Received

pub data Ending : Type 0 where
  completed rejected stalled : Ending

unfoldable pub ending_of : Outcome PairedDevice → Ending
ending_of (done p) = completed
ending_of (fails e) = rejected

-- The proof is taken, and the device committed.
unfoldable pub take_finish : PairingFinish → World → World
unfolding finish commit_outcome
take_finish f a = record a {
  state = (finish f a.state).0;
  trust = commit_outcome (finish f a.state).1 a.trust;
}

unfoldable pub proof_message : PairingWire → World → World × Ending
unfolding take_finish ending_of finish
proof_message (finish_wire f) a = (take_finish f a, ending_of (finish f a.state).1)
proof_message _ a = (a, rejected)

-- The third message.
unfoldable pub serve_proof : ℕ → List Received → World → World × Ending
unfolding is_late proof_message
serve_proof start [] a = (a, stalled)
serve_proof start (lost ∷ rest) a = (a, rejected)
serve_proof start (arrived message at ∷ rest) a =
    if is_late start at then (a, stalled) else proof_message message a

-- The ending, as `serve_pairing` handles it.
unfoldable pub close : Ending → World → World
unfolding cancel
close stalled a = record a { state = cancel a.state }
close completed a = a
close rejected a = a

module _ (digest : Bytes → Bytes) where
  unfoldable pub accept_message : ℕ → PairingWire → ℕ → List Received → World → World × Ending
  unfolding answer_accept serve_proof
  accept_message start (accept_wire accept) at rest a =
      let (s, answer) = answer_accept digest accept at at a.state in
      elim answer [
        | fails e ↦ (record a { state = s }, rejected)
        | done confirm ↦ serve_proof start rest (record a { state = s })
      ]
  accept_message start _ at rest a = (a, rejected)

  -- The second message.
  unfoldable pub serve_accept : ℕ → List Received → World → World × Ending
  unfolding is_late accept_message
  serve_accept start [] a = (a, stalled)
  serve_accept start (lost ∷ rest) a = (a, rejected)
  serve_accept start (arrived message at ∷ rest) a =
      if is_late start at then (a, stalled) else accept_message start message at rest a

  -- `pairing_ceremony`.
  unfoldable pub pairing_ceremony : ℕ → PairingWire → List Received → World → World × Ending
  unfolding lookup serve_accept
  pairing_ceremony start (lookup_wire tag) received a =
      let (s, found) = lookup digest tag start a.state in
      elim found [
        | refuse ↦ (record a { state = s }, completed)
        | offer_outcome offer ↦ serve_accept start received (record a { state = s })
      ]
  pairing_ceremony start _ received a = (a, rejected)

  -- `serve_pairing`.
  unfoldable pub serve_pairing : ℕ → PairingWire → List Received → World → World
  unfolding pairing_ceremony close
  serve_pairing start first received a =
      let (a', ending) = pairing_ceremony start first received a in close ending a'
