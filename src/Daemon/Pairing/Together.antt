-- ===== src/Daemon/Pairing/Together.antt =====
-- The two daemons of a ceremony: Serving.antt at the device that shows the digits, `pair_with_code` and
-- `run_pairing_ceremony` of crates/clipsed/src/daemon.rs at the device on which they are typed.
-- Which addresses `pairing_targets` gives, each of another device, and whether they can be reached, are
-- arguments.
use clipse.Prelude.{ℕ, List, [], ◌∷◌, map, Option, none, some, if◌then◌else◌}
use clipse.Prelude.Bytes.{Bytes}
use clipse.Crypto.Trust.{Platform, CandidateAddress, PairedDevice}
use clipse.Crypto.Code.{PairingCode, tag, matches_tag}
use clipse.Crypto.Code as Code
use clipse.Crypto.Wire.{Identity, PairingAccept, PairingConfirm, finish_wire}
use clipse.Crypto.Ceremony.{PairingResponder, from_offer, verify_confirm}
use clipse.Daemon.Pairing.{
  Outcome, done, fails, failed, not_found, offer_outcome, refuse, begin_answering, lookup,
  answer_accept, cancel,
}
use clipse.Daemon.Pairing.Events.{World, commit_outcome}
use clipse.Daemon.Pairing.Serving.{arrived, stalled, is_late, serve_proof, close}

-- The addresses, label and platform that a device tells about itself.
pub record Device : Type 0 where
  pub identity : Identity
  pub label : Bytes
  pub platform : Platform
  pub addresses : List CandidateAddress

-- An address: nothing answers there or no daemon that pairs, or a daemon serves the call.
pub data Target : Type 0 where
  unreachable : Target
  reached : World → Target

-- One turn of the loop over the addresses: the address, the nonce that `from_offer` draws, and the times of the
-- lookup, of the accept at the other device, of the check of its confirm and of the proof at the other
-- device.
pub record Call : Type 0 where
  pub target : Target
  pub nonce : Bytes
  pub asked_at : ℕ
  pub accepted_at : ℕ
  pub verified_at : ℕ
  pub proved_at : ℕ

module _ (digest : Bytes → Bytes) where
  -- The device that typed the digits verifies the confirm, sends its proof and is done.
  unfoldable pub end_with :
      Call → PairingResponder → PairingConfirm → World → World × Outcome PairedDevice
  unfolding verify_confirm serve_proof close
  end_with c r confirm a = elim (verify_confirm digest r confirm c.verified_at) [
    | Code.err e ↦ (a, fails failed)
    | Code.ok (f, p) ↦
        let (a', ending) = serve_proof c.asked_at (arrived (finish_wire f) c.proved_at ∷ []) a in
        (close ending a', done p)
  ]

  -- The accept is sent and answered, unless the other device has given the ceremony up.
  unfoldable pub send_accept :
      Call → PairingResponder → PairingAccept → World → World × Outcome PairedDevice
  unfolding answer_accept end_with is_late close
  send_accept c r accept a =
      let (s, answer) = answer_accept digest accept c.accepted_at c.accepted_at a.state in
      let rest : World × Outcome PairedDevice = elim answer [
        | fails e ↦ (record a { state = s }, fails failed)
        | done confirm ↦ end_with c r confirm (record a { state = s })
      ] in
      if is_late c.asked_at c.accepted_at then (close stalled a, fails failed) else rest

  -- One device is asked; a refusal is no outcome yet.
  unfoldable pub ask : PairingCode → Device → Call → World → World × Option (Outcome PairedDevice)
  unfolding tag lookup from_offer send_accept
  ask code d c a =
      let (s, found) = lookup digest (tag digest code) c.asked_at a.state in
      elim found [
        | refuse ↦ (record a { state = s }, none)
        | offer_outcome offer ↦
            elim (from_offer offer code d.identity d.label d.platform d.addresses c.nonce
              c.asked_at) [
                | Code.err e ↦ (record a { state = s }, some (fails failed))
                | Code.ok (r, accept) ↦
                    let (a', outcome) = send_accept c r accept (record a { state = s }) in
                    (a', some outcome)
              ]
      ]

  -- `run_pairing_ceremony`: the targets afterwards, and the outcome.
  unfoldable pub run_pairing_ceremony :
      PairingCode → Device → List Call → List Target × Outcome PairedDevice
  unfolding ask
  run_pairing_ceremony code d [] = ([], fails not_found)
  run_pairing_ceremony code d (c ∷ cs) =
      let (others, later) = run_pairing_ceremony code d cs in
      elim c.target [
        | unreachable ↦ (unreachable ∷ others, later)
        | reached a ↦
            let (a', answer) = ask code d c a in
            elim answer [
              | none ↦ (reached a' ∷ others, later)
              | some outcome ↦ (reached a' ∷ map (λ call. call.target) cs, outcome)
            ]
      ]

  -- `pair_with_code` after parsing, with the world of the device on which the digits are typed.
  unfoldable pub pair_with_code : PairingCode → Device → List Call → World → List Target × World
  unfolding begin_answering run_pairing_ceremony cancel commit_outcome
  pair_with_code code d calls b =
      let (s, claimed) = begin_answering b.state in
      elim claimed [
        | fails e ↦ (map (λ call. call.target) calls, record b { state = s })
        | done _ ↦
            let (targets, outcome) = run_pairing_ceremony code d calls in
            (targets, record b { state = cancel s; trust = commit_outcome outcome b.trust })
      ]
