-- ===== src/Daemon/Pairing/Proofs.antt =====
-- How a device enters the set of trusted devices.
use mathlib.Core.List.{Memᴰ}
use clipse.Prelude.{
  ℕ, ◌≡◌, refl, ◌∙◌, List, ◌∷◌, some, ◌==◌, if◌then◌else◌, arith, inl, inr, ◌⊎◌, subst,
}
use clipse.Prelude.Bytes.{Bytes}
use clipse.Core.Id.{DeviceId}
use clipse.Crypto.Trust.{PairedDevice, Trust, peer, add_peer}
use clipse.Crypto.Trust.Revocation.{peer_in-put_peer}
use clipse.Crypto.Code.{PairingCode, mac_a_label, mac_b_label}
use clipse.Crypto.Code as Code
use clipse.Crypto.Wire.{PairingConfirm, PairingFinish}
use clipse.Crypto.Ceremony.{PairingAwaitingProof, PairingResponder, verify_confirm, verify_proof}
use clipse.Crypto.Ceremony.Agreement.{verify_confirm-mac, verify_proof-mac}
use clipse.Daemon.Pairing.{
  PairingState, idle, offering, proving, answering, Outcome, done, fails, finish, commit_pairing,
}
use clipse.Daemon.Pairing.Events.{
  Event, begun, typing_begun, looked_up, accepted, finished, confirmed, cancelled, checked, World,
  commit_outcome, commit_confirmed, happen, Reached, at_start, after, Proved, for_shown, for_typed,
  Remembers, of_proving,
}
use clipse.Daemon.Pairing.Memory.{Shown-more, reached-Remembers}

pub peer-commit_pairing :
    (id : DeviceId) (p : PairedDevice) (t : Trust)
    → peer id (commit_pairing p t) ≡ (if p.device_id == id then some p else peer id t)
unfolding commit_pairing add_peer peer
peer-commit_pairing id p t = peer_in-put_peer id p t.peers

committed-cases :
    (id : DeviceId) (p new : PairedDevice) (t : Trust)
    → peer id (commit_pairing new t) ≡ some p
    → (new ≡ p) ⊎ (peer id t ≡ some p)
committed-cases id p new t q = ground (arith, peer-commit_pairing id new t)

finish_ok :
    (f : PairingFinish) (w : PairingAwaitingProof) (p : PairedDevice)
    → (finish f (proving w)).1 ≡ done p
    → verify_proof w f ≡ Code.ok p
unfolding finish
finish_ok f w p q = ground arith

module _ (digest : Bytes → Bytes) where
  Proved-more :
      {es : List Event} {p : PairedDevice} (e : Event)
      → Proved digest es p
      → Proved digest (e ∷ es) p
  Proved-more e (for_shown i a n g f s ma mf q k) =
      for_shown i a n g f (Shown-more digest e s) (Memᴰ.tail ma) (Memᴰ.tail mf) q k
  Proved-more e (for_typed r c n m q k) = for_typed r c n (Memᴰ.tail m) q k

  finish-Proved :
      {es : List Event} (f : PairingFinish) (s : PairingState) (p : PairedDevice)
      → Remembers digest es s
      → (finish f s).1 ≡ done p
      → Proved digest (finished f ∷ es) p
  unfolding finish
  finish-Proved f idle p h q = cc
  finish-Proved f answering p h q = cc
  finish-Proved f (offering i x k) p h q = cc
  finish-Proved f (proving w) p (of_proving _ i accept now again s m expected kept) q =
      let (proof, same) = verify_proof-mac w f p (finish_ok f w p q) in
      for_shown i accept now again f (Shown-more digest (finished f) s) (Memᴰ.tail m)
        (Memᴰ.head refl) (proof ∙ expected) (same ∙ kept)

  confirm-Proved :
      {es : List Event} (r : PairingResponder) (c : PairingConfirm) (now : ℕ) (f : PairingFinish)
      (p : PairedDevice)
      → verify_confirm digest r c now ≡ Code.ok (f, p)
      → Proved digest (confirmed r c now ∷ es) p
  confirm-Proved r c now f p q =
      let (m, e1, kept) = verify_confirm-mac digest r c now f p q in
      for_typed r c now (Memᴰ.head refl) m kept

  committed :
      {es : List Event} (id : DeviceId) (p new : PairedDevice) (t : Trust)
      → Proved digest es new
      → peer id (commit_pairing new t) ≡ some p
      → (peer id t ≡ some p) ⊎ Proved digest es p
  committed {es} id p new t h q = elim (committed-cases id p new t q) [
    | inl same ↦ inr (subst (λ d. Proved digest es d) same h)
    | inr old ↦ inl old
  ]

  finish-trust :
      {es : List Event} (f : PairingFinish) (s : PairingState) (id : DeviceId) (p : PairedDevice)
      (t : Trust) (o : Outcome PairedDevice)
      → Remembers digest es s
      → (finish f s).1 ≡ o
      → peer id (commit_outcome o t) ≡ some p
      → (peer id t ≡ some p) ⊎ Proved digest (finished f ∷ es) p
  unfolding commit_outcome
  finish-trust f s id p t (fails e) h o q = inl q
  finish-trust f s id p t (done new) h o q = committed id p new t (finish-Proved f s new h o) q

  confirm-trust :
      {es : List Event} (r : PairingResponder) (c : PairingConfirm) (now : ℕ) (id : DeviceId)
      (p : PairedDevice) (t : Trust) (o : Code.Result (PairingFinish × PairedDevice))
      → verify_confirm digest r c now ≡ o
      → peer id (commit_confirmed o t) ≡ some p
      → (peer id t ≡ some p) ⊎ Proved digest (confirmed r c now ∷ es) p
  unfolding commit_confirmed
  confirm-trust r c now id p t (Code.err e) o q = inl q
  confirm-trust r c now id p t (Code.ok (f, new)) o q =
      committed id p new t (confirm-Proved r c now f new o) q

  -- One event.
  happen-Proved :
      {es : List Event} (e : Event) (w : World) (id : DeviceId) (p : PairedDevice)
      → Remembers digest es w.state
      → peer id (happen digest e w).trust ≡ some p
      → (peer id w.trust ≡ some p) ⊎ Proved digest (e ∷ es) p
  unfolding happen
  happen-Proved (begun identity label platform addresses nonce code now) w id p h q = inl q
  happen-Proved typing_begun w id p h q = inl q
  happen-Proved (looked_up tag now) w id p h q = inl q
  happen-Proved (accepted accept now again) w id p h q = inl q
  happen-Proved (finished f) w id p h q =
      finish-trust f w.state id p w.trust (finish f w.state).1 h refl q
  happen-Proved (confirmed r c now) w id p h q =
      confirm-trust r c now id p w.trust (verify_confirm digest r c now) refl q
  happen-Proved cancelled w id p h q = inl q
  happen-Proved (checked now) w id p h q = inl q

  -- Whatever requests and messages come, in whatever order: a device that is trusted was trusted at the
  -- start, or sent the proof for digits that this device had shown and an accept that it had answered, or
  -- for digits typed on this device.
  pub trusted-Proved :
      {start w : World} {es : List Event} (id : DeviceId) (p : PairedDevice)
      → start.state ≡ idle
      → Reached digest start es w
      → peer id w.trust ≡ some p
      → (peer id start.trust ≡ some p) ⊎ Proved digest es p
  trusted-Proved id p q at_start t = inl t
  trusted-Proved id p q (after {w = w} e r) t =
      elim (happen-Proved e w id p (reached-Remembers digest q r) t) [
        | inr proved ↦ inr proved
        | inl earlier ↦ elim (trusted-Proved id p q r earlier) [
          | inl old ↦ inl old
          | inr proved ↦ inr (Proved-more e proved)
        ]
      ]
