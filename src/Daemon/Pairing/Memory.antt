-- ===== src/Daemon/Pairing/Memory.antt =====
-- What the state of a pairing remembers is what happened.
use mathlib.Core.List.{Memᴰ}
use clipse.Prelude.{
  ℕ, ◌+◌, ◌≡◌, refl, sym, List, [], ◌∷◌, ltb, leb, inl, inr, ◌⊎◌, Bool-cases, subst,
}
use clipse.Prelude.Bytes.{Bytes}
use clipse.Crypto.Trust.{Platform, CandidateAddress}
use clipse.Crypto.Code.{PairingCode, mac_a_label, mac_b_label}
use clipse.Crypto.Code as Code
use clipse.Crypto.Wire.{PairingAccept, PairingConfirm, PairingFinish, Identity}
use clipse.Crypto.Ceremony.{
  PairingInitiator, PairingAwaitingProof, accept_pairing, verify_proof, answers,
}
use clipse.Crypto.Ceremony.Agreement.{accept_pairing-mac}
use clipse.Daemon.Pairing.{
  PairingState, idle, offering, proving, answering, Outcome, done, fails, failed, begin,
  begin_answering, expire_if_stale, cancel, lookup, answer_lookup, answer_accept, finish, is_busy,
}
use clipse.Daemon.Pairing.Events.{
  Event, begun, typing_begun, looked_up, accepted, finished, confirmed, cancelled, checked, World,
  happen, Reached, at_start, after, Shown, shown, Remembers, of_idle, of_answering, of_offering,
  of_proving,
}

Result-cases :
    {A : Type 0} (r : Code.Result A)
    → ((a : A) × (r ≡ Code.ok a)) ⊎ ((e : Code.Error) × (r ≡ Code.err e))
Result-cases (Code.ok a) = inl (a, refl)
Result-cases (Code.err e) = inr (e, refl)

-- The branch of `answer_accept` for an offer that is still valid.
unfoldable answered :
    Code.Result (PairingConfirm × PairingAwaitingProof) → PairingState × Outcome PairingConfirm
answered (Code.ok (confirm, awaiting)) = (proving awaiting, done confirm)
answered (Code.err e) = (idle, fails failed)

module _ (digest : Bytes → Bytes) where
  pub Shown-more :
      {es : List Event} {i : PairingInitiator} (e : Event)
      → Shown digest es i
      → Shown digest (e ∷ es) i
  Shown-more e (shown d l pl a n c t m q) = shown d l pl a n c t (Memᴰ.tail m) q

  Remembers-more :
      {es : List Event} {s : PairingState} (e : Event)
      → Remembers digest es s
      → Remembers digest (e ∷ es) s
  Remembers-more e of_idle = of_idle
  Remembers-more e of_answering = of_answering
  Remembers-more e (of_offering i x k h) = of_offering i x k (Shown-more e h)
  Remembers-more e (of_proving w i a n g h m q k) =
      of_proving w i a n g (Shown-more e h) (Memᴰ.tail m) q k

  expire-Remembers :
      {es : List Event} (now : ℕ) (s : PairingState)
      → Remembers digest es s
      → Remembers digest es (expire_if_stale now s).0
  unfolding expire_if_stale
  expire-Remembers now idle h = of_idle
  expire-Remembers now answering h = of_answering
  expire-Remembers now (offering i x k) h = elim (Bool-cases (ltb x now)) [
    | inl e ↦ rw (e) of_idle
    | inr e ↦ rw (e) h
  ]
  expire-Remembers now (proving w) h = h

  answer-Remembers :
      {es : List Event} (tag : Bytes) (s : PairingState)
      → Remembers digest es s
      → Remembers digest es (answer_lookup digest tag s).0
  unfolding answer_lookup
  answer-Remembers tag idle h = of_idle
  answer-Remembers tag answering h = of_answering
  answer-Remembers tag (offering i x k) (of_offering _ _ _ h) =
      elim (Bool-cases (answers digest i tag)) [
        | inl e ↦ rw (e) (of_offering i x k h)
        | inr e ↦ elim (Bool-cases (leb 8 (k + 1))) [
          | inl full ↦ rw (e, full) of_idle
          | inr left ↦ rw (e, left) (of_offering i x (k + 1) h)
        ]
      ]
  answer-Remembers tag (proving w) h = h

  -- The state after an answer to an accept.
  settled :
      {es : List Event} (accept : PairingAccept) (now again : ℕ) (i : PairingInitiator)
      → Shown digest (accepted accept now again ∷ es) i
      → (answer : Code.Result (PairingConfirm × PairingAwaitingProof))
      → accept_pairing digest i accept again ≡ answer
      → Remembers digest (accepted accept now again ∷ es) (answered answer).0
  unfolding answered
  settled accept now again i h (Code.err e) q = of_idle
  settled accept now again i h (Code.ok (c, w)) q =
      let (e1, expected, kept) = accept_pairing-mac digest i accept again c w q in
      of_proving w i accept now again h (Memᴰ.head refl) expected kept

  answer_accept-Remembers :
      {es : List Event} (accept : PairingAccept) (now again : ℕ) (s : PairingState)
      → Remembers digest es s
      → Remembers digest
          (accepted accept now again ∷ es)
          (answer_accept digest accept now again s).0
  unfolding answer_accept answered
  answer_accept-Remembers accept now again idle h = of_idle
  answer_accept-Remembers accept now again answering h = of_idle
  answer_accept-Remembers accept now again (proving w) h = of_idle
  answer_accept-Remembers accept now again (offering i x k) (of_offering _ _ _ h) =
      elim (Bool-cases (ltb x now)) [
        | inl e ↦ rw (e) of_idle
        | inr e ↦ rw (e) (
            settled accept now again i (Shown-more (accepted accept now again) h)
              (accept_pairing digest i accept again) refl)
      ]

  finish-Remembers :
      {es : List Event} (f : PairingFinish) (s : PairingState)
      → Remembers digest es s
      → Remembers digest es (finish f s).0
  unfolding finish
  finish-Remembers f idle h = of_idle
  finish-Remembers f answering h = of_idle
  finish-Remembers f (offering i x k) h = of_idle
  finish-Remembers f (proving w) h = elim (Result-cases (verify_proof w f)) [
    | inl (p, e) ↦ rw (e, finish) of_idle
    | inr (x, e) ↦ rw (e, finish) of_idle
  ]

  begin-Remembers :
      {es : List Event} (identity : Identity) (label : Bytes) (platform : Platform)
      (addresses : List CandidateAddress) (nonce : Bytes) (code : PairingCode) (now : ℕ)
      (s : PairingState)
      → Remembers digest es s
      → Remembers digest
          (begun identity label platform addresses nonce code now ∷ es)
          (begin digest identity label platform addresses nonce code now s).0
  unfolding begin is_busy
  begin-Remembers identity label platform addresses nonce code now idle h =
      of_offering _ _ 0
        (shown identity label platform addresses nonce code now (Memᴰ.head refl) refl)
  begin-Remembers identity label platform addresses nonce code now answering h = of_answering
  begin-Remembers identity label platform addresses nonce code now (offering i x k) h =
      Remembers-more (begun identity label platform addresses nonce code now) h
  begin-Remembers identity label platform addresses nonce code now (proving w) h =
      Remembers-more (begun identity label platform addresses nonce code now) h

  typing-Remembers :
      {es : List Event} (s : PairingState)
      → Remembers digest es s
      → Remembers digest es (begin_answering s).0
  unfolding begin_answering is_busy
  typing-Remembers idle h = of_answering
  typing-Remembers answering h = h
  typing-Remembers (offering i x k) h = h
  typing-Remembers (proving w) h = h

  happen-Remembers :
      {es : List Event} (e : Event) (w : World)
      → Remembers digest es w.state
      → Remembers digest (e ∷ es) (happen digest e w).state
  unfolding happen lookup cancel
  happen-Remembers (begun identity label platform addresses nonce code now) w h =
      begin-Remembers identity label platform addresses nonce code now w.state h
  happen-Remembers typing_begun w h = Remembers-more typing_begun (typing-Remembers w.state h)
  happen-Remembers (looked_up tag now) w h =
      Remembers-more (looked_up tag now)
        (answer-Remembers tag (expire_if_stale now w.state).0 (expire-Remembers now w.state h))
  happen-Remembers (accepted accept now again) w h =
      answer_accept-Remembers accept now again w.state h
  happen-Remembers (finished f) w h = Remembers-more (finished f) (finish-Remembers f w.state h)
  happen-Remembers (confirmed r c now) w h = of_idle
  happen-Remembers cancelled w h = of_idle
  happen-Remembers (checked now) w h = Remembers-more (checked now) (expire-Remembers now w.state h)

  pub reached-Remembers :
      {start w : World} {es : List Event}
      → start.state ≡ idle
      → Reached digest start es w
      → Remembers digest es w.state
  reached-Remembers {start} q at_start = subst (λ s. Remembers digest [] s) (sym q) of_idle
  reached-Remembers q (after {w = w} e r) = happen-Remembers e w (reached-Remembers q r)
