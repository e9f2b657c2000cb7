-- ===== src/Daemon/Pairing/Waiting.antt =====
-- A device that waits for the other side's proof, when that side goes away or is quiet.
use clipse.Prelude.{ℕ, ◌+◌, ◌≤◌, ◌≡◌, ap, ◌∙◌, Bool, true, false, List, [], ◌∷◌, arith, all_of}
use clipse.Prelude.Bytes.{Bytes}
use clipse.Crypto.Trust.{Platform, CandidateAddress}
use clipse.Crypto.Code.{PairingCode}
use clipse.Crypto.Wire.{
  Identity, PairingOffer, PairingAccept, PairingConfirm, lookup_wire, accept_wire,
}
use clipse.Crypto.Ceremony.{PairingAwaitingProof}
use clipse.Daemon.Pairing.{
  PairingState, idle, proving, done, fails, already_in_progress, offer_outcome, begin,
  begin_answering, expire_if_stale, answer_lookup, lookup, answer_accept, cancel, is_busy,
}
use clipse.Daemon.Pairing.Serving.{
  Received, arrived, lost, rejected, is_late, serve_proof, close, accept_message, serve_accept,
  pairing_ceremony, serve_pairing,
}
use clipse.Daemon.Pairing.Events.{
  Event, begun, typing_begun, looked_up, accepted, finished, confirmed, cancelled, checked, World,
  happen,
}

-- The events that are neither an answer nor a cancelling, which the timeout of a connection is too: the user's
-- other requests, the lookups of other devices and the checks of the time.
unfoldable pub is_other : Event → Bool
is_other (begun identity label platform addresses nonce code now) = true
is_other typing_begun = true
is_other (looked_up tag now) = true
is_other (accepted accept now again) = false
is_other (finished f) = false
is_other (confirmed r c now) = false
is_other cancelled = false
is_other (checked now) = true

module _ (digest : Bytes → Bytes) where
  unfoldable pub happen_all : List Event → World → World
  happen_all [] w = w
  happen_all (e ∷ es) w = happen_all es (happen digest e w)

  happen-waits :
      (e : Event) (w : World) (p : PairingAwaitingProof)
      → is_other e ≡ true
      → w.state ≡ proving p
      → (happen digest e w).state ≡ proving p
  unfolding happen is_other begin begin_answering lookup expire_if_stale answer_lookup is_busy
  happen-waits (begun identity label platform addresses nonce code now) w p o h =
      ap (λ s. (begin digest identity label platform addresses nonce code now s).0) h
  happen-waits typing_begun w p o h = ap (λ s. (begin_answering s).0) h
  happen-waits (looked_up tag now) w p o h = ap (λ s. (lookup digest tag now s).0) h
  happen-waits (checked now) w p o h = ap (λ s. (expire_if_stale now s).0) h
  happen-waits (accepted accept now again) w p o h = cc
  happen-waits (finished f) w p o h = cc
  happen-waits (confirmed r c now) w p o h = cc
  happen-waits cancelled w p o h = cc

  happen_all-waits :
      (es : List Event) (w : World) (p : PairingAwaitingProof)
      → all_of is_other es ≡ true
      → w.state ≡ proving p
      → (happen_all es w).state ≡ proving p
  unfolding happen_all
  happen_all-waits [] w p o h = h
  happen_all-waits (e ∷ es) w p o h =
      happen_all-waits es (happen digest e w) p (ground arith) (happen-waits e w p (ground arith) h)

  served-lost :
      (start at : ℕ) (tag : Bytes) (accept : PairingAccept) (rest : List Received) (w : World)
      (s : PairingState) (o : PairingOffer)
      → lookup digest tag start w.state ≡ (s, offer_outcome o)
      → is_late start at ≡ false
      → serve_pairing digest start (lookup_wire tag) (arrived (accept_wire accept) at ∷ rest) w ≡ (
          let r =
            accept_message digest start (accept_wire accept) at rest (record w { state = s }) in
          close r.1 r.0)
  unfolding serve_pairing pairing_ceremony serve_accept
  served-lost start at tag accept rest w s o e early =
      rw (e, early, pairing_ceremony)
        (ap
          (λ z.
            let r =
              accept_message digest start (accept_wire accept) at rest (record w { state = z.0 }) in
            close r.1 r.0)
          e)

  accepted-waits :
      (start at : ℕ) (accept : PairingAccept) (rest : List Received) (w : World)
      (p : PairingAwaitingProof) (m : PairingConfirm)
      → answer_accept digest accept at at w.state ≡ (proving p, done m)
      → accept_message digest start (accept_wire accept) at rest w
        ≡ serve_proof start rest (record w { state = proving p })
  unfolding accept_message
  accepted-waits start at accept rest w p m e =
      ap
        (λ z. elim z.1 [
          | fails x ↦ (record w { state = z.0 }, rejected)
          | done confirm ↦ serve_proof start rest (record w { state = z.0 })
        ])
        e

  -- A device that shows digits, made an offer and answered the accept in time: if the connection ends then, the
  -- device goes on waiting for the proof, and as long as the user does not cancel and no other connection answers
  -- or runs into its timeout, a request to show digits or to type them is refused because a pairing is
  -- in progress. If the connection stays and nothing comes, the timeout ends the waiting.
  pub begin_while_waiting :
      (start at : ℕ) (tag : Bytes) (accept : PairingAccept) (w : World) (s : PairingState)
      (o : PairingOffer) (p : PairingAwaitingProof) (m : PairingConfirm) (es : List Event)
      (identity : Identity) (label : Bytes) (platform : Platform)
      (addresses : List CandidateAddress) (nonce : Bytes) (code : PairingCode) (now : ℕ)
      → lookup digest tag start w.state ≡ (s, offer_outcome o)
      → at ≤ start + 20000
      → answer_accept digest accept at at s ≡ (proving p, done m)
      → all_of is_other es ≡ true
      → let gone =
          serve_pairing digest start
            (lookup_wire tag)
            (arrived (accept_wire accept) at ∷ lost ∷ [])
            w in
        let quiet =
          serve_pairing digest start (lookup_wire tag) (arrived (accept_wire accept) at ∷ []) w in
        ((begin digest identity label platform addresses nonce code now
            (happen_all es gone).state).1
          ≡ fails already_in_progress)
        × ((begin_answering (happen_all es gone).state).1 ≡ fails already_in_progress)
        × (quiet.state ≡ idle)
  unfolding begin begin_answering is_busy is_late serve_proof close cancel
  begin_while_waiting start at tag accept w s o p m es identity label platform addresses nonce code
        now e early q others =
      let served = λ (rest : List Received).
        served-lost start at tag accept rest w s o e (ground arith)
        ∙ ap (λ r. close r.1 r.0)
            (accepted-waits start at accept rest (record w { state = s }) p m q) in
      let still = happen_all-waits es _ p others (ap (λ v. v.state) (served (lost ∷ []))) in
      (
        ap (λ z. (begin digest identity label platform addresses nonce code now z).1) still,
        ap (λ z. (begin_answering z).1) still,
        ap (λ v. v.state) (served []),
      )
