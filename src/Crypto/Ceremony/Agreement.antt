-- ===== src/Crypto/Ceremony/Agreement.antt =====
-- What the two authentication codes of the ceremony guarantee when everything else on the wire is forged.
use clipse.Prelude.{
  ℕ, ◌≤◌, ◌≡◌, ◌≢◌, refl, sym, ap, ◌∙◌, length, get_elem?, none, some, arith, inl, inr, ◌⊎◌,
}
use clipse.Prelude.Bytes.{Bytes, bytes_eq→eq}
use clipse.Prelude.Words.{u64_max}
use clipse.Crypto.Trust.{PairedDevice}
use clipse.Crypto.Code.{ok, err, pairing_failed, mac_a_label, mac_b_label, joined, transcript_hash}
use clipse.Crypto.Ceremony.{
  PairingInitiator, PairingResponder, PairingAwaitingProof, mac, initiator_transcript,
  responder_transcript, accepted_peer, offered_peer, accept_pairing, verify_confirm, verify_proof,
}
use clipse.Crypto.Wire.{PairingAccept, PairingConfirm, PairingFinish, Transcript, parts}
use clipse.Crypto.Ceremony.Transcripts.{
  Collision, IsTranscript, mac_inj, joined_inj, parts_fit, digest-or_Collision,
}

pub accept_pairing-mac :
    (digest : Bytes → Bytes) (i : PairingInitiator) (accept : PairingAccept) (now : ℕ)
    (c : PairingConfirm) (w : PairingAwaitingProof)
    → accept_pairing digest i accept now ≡ ok (c, w)
    → (c.mac ≡ mac digest mac_a_label (initiator_transcript i accept))
      × (w.expected ≡ mac digest mac_b_label (initiator_transcript i accept))
      × (w.peer ≡ accepted_peer accept now)
unfolding accept_pairing
accept_pairing-mac digest i accept now c w h = ground arith

pub verify_confirm-mac :
    (digest : Bytes → Bytes) (r : PairingResponder) (c : PairingConfirm) (now : ℕ)
    (f : PairingFinish) (p : PairedDevice)
    → verify_confirm digest r c now ≡ ok (f, p)
    → (c.mac ≡ mac digest mac_a_label (responder_transcript r c))
      × (f.mac ≡ mac digest mac_b_label (responder_transcript r c))
      × (p ≡ offered_peer r.offer now)
unfolding verify_confirm
verify_confirm-mac digest r c now f p h =
    ground (arith, bytes_eq→eq c.mac (mac digest mac_a_label (responder_transcript r c)))

pub verify_proof-mac :
    (w : PairingAwaitingProof) (f : PairingFinish) (p : PairedDevice)
    → verify_proof w f ≡ ok p
    → (f.mac ≡ w.expected) × (p ≡ w.peer)
unfolding verify_proof
verify_proof-mac w f p h = ground (arith, bytes_eq→eq f.mac w.expected)

mac_a_label_fits : length mac_a_label ≤ u64_max
mac_a_label_fits = omega arith

mac_b_label_fits : length mac_b_label ≤ u64_max
mac_b_label_fits = omega arith

-- The second device only takes the proof of a device that answered it: if it accepts a message with the
-- code that the first device computed, whatever else was changed on the way, what it keeps is the first
-- device's identity and key, the first device saw the second one's identity and key, and both have the
-- same digits; or the hash function has a collision.
pub verify_confirm-agrees :
    (digest : Bytes → Bytes) (i : PairingInitiator) (accept : PairingAccept) (now : ℕ)
    (sent : PairingConfirm) (w : PairingAwaitingProof) (r : PairingResponder)
    (received : PairingConfirm) (later : ℕ) (f : PairingFinish) (p : PairedDevice)
    → IsTranscript (initiator_transcript i accept)
    → IsTranscript (responder_transcript r received)
    → accept_pairing digest i accept now ≡ ok (sent, w)
    → received.mac ≡ sent.mac
    → verify_confirm digest r received later ≡ ok (f, p)
    → ((p.device_id ≡ i.offer.device_id)
        × (p.static_public ≡ i.offer.static_public)
        × (accept.device_id ≡ r.accept.device_id)
        × (accept.static_public ≡ r.accept.static_public)
        × (i.code ≡ r.code))
      ⊎ Collision digest
unfolding initiator_transcript responder_transcript offered_peer
verify_confirm-agrees digest i accept now sent w r received later f p hi hr a m v =
    let (sent_mac, e1, e2) = accept_pairing-mac digest i accept now sent w a in
    let (received_mac, e3, kept) = verify_confirm-mac digest r received later f p v in
    elim (mac_inj digest mac_a_label (initiator_transcript i accept)
      (responder_transcript r received) mac_a_label_fits hi hr
      (sym sent_mac ∙ sym m ∙ received_mac)) [
        | inr c ↦ inr c
        | inl same ↦ inl (
          ap (λ x. x.device_id) kept ∙ sym (ap (λ t. t.initiator) same),
          ap (λ x. x.static_public) kept ∙ sym (ap (λ t. t.initiator_key) same),
          ap (λ t. t.responder) same,
          ap (λ t. t.responder_key) same,
          ap (λ t. t.code) same,
        )
      ]

-- The first device only trusts a device that proved it has the digits: if it accepts a message with the
-- code that the second device computed, what it keeps is the second device's identity and key, the
-- second device saw the first one's identity and key, and both have the same digits; or the hash function
-- has a collision.
pub verify_proof-agrees :
    (digest : Bytes → Bytes) (i : PairingInitiator) (accept : PairingAccept) (now : ℕ)
    (c : PairingConfirm) (w : PairingAwaitingProof) (r : PairingResponder)
    (received : PairingConfirm) (later : ℕ) (sent : PairingFinish) (p : PairedDevice)
    (f : PairingFinish) (q : PairedDevice)
    → IsTranscript (initiator_transcript i accept)
    → IsTranscript (responder_transcript r received)
    → accept_pairing digest i accept now ≡ ok (c, w)
    → verify_confirm digest r received later ≡ ok (sent, p)
    → f.mac ≡ sent.mac
    → verify_proof w f ≡ ok q
    → ((q.device_id ≡ r.accept.device_id)
        × (q.static_public ≡ r.accept.static_public)
        × (i.offer.device_id ≡ r.offer.device_id)
        × (i.offer.static_public ≡ r.offer.static_public)
        × (i.code ≡ r.code))
      ⊎ Collision digest
unfolding initiator_transcript responder_transcript accepted_peer
verify_proof-agrees digest i accept now c w r received later sent p f q hi hr a v m h =
    let (e1, expected, peer) = accept_pairing-mac digest i accept now c w a in
    let (e2, sent_mac, e3) = verify_confirm-mac digest r received later sent p v in
    let (proof, kept) = verify_proof-mac w f q h in
    elim (mac_inj digest mac_b_label (initiator_transcript i accept)
      (responder_transcript r received) mac_b_label_fits hi hr
      (sym expected ∙ sym proof ∙ m ∙ sent_mac)) [
        | inr c ↦ inr c
        | inl same ↦ inl (
          ap (λ x. x.device_id) (kept ∙ peer) ∙ ap (λ t. t.responder) same,
          ap (λ x. x.static_public) (kept ∙ peer) ∙ ap (λ t. t.responder_key) same,
          ap (λ t. t.initiator) same,
          ap (λ t. t.initiator_key) same,
          ap (λ t. t.code) same,
        )
      ]

verify_proof-cases :
    (w : PairingAwaitingProof) (f : PairingFinish)
    → (verify_proof w f ≡ err pairing_failed) ⊎ (verify_proof w f ≡ ok w.peer)
unfolding verify_proof
verify_proof-cases w f = ground arith

labels_differ : mac_a_label ≢ mac_b_label
labels_differ e =
    let letter : Bytes → ℕ = λ s. elim (get_elem? s 19) [ none ↦ 0 | some x ↦ x ] in
    absurd (omega (arith, ap letter e))

as_many : (t : Transcript) → length (parts mac_a_label t) ≡ length (parts mac_b_label t)
unfolding parts
as_many t = refl

parts_head : (t : Transcript) → parts mac_a_label t ≢ parts mac_b_label t
unfolding parts
parts_head t e = absurd (labels_differ (cc e))

-- The two sides' codes differ even for one transcript.
mac-labels :
    (digest : Bytes → Bytes) (t : Transcript)
    → IsTranscript t
    → mac digest mac_a_label t ≡ mac digest mac_b_label t
    → Collision digest
unfolding mac transcript_hash
mac-labels digest t h e =
    let a = parts mac_a_label t in
    let b = parts mac_b_label t in
    elim (digest-or_Collision digest (joined a) (joined b) e) [
      | inr c ↦ c
      | inl same ↦ absurd (
          parts_head t (
            joined_inj a b (as_many t) (parts_fit mac_a_label t h mac_a_label_fits)
              (parts_fit mac_b_label t h mac_b_label_fits) same))
    ]

-- A device's own proof, sent back to it, is not taken for the other's: what answers with the code that
-- the first device sent is refused, or the hash function has a collision.
pub verify_proof-reflected :
    (digest : Bytes → Bytes) (i : PairingInitiator) (accept : PairingAccept) (now : ℕ)
    (c : PairingConfirm) (w : PairingAwaitingProof) (f : PairingFinish)
    → IsTranscript (initiator_transcript i accept)
    → accept_pairing digest i accept now ≡ ok (c, w)
    → f.mac ≡ c.mac
    → (verify_proof w f ≡ err pairing_failed) ⊎ Collision digest
verify_proof-reflected digest i accept now c w f hi a m = elim (verify_proof-cases w f) [
  | inl failed ↦ inl failed
  | inr passed ↦
      let (sent, expected, e1) = accept_pairing-mac digest i accept now c w a in
      let (proof, e2) = verify_proof-mac w f w.peer passed in
      inr
        (mac-labels digest (initiator_transcript i accept) hi (sym sent ∙ sym m ∙ proof ∙ expected))
]
