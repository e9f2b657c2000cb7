-- ===== src/Crypto/Ceremony/Honest.antt =====
-- The ceremony when nobody interferes.
use clipse.Prelude.{ℕ, ◌+◌, ◌≤◌, ◌≡◌, refl, ap, ◌∙◌, false, List, ltb, arith}
use clipse.Prelude.Bytes.{Bytes, bytes_eq, bytes_eq_refl}
use clipse.Prelude.Words.{u64_max}
use clipse.Crypto.Trust.{Platform, CandidateAddress, PairedDevice}
use clipse.Crypto.Code.{PairingCode, Result, ok, err, mac_a_label, mac_b_label}
use clipse.Crypto.Ceremony.{
  PairingInitiator, PairingResponder, PairingAwaitingProof, from_offer, verify_proof, mac,
  commitment_of, create_initiator, accept_pairing, verify_confirm, accepted_peer, offered_peer,
  initiator_transcript, responder_transcript,
}
use clipse.Crypto.Wire.{Identity, PairingOffer, PairingAccept, PairingConfirm, PairingFinish}

-- The messages of the two sides, passed on as they are: what each side keeps of the other.
unfoldable pub exchange :
    (Bytes → Bytes)
    → PairingInitiator
    → PairingCode
    → Identity
    → Bytes
    → Platform
    → List CandidateAddress
    → Bytes
    → ℕ
    → ℕ
    → ℕ
    → Result (PairedDevice × PairedDevice)
unfolding from_offer accept_pairing verify_confirm verify_proof
exchange digest i code identity label platform addresses nonce t1 t2 t3 =
    elim (from_offer i.offer code identity label platform addresses nonce t1) [
      | err e ↦ err e
      | ok (responder, accept) ↦ elim (accept_pairing digest i accept t2) [
        | err e ↦ err e
        | ok (confirm, awaiting) ↦ elim (verify_confirm digest responder confirm t3) [
          | err e ↦ err e
          | ok (finish, initiator_peer) ↦ elim (verify_proof awaiting finish) [
            | err e ↦ err e
            | ok responder_peer ↦ ok (responder_peer, initiator_peer)
          ]
        ]
      ]
    ]

pub from_offer_ok :
    (offer : PairingOffer) (code : PairingCode) (identity : Identity) (label : Bytes)
    (platform : Platform) (addresses : List CandidateAddress) (nonce : Bytes) (now : ℕ)
    (accept : PairingAccept)
    → offer.version ≡ 2
    → ltb offer.expires_at_ms now ≡ false
    → accept ≡ record {
      device_id = identity.device_id;
      static_public = identity.public_key;
      label = label;
      platform = platform;
      addresses = addresses;
      nonce = nonce;
    }
    → from_offer offer code identity label platform addresses nonce now
      ≡ ok (record { offer = offer; nonce_b = nonce; accept = accept; code = code }, accept)
unfolding from_offer
from_offer_ok offer code identity label platform addresses nonce now accept v e a =
    rw (v, e, a, from_offer) refl

pub accept_pairing_ok :
    (digest : Bytes → Bytes) (i : PairingInitiator) (accept : PairingAccept) (now : ℕ)
    → ltb i.offer.expires_at_ms now ≡ false
    → accept_pairing digest i accept now
      ≡ ok (
        record {
          nonce_a = i.nonce_a;
          mac = mac digest mac_a_label (initiator_transcript i accept);
        },
        record {
          expected = mac digest mac_b_label (initiator_transcript i accept);
          peer = accepted_peer accept now;
        },
      )
unfolding accept_pairing
accept_pairing_ok digest i accept now e = rw (e, accept_pairing) refl

pub verify_confirm_ok :
    (digest : Bytes → Bytes) (r : PairingResponder) (confirm : PairingConfirm) (now : ℕ)
    → ltb r.offer.expires_at_ms now ≡ false
    → commitment_of digest confirm.nonce_a ≡ r.offer.commitment
    → confirm.mac ≡ mac digest mac_a_label (responder_transcript r confirm)
    → verify_confirm digest r confirm now
      ≡ ok (
        record { mac = mac digest mac_b_label (responder_transcript r confirm) },
        offered_peer r.offer now,
      )
unfolding verify_confirm
verify_confirm_ok digest r confirm now e c m =
    let same = ap (λ x. bytes_eq x r.offer.commitment) c ∙ bytes_eq_refl r.offer.commitment in
    let expected = mac digest mac_a_label (responder_transcript r confirm) in
    let agree = ap (λ x. bytes_eq x expected) m ∙ bytes_eq_refl expected in
    rw (e, same, agree, verify_confirm) refl

pub verify_proof_ok :
    (w : PairingAwaitingProof) (finish : PairingFinish)
    → finish.mac ≡ w.expected
    → verify_proof w finish ≡ ok w.peer
unfolding verify_proof
verify_proof_ok w finish m =
    let agree = ap (λ x. bytes_eq x w.expected) m ∙ bytes_eq_refl w.expected in
    rw (agree, verify_proof) refl

exchange_ok :
    (digest : Bytes → Bytes) (i : PairingInitiator) (code : PairingCode) (identity : Identity)
    (label : Bytes) (platform : Platform) (addresses : List CandidateAddress) (nonce : Bytes)
    (t1 t2 t3 : ℕ) (r : PairingResponder) (accept : PairingAccept) (confirm : PairingConfirm)
    (w : PairingAwaitingProof) (finish : PairingFinish) (a b : PairedDevice)
    → from_offer i.offer code identity label platform addresses nonce t1 ≡ ok (r, accept)
    → accept_pairing digest i accept t2 ≡ ok (confirm, w)
    → verify_confirm digest r confirm t3 ≡ ok (finish, b)
    → verify_proof w finish ≡ ok a
    → exchange digest i code identity label platform addresses nonce t1 t2 t3 ≡ ok (a, b)
unfolding exchange
exchange_ok digest i code identity label platform addresses nonce t1 t2 t3 r accept confirm w finish
      a b e1 e2 e3 e4 =
    rw (e1, e2, e3, e4, exchange) refl

-- When the second device is given the digits that the first one shows, and no step happens more than
-- three minutes after the offer was made, the two devices end with each other's identity, key and
-- addresses.
pub exchange-create_initiator :
    (digest : Bytes → Bytes) (first second : Identity) (label label' : Bytes)
    (platform platform' : Platform) (addresses addresses' : List CandidateAddress)
    (nonce nonce' : Bytes) (code : PairingCode) (now t1 t2 t3 : ℕ)
    → now + 180000 ≤ u64_max
    → t1 ≤ now + 180000
    → t2 ≤ now + 180000
    → t3 ≤ now + 180000
    → exchange digest
        (create_initiator digest first label platform addresses nonce code now)
        code
        second
        label'
        platform'
        addresses'
        nonce'
        t1
        t2
        t3
      ≡ ok (
        record {
          device_id = second.device_id;
          static_public = second.public_key;
          label = label';
          platform = platform';
          addresses = addresses';
          paired_at_ms = t2;
        },
        record {
          device_id = first.device_id;
          static_public = first.public_key;
          label = label;
          platform = platform;
          addresses = addresses;
          paired_at_ms = t3;
        },
      )
unfolding create_initiator accepted_peer offered_peer responder_transcript initiator_transcript
exchange-create_initiator digest first second label label' platform platform' addresses addresses'
      nonce nonce' code now t1 t2 t3 h h1 h2 h3 =
    let i = create_initiator digest first label platform addresses nonce code now in
    let accept : PairingAccept = record {
      device_id = second.device_id;
      static_public = second.public_key;
      label = label';
      platform = platform';
      addresses = addresses';
      nonce = nonce';
    } in
    exchange_ok digest i code second label' platform' addresses' nonce' t1 t2 t3 _ accept _ _ _ _ _
      (from_offer_ok i.offer code second label' platform' addresses' nonce' t1 accept refl
        (ground arith) refl)
      (accept_pairing_ok digest i accept t2 (ground arith))
      (verify_confirm_ok digest _ _ t3 (ground arith) refl refl) (verify_proof_ok _ _ refl)
