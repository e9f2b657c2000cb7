-- ===== src/Crypto/Ceremony.antt =====
-- crates/clipse-crypto/src/pairing.rs: the two sides of the ceremony. A nonce that a side draws and the
-- time are arguments.
pub mod Honest
pub mod Transcripts
pub mod Agreement
use mathlib.Core.List.{reverse}
use clipse.Prelude.{ℕ, ◌*◌, Bool, true, false, not, List, [], ◌∷◌, leb, ltb, ◌==◌, if◌then◌else◌}
use clipse.Prelude.Bytes.{Bytes, bytes_eq}
use clipse.Prelude.Words.{u64_max, le_bytes, saturating_add}
use clipse.Core.Id.{DeviceId}
use clipse.Crypto.Trust.{Platform, CandidateAddress, PairedDevice}
use clipse.Crypto.Wire.{
  pairing_protocol_version, pairing_offer_ttl_secs, Identity, PairingOffer, PairingAccept,
  PairingConfirm, PairingFinish, Transcript, parts,
}
use clipse.Crypto.Code.{
  PairingCode, Result, ok, err, pairing_failed, pairing_expired, malformed_payload, transcript_hash,
  matches_tag, commit_label, mac_a_label, mac_b_label,
}

pub record PairingInitiator : Type 0 where
  pub offer : PairingOffer
  pub nonce_a : Bytes
  pub code : PairingCode

pub record PairingAwaitingProof : Type 0 where
  pub expected : Bytes
  pub peer : PairedDevice

pub record PairingResponder : Type 0 where
  pub offer : PairingOffer
  pub nonce_b : Bytes
  pub accept : PairingAccept
  pub code : PairingCode

-- The transcripts of the two sides.
unfoldable pub initiator_transcript : PairingInitiator → PairingAccept → Transcript
initiator_transcript i accept = record {
  version = i.offer.version;
  initiator = i.offer.device_id;
  initiator_key = i.offer.static_public;
  responder = accept.device_id;
  responder_key = accept.static_public;
  nonce_a = i.nonce_a;
  nonce_b = accept.nonce;
  code = i.code;
}

unfoldable pub responder_transcript : PairingResponder → PairingConfirm → Transcript
responder_transcript r confirm = record {
  version = r.offer.version;
  initiator = r.offer.device_id;
  initiator_key = r.offer.static_public;
  responder = r.accept.device_id;
  responder_key = r.accept.static_public;
  nonce_a = confirm.nonce_a;
  nonce_b = r.nonce_b;
  code = r.code;
}

-- The records that the two sides keep of each other.
unfoldable pub accepted_peer : PairingAccept → ℕ → PairedDevice
accepted_peer accept now_ms = record {
  device_id = accept.device_id;
  static_public = accept.static_public;
  label = accept.label;
  platform = accept.platform;
  addresses = accept.addresses;
  paired_at_ms = now_ms;
}

unfoldable pub offered_peer : PairingOffer → ℕ → PairedDevice
offered_peer offer now_ms = record {
  device_id = offer.device_id;
  static_public = offer.static_public;
  label = offer.label;
  platform = offer.platform;
  addresses = offer.addresses;
  paired_at_ms = now_ms;
}

-- `PairingResponder::from_offer`.
unfoldable pub from_offer :
    PairingOffer
    → PairingCode
    → Identity
    → Bytes
    → Platform
    → List CandidateAddress
    → Bytes
    → ℕ
    → Result (PairingResponder × PairingAccept)
from_offer offer code identity label platform addresses nonce now_ms =
    if not (offer.version == pairing_protocol_version)
    then err malformed_payload
    else if ltb offer.expires_at_ms now_ms
    then err pairing_expired
    else (let accept : PairingAccept = record {
      device_id = identity.device_id;
      static_public = identity.public_key;
      label = label;
      platform = platform;
      addresses = addresses;
      nonce = nonce;
    } in
        ok (record { offer = offer; nonce_b = accept.nonce; accept = accept; code = code }, accept))

-- `PairingAwaitingProof::verify`.
unfoldable pub verify_proof : PairingAwaitingProof → PairingFinish → Result PairedDevice
verify_proof w finish =
    if not (bytes_eq finish.mac w.expected) then err pairing_failed else ok w.peer

module _ (digest : Bytes → Bytes) where
  -- `Transcript::mac`.
  unfoldable pub mac : Bytes → Transcript → Bytes
  unfolding parts transcript_hash
  mac label t = transcript_hash digest (parts label t)

  unfoldable pub commitment_of : Bytes → Bytes
  unfolding transcript_hash
  commitment_of nonce = transcript_hash digest (commit_label ∷ nonce ∷ [])

  -- `PairingInitiator::create`.
  unfoldable pub create_initiator :
      Identity
      → Bytes
      → Platform
      → List CandidateAddress
      → Bytes
      → PairingCode
      → ℕ
      → PairingInitiator
  unfolding commitment_of
  create_initiator identity label platform addresses nonce code now_ms = record {
    offer = record {
      version = pairing_protocol_version;
      device_id = identity.device_id;
      static_public = identity.public_key;
      label = label;
      platform = platform;
      addresses = addresses;
      commitment = commitment_of nonce;
      expires_at_ms = saturating_add u64_max now_ms (pairing_offer_ttl_secs * 1000);
    };
    nonce_a = nonce;
    code = code;
  }

  -- `PairingInitiator::answers`.
  unfoldable pub answers : PairingInitiator → Bytes → Bool
  unfolding matches_tag
  answers i tag = matches_tag digest i.code tag

  -- `PairingInitiator::accept`.
  unfoldable pub accept_pairing :
      PairingInitiator → PairingAccept → ℕ → Result (PairingConfirm × PairingAwaitingProof)
  unfolding mac initiator_transcript accepted_peer
  accept_pairing i accept now_ms =
      if ltb i.offer.expires_at_ms now_ms
      then err pairing_expired
      else ok (
        record { nonce_a = i.nonce_a; mac = mac mac_a_label (initiator_transcript i accept) },
        record {
          expected = mac mac_b_label (initiator_transcript i accept);
          peer = accepted_peer accept now_ms;
        },
      )

  -- `PairingResponder::verify`.
  unfoldable pub verify_confirm :
      PairingResponder → PairingConfirm → ℕ → Result (PairingFinish × PairedDevice)
  unfolding mac commitment_of responder_transcript offered_peer
  verify_confirm r confirm now_ms =
      if ltb r.offer.expires_at_ms now_ms
      then err pairing_expired
      else if not (bytes_eq (commitment_of confirm.nonce_a) r.offer.commitment)
      then err pairing_failed
      else if not (bytes_eq confirm.mac (mac mac_a_label (responder_transcript r confirm)))
      then err pairing_failed
      else ok (
        record { mac = mac mac_b_label (responder_transcript r confirm) },
        offered_peer r.offer now_ms,
      )
