-- ===== src/Crypto/PairingExamples.antt =====
-- Runs of the ceremony, with a digest that keeps its input, and its theorems at concrete inputs.
use clipse.Prelude.{
  ℕ, ◌+◌, ◌%◌, ◌<◌, ◌≡◌, ◌⊎◌, refl, Bool, false, [], ◌∷◌, some, none, map, take, replicate, arith,
  leb, ◌==◌, if◌then◌else◌, length,
}
use clipse.Prelude.Bytes.{Bytes, ascii, bytes_eq}
use clipse.Prelude.Words.{le_bytes}
use clipse.Crypto.Trust.{linux}
use clipse.Crypto.Code.{PairingCode, ok, parse, display, sample, mac_a_label, mac_b_label}
use clipse.Crypto.Code.Display.{parse-display}
use clipse.Crypto.Code.Reading.{accepted, sample_lem}
use clipse.Crypto.Wire.{Identity, PairingAccept, PairingConfirm, PairingFinish}
use clipse.Crypto.Ceremony.{
  PairingInitiator, PairingResponder, PairingAwaitingProof, create_initiator, accept_pairing,
  verify_confirm, verify_proof, mac, initiator_transcript, responder_transcript, accepted_peer,
  offered_peer,
}
use clipse.Crypto.Ceremony.Transcripts.{IsTranscript, Collision}
use clipse.Crypto.Ceremony.Agreement.{verify_confirm-agrees, verify_proof-agrees}

abbrev code : PairingCode
code = record { digits = 4 ∷ 8 ∷ 2 ∷ 9 ∷ 1 ∷ 3 ∷ [] }

abbrev is_space : ℕ → Bool
is_space c = c == 32

digit_not_space : (d : ℕ) → d < 10 → is_space (d + 48) ≡ false
digit_not_space d h = ground arith

parse-display_example : parse is_space (display code) ≡ ok code
parse-display_example = parse-display is_space code refl digit_not_space (
  refl,
  (omega arith, (omega arith, (omega arith, (omega arith, (omega arith, (omega arith, tt)))))),
)

sample_lem_example : sample (255 ∷ 14 ∷ 8 ∷ 252 ∷ 22 ∷ 9 ∷ 1 ∷ 3 ∷ 7 ∷ []) ≡ (
    if leb 6 (length (accepted (255 ∷ 14 ∷ 8 ∷ 252 ∷ 22 ∷ 9 ∷ 1 ∷ 3 ∷ 7 ∷ [])))
    then some (record {
      digits =
          map
            (λ byte. byte % 10)
            (take 6 (accepted (255 ∷ 14 ∷ 8 ∷ 252 ∷ 22 ∷ 9 ∷ 1 ∷ 3 ∷ 7 ∷ [])));
    })
    else none)
sample_lem_example = sample_lem (255 ∷ 14 ∷ 8 ∷ 252 ∷ 22 ∷ 9 ∷ 1 ∷ 3 ∷ 7 ∷ [])

typed : parse is_space (ascii "482 913") ≡ ok code
unfolding parse
typed = refl

abbrev keep : Bytes → Bytes
keep s = s

abbrev first : Identity
first = record { device_id = 1; public_key = 11 }

abbrev second : Identity
second = record { device_id = 2; public_key = 22 }

abbrev initiator : PairingInitiator
initiator = create_initiator keep first (ascii "desk") linux [] (replicate 32 7) code 0

abbrev accept : PairingAccept
accept = record {
  device_id = 2;
  static_public = 22;
  label = ascii "phone";
  platform = linux;
  addresses = [];
  nonce = replicate 32 9;
}

abbrev confirm : PairingConfirm
confirm = record {
  nonce_a = replicate 32 7;
  mac = mac keep mac_a_label (initiator_transcript initiator accept);
}

abbrev awaiting : PairingAwaitingProof
awaiting = record {
  expected = mac keep mac_b_label (initiator_transcript initiator accept);
  peer = accepted_peer accept 5;
}

abbrev responder : PairingResponder
responder = record {
  offer = initiator.offer;
  nonce_b = replicate 32 9;
  accept = accept;
  code = code;
}

abbrev proof : PairingFinish
proof = record { mac = mac keep mac_b_label (responder_transcript responder confirm) }

initiator-fits : IsTranscript (initiator_transcript initiator accept)
unfolding initiator_transcript create_initiator
initiator-fits = record {
  version_fits = omega arith;
  initiator_fits = omega arith;
  initiator_key_fits = omega arith;
  responder_fits = omega arith;
  responder_key_fits = omega arith;
  nonce_a_fits = refl;
  nonce_b_fits = refl;
  code_fits = refl;
}

responder-fits : IsTranscript (responder_transcript responder confirm)
unfolding responder_transcript create_initiator
responder-fits = record {
  version_fits = omega arith;
  initiator_fits = omega arith;
  initiator_key_fits = omega arith;
  responder_fits = omega arith;
  responder_key_fits = omega arith;
  nonce_a_fits = refl;
  nonce_b_fits = refl;
  code_fits = refl;
}

accepted-ok : accept_pairing keep initiator accept 5 ≡ ok (confirm, awaiting)
unfolding accept_pairing create_initiator
accepted-ok = refl

verified-ok : verify_confirm keep responder confirm 6 ≡ ok (proof, offered_peer initiator.offer 6)
unfolding verify_confirm create_initiator initiator_transcript bytes_eq le_bytes
verified-ok = refl

proved-ok : verify_proof awaiting proof ≡ ok (accepted_peer accept 5)
unfolding verify_proof create_initiator initiator_transcript responder_transcript mac bytes_eq
    le_bytes
proved-ok = refl

verify_confirm-agrees_example :
    (((offered_peer initiator.offer 6).device_id ≡ initiator.offer.device_id)
      × ((offered_peer initiator.offer 6).static_public ≡ initiator.offer.static_public)
      × (accept.device_id ≡ responder.accept.device_id)
      × (accept.static_public ≡ responder.accept.static_public)
      × (initiator.code ≡ responder.code))
    ⊎ Collision keep
verify_confirm-agrees_example =
    verify_confirm-agrees keep initiator accept 5 confirm awaiting responder confirm 6 proof
      (offered_peer initiator.offer 6) initiator-fits responder-fits accepted-ok refl verified-ok

verify_proof-agrees_example :
    (((accepted_peer accept 5).device_id ≡ responder.accept.device_id)
      × ((accepted_peer accept 5).static_public ≡ responder.accept.static_public)
      × (initiator.offer.device_id ≡ responder.offer.device_id)
      × (initiator.offer.static_public ≡ responder.offer.static_public)
      × (initiator.code ≡ responder.code))
    ⊎ Collision keep
verify_proof-agrees_example =
    verify_proof-agrees keep initiator accept 5 confirm awaiting responder confirm 6 proof
      (offered_peer initiator.offer 6) proof (accepted_peer accept 5) initiator-fits responder-fits
      accepted-ok verified-ok refl proved-ok
