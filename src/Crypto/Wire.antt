-- ===== src/Crypto/Wire.antt =====
-- crates/clipse-crypto/src/pairing.rs: the messages of the ceremony and what both sides hash. A device id
-- and a public key are numbers, hashed as their 16 and 32 bytes.
use mathlib.Core.List.{reverse}
use clipse.Prelude.{ℕ, List, [], ◌∷◌}
use clipse.Prelude.Bytes.{Bytes}
use clipse.Prelude.Words.{le_bytes}
use clipse.Core.Id.{DeviceId}
use clipse.Crypto.Trust.{Platform, CandidateAddress}
use clipse.Crypto.Code.{PairingCode}

abbrev pub pairing_protocol_version : ℕ
pairing_protocol_version = 2

abbrev pub pairing_offer_ttl_secs : ℕ
pairing_offer_ttl_secs = 180

-- `as_bytes` of a UUID and of a public key.
unfoldable pub device_bytes : DeviceId → Bytes
device_bytes id = reverse (le_bytes 16 id)

unfoldable pub key_bytes : ℕ → Bytes
key_bytes key = le_bytes 32 key

-- What the ceremony uses of a `DeviceIdentity`.
pub record Identity : Type 0 where
  pub device_id : DeviceId
  pub public_key : ℕ

pub record PairingOffer : Type 0 where
  pub version : ℕ
  pub device_id : DeviceId
  pub static_public : ℕ
  pub label : Bytes
  pub platform : Platform
  pub addresses : List CandidateAddress
  pub commitment : Bytes
  pub expires_at_ms : ℕ

pub record PairingAccept : Type 0 where
  pub device_id : DeviceId
  pub static_public : ℕ
  pub label : Bytes
  pub platform : Platform
  pub addresses : List CandidateAddress
  pub nonce : Bytes

pub record PairingConfirm : Type 0 where
  pub nonce_a : Bytes
  pub mac : Bytes

pub record PairingFinish : Type 0 where
  pub mac : Bytes

pub data PairingWire : Type 0 where
  lookup_wire : Bytes → PairingWire
  offer_wire : PairingOffer → PairingWire
  accept_wire : PairingAccept → PairingWire
  confirm_wire : PairingConfirm → PairingWire
  finish_wire : PairingFinish → PairingWire
  done_wire refused_wire : PairingWire

pub record Transcript : Type 0 where
  pub version : ℕ
  pub initiator : DeviceId
  pub initiator_key : ℕ
  pub responder : DeviceId
  pub responder_key : ℕ
  pub nonce_a : Bytes
  pub nonce_b : Bytes
  pub code : PairingCode

-- The parts that `mac` hashes.
unfoldable pub parts : Bytes → Transcript → List Bytes
unfolding device_bytes key_bytes
parts label t =
    label
    ∷ le_bytes 2 t.version
    ∷ device_bytes t.initiator
    ∷ key_bytes t.initiator_key
    ∷ device_bytes t.responder
    ∷ key_bytes t.responder_key
    ∷ t.nonce_a
    ∷ t.nonce_b
    ∷ t.code.digits
    ∷ []
