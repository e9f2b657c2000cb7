-- ===== src/Crypto/Sessions.antt =====
-- crates/clipse-crypto/src/session.rs: sessions between paired devices. The Noise library is a parameter: the
-- state of a transport with its calls, and what a handshake's first message tells about its sender.
pub mod Limits
pub mod Authorised
use clipse.Prelude.{
  ℕ, ◌+◌, ◌*◌, Bool, true, false, ◌||◌, List, [], ◌∷◌, Option, none, some, leb, if◌then◌else◌,
  length,
}
use clipse.Prelude.Bytes.{Bytes}
use clipse.Core.Id.{DeviceId}
use clipse.Crypto.Trust.{Trust, PairedDevice, peer, authorize_static_key}
use clipse.Crypto.Trust as Trust

abbrev pub rekey_after_messages : ℕ
rekey_after_messages = 10000

abbrev pub rekey_after_bytes : ℕ
rekey_after_bytes = 64 * 1024 * 1024

-- The failures of crates/clipse-crypto/src/error.rs that a session has.
pub data SessionError : Type 0 where
  handshake_failed decrypt_failed not_trusted rekey_required : SessionError

pub data Result {ℓ} (A : Type ℓ) : Type ℓ where
  ok : A → Result A
  err : SessionError → Result A

-- The calls of the library in a handshake: `hello` is the initiator's first message to a static key,
-- `receive` reads it and tells its sender's key, `reply` answers it and `close` reads the answer. The
-- first argument of `hello` and `receive` is the own secret key.
pub record Handshakes (State Transport : Type 0) : Type 0 where
  pub hello : ℕ → ℕ → Option (State × Bytes)
  pub receive : ℕ → Bytes → Option (State × Option ℕ)
  pub reply : State → Option (Transport × Bytes)
  pub close : State → Bytes → Option Transport

-- `HandshakeInitiator` and `HandshakeResponder` have the same fields.
pub record Handshake (State : Type 0) : Type 0 where
  pub state : State
  pub remote_device_id : DeviceId
  pub remote_static : ℕ
  pub epoch : ℕ

module _ (Transport : Type 0) where
  -- The calls of the library on an established transport.
  pub record Noise : Type 0 where
    pub encrypt : Transport → Bytes → Option (Transport × Bytes)
    pub decrypt : Transport → Bytes → Option (Transport × Bytes)
    pub rekey_outgoing : Transport → Transport
    pub rekey_incoming : Transport → Transport

  pub record Session : Type 0 where
    pub remote_device_id : DeviceId
    pub remote_static : ℕ
    pub epoch : ℕ
    pub transport : Transport
    pub messages_since_rekey : ℕ
    pub bytes_since_rekey : ℕ

module _ {Transport : Type 0} where
  -- `Session::new`.
  abbrev pub new_session : DeviceId → ℕ → ℕ → Transport → Session Transport
  new_session remote_device_id remote_static epoch transport = record {
    remote_device_id = remote_device_id;
    remote_static = remote_static;
    epoch = epoch;
    transport = transport;
    messages_since_rekey = 0;
    bytes_since_rekey = 0;
  }

  -- `needs_rekey`.
  unfoldable pub needs_rekey : Session Transport → Bool
  needs_rekey s =
      leb rekey_after_messages s.messages_since_rekey || leb rekey_after_bytes s.bytes_since_rekey

  -- The session after a message of so many encrypted bytes.
  unfoldable pub used : Session Transport → Transport → ℕ → Session Transport
  used s transport n = record s {
    transport = transport;
    messages_since_rekey = s.messages_since_rekey + 1;
    bytes_since_rekey = s.bytes_since_rekey + n;
  }

  module _ {State : Type 0} (handshakes : Handshakes State Transport) where
    -- `HandshakeInitiator::start`.
    unfoldable pub start : ℕ → Trust → DeviceId → Result (Handshake State × Bytes)
    unfolding peer
    start secret trust remote_device_id = elim (peer remote_device_id trust) [
      | none ↦ err not_trusted
      | some p ↦ elim (handshakes.hello secret p.static_public) [
        | none ↦ err handshake_failed
        | some (state, message) ↦ ok (
          record {
            state = state;
            remote_device_id = remote_device_id;
            remote_static = p.static_public;
            epoch = trust.epoch;
          },
          message,
        )
      ]
    ]

    -- `HandshakeInitiator::finish`.
    unfoldable pub finish_handshake : Handshake State → Bytes → Result (Session Transport)
    finish_handshake h response = elim (handshakes.close h.state response) [
      | none ↦ err handshake_failed
      | some transport ↦ ok (new_session h.remote_device_id h.remote_static h.epoch transport)
    ]

    -- `HandshakeResponder::accept`.
    unfoldable pub accept_handshake : ℕ → Trust → Bytes → Result (Handshake State)
    unfolding authorize_static_key
    accept_handshake secret trust message = elim (handshakes.receive secret message) [
      | none ↦ err handshake_failed
      | some (state, none) ↦ err handshake_failed
      | some (state, some remote_static) ↦ elim (authorize_static_key remote_static trust) [
        | Trust.not_trusted ↦ err not_trusted
        | Trust.ok p ↦ ok (record {
          state = state;
          remote_device_id = p.device_id;
          remote_static = remote_static;
          epoch = trust.epoch;
        })
      ]
    ]

    -- `HandshakeResponder::respond`.
    unfoldable pub respond : Handshake State → Result (Session Transport × Bytes)
    respond h = elim (handshakes.reply h.state) [
      | none ↦ err handshake_failed
      | some (transport, message) ↦
          ok (new_session h.remote_device_id h.remote_static h.epoch transport, message)
    ]

  module _ (noise : Noise Transport) where
    -- `rekey`.
    unfoldable pub rekey : Session Transport → Session Transport
    rekey s = record s {
      transport = noise.rekey_incoming (noise.rekey_outgoing s.transport);
      messages_since_rekey = 0;
      bytes_since_rekey = 0;
    }

    -- `write_message`.
    unfoldable pub write_message : Session Transport → Bytes → Session Transport × Result Bytes
    unfolding needs_rekey used
    write_message s plaintext =
        if needs_rekey s
        then (s, err rekey_required)
        else elim (noise.encrypt s.transport plaintext) [
          | none ↦ (s, err handshake_failed)
          | some (transport, out) ↦ (used s transport (length out), ok out)
        ]

    -- `read_message`.
    unfoldable pub read_message : Session Transport → Bytes → Session Transport × Result Bytes
    unfolding needs_rekey used
    read_message s ciphertext =
        if needs_rekey s
        then (s, err rekey_required)
        else elim (noise.decrypt s.transport ciphertext) [
          | none ↦ (s, err decrypt_failed)
          | some (transport, plaintext) ↦ (used s transport (length ciphertext), ok plaintext)
        ]
