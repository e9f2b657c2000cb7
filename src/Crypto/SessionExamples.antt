-- ===== src/Crypto/SessionExamples.antt =====
-- Sessions of two devices, with a library that encrypts nothing, and the theorems at concrete inputs.
use clipse.Prelude.{ℕ, suc, ◌+◌, ◌≤◌, ◌≡◌, refl, true, false, [], ◌∷◌, Option, some, none, arith}
use clipse.Prelude.Bytes.{Bytes}
use clipse.Crypto.Trust.{
  Trust, PairedDevice, linux, authorize_session, not_trusted, remove_peer, drop_peer, peer_in,
  is_paired, authorize_static_key, peer_by_static_key,
}
use clipse.Crypto.Trust as Trust
use clipse.Crypto.Trust.Revocation.{pair, change_all}
use clipse.Crypto.Sessions.{
  Noise, Session, Handshakes, ok, rekey, needs_rekey, new_session, accept_handshake, respond,
}
use clipse.Crypto.Sessions.Limits.{sent, received, use_all, passed, passed-needs_rekey}
use clipse.Crypto.Sessions.Authorised.{claimed, answered, authorize_session-established}

abbrev plain : Noise ℕ
plain = record {
  encrypt = λ t bytes. some (suc t, bytes);
  decrypt = λ t bytes. some (suc t, bytes);
  rekey_outgoing = λ t. t;
  rekey_incoming = λ t. t;
}

abbrev nearly_used : Session ℕ
nearly_used = record (new_session 5 7 0 1) { messages_since_rekey = 9999 }

passed-needs_rekey_example :
    (passed plain (sent (1 ∷ []) ∷ received (2 ∷ []) ∷ []) nearly_used + 9999 ≤ 10000)
    × (needs_rekey (use_all plain (sent (1 ∷ []) ∷ received (2 ∷ []) ∷ []) nearly_used) ≡ true
        → passed plain
            (sent [] ∷ [])
            (use_all plain (sent (1 ∷ []) ∷ received (2 ∷ []) ∷ []) nearly_used)
          ≡ 0)
    × (needs_rekey
          (rekey plain (use_all plain (sent (1 ∷ []) ∷ received (2 ∷ []) ∷ []) nearly_used))
        ≡ false)
passed-needs_rekey_example =
    passed-needs_rekey plain (sent (1 ∷ []) ∷ received (2 ∷ []) ∷ []) (sent [] ∷ []) nearly_used
      (omega arith)

-- A first message of the sender's static key alone.
abbrev sender : Bytes → Option ℕ
sender [] = none
sender (key ∷ bytes) = some key

abbrev handshakes : Handshakes ℕ ℕ
handshakes = record {
  hello = λ secret key. some (secret, secret ∷ []);
  receive = λ secret message. some (secret, sender message);
  reply = λ state. some (state, []);
  close = λ state response. some state;
}

abbrev phone : PairedDevice
phone = record {
  device_id = 5;
  static_public = 7;
  label = [];
  platform = linux;
  addresses = [];
  paired_at_ms = 0;
}

abbrev trusted : Trust
trusted = record { local_device_id = 1; epoch = 3; peers = phone ∷ [] }

abbrev without : Trust
without = record { local_device_id = 1; epoch = 4; peers = [] }

abbrev with_phone : Session ℕ
with_phone = new_session 5 7 3 9

removed : remove_peer 5 trusted ≡ (without, Trust.ok phone)
unfolding remove_peer peer_in drop_peer
removed = refl

accepted :
    accept_handshake handshakes 9 trusted (7 ∷ [])
    ≡ ok (record { state = 9; remote_device_id = 5; remote_static = 7; epoch = 3 })
unfolding accept_handshake authorize_static_key peer_by_static_key
accepted = refl

responded :
    respond handshakes (record { state = 9; remote_device_id = 5; remote_static = 7; epoch = 3 })
    ≡ ok (with_phone, [])
unfolding respond
responded = refl

authorize_session-established_example :
    (authorize_session (claimed with_phone) trusted ≡ Trust.ok tt)
    × (authorize_session (claimed with_phone) (change_all (pair phone ∷ []) without) ≡ not_trusted)
authorize_session-established_example =
    authorize_session-established handshakes 9 trusted without with_phone 5 phone (pair phone ∷ [])
      (answered _ (7 ∷ []) [] accepted responded) removed (omega arith)
