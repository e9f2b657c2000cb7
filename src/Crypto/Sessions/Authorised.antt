-- ===== src/Crypto/Sessions/Authorised.antt =====
-- A session is authorised when its handshake ends, and never again once a device has been removed.
use clipse.Prelude.{
  ℕ, ◌+◌, ◌<◌, ◌^◌, ◌≡◌, ap, sym, ◌∙◌, List, [], ◌∷◌, none, some, ◌==◌, length, arith, Option-cases,
  inl, inr, find_first,
}
use clipse.Prelude.Bytes.{Bytes}
use clipse.Core.Id.{DeviceId}
use clipse.Crypto.Trust.{
  Trust, PairedDevice, peer, peer_in, is_paired, peer_by_static_key, authorize_static_key,
  remove_peer, authorize_session, not_trusted,
}
use clipse.Crypto.Trust as Trust
use clipse.Crypto.Trust.Revocation.{Change, change_all, authorize_session-removed}
use clipse.Crypto.Sessions.{
  Handshakes, Handshake, Session, ok, start, finish_handshake, accept_handshake, respond,
}

-- What `authorize_session` reads of a session.
unfoldable pub claimed : {Transport : Type 0} → Session Transport → Trust.Session
claimed s = record { epoch = s.epoch; remote_device_id = s.remote_device_id }

found-paired :
    (key : ℕ) (p : PairedDevice) (ps : List PairedDevice)
    → find_first (λ q. q.static_public == key) ps ≡ some p
    → ¬ (peer_in p.device_id ps ≡ none)
unfolding peer_in
found-paired key p [] e = ground arith
found-paired key p (q ∷ qs) e = ground (arith, found-paired key p qs)

-- A paired device in the epoch of the trust set is authorised.
authorize_session-paired :
    (id : DeviceId) (trust : Trust)
    → ¬ (peer_in id trust.peers ≡ none)
    → authorize_session (record { epoch = trust.epoch; remote_device_id = id }) trust ≡ Trust.ok tt
unfolding authorize_session is_paired
authorize_session-paired id trust h = ground arith

module _ {State Transport : Type 0} (handshakes : Handshakes State Transport) where
  -- The sessions that a device can come to have, as the side that calls and as the side that is called.
  pub data IsEstablished (secret : ℕ) (trust : Trust) (s : Session Transport) : Type 0 where
    called :
        (id : DeviceId) (h : Handshake State) (message response : Bytes)
        → start handshakes secret trust id ≡ ok (h, message)
        → finish_handshake handshakes h response ≡ ok s
        → IsEstablished secret trust s
    answered :
        (h : Handshake State) (message response : Bytes)
        → accept_handshake handshakes secret trust message ≡ ok h
        → respond handshakes h ≡ ok (s, response)
        → IsEstablished secret trust s

  start-claims :
      (secret : ℕ) (trust : Trust) (id : DeviceId) (h : Handshake State) (message : Bytes)
      → start handshakes secret trust id ≡ ok (h, message)
      → (h.epoch ≡ trust.epoch) × (h.remote_device_id ≡ id) × ¬ (peer_in id trust.peers ≡ none)
  unfolding start peer
  start-claims secret trust id h message e = ground arith

  accept-claims :
      (secret : ℕ) (trust : Trust) (message : Bytes) (h : Handshake State)
      → accept_handshake handshakes secret trust message ≡ ok h
      → (h.epoch ≡ trust.epoch) × ¬ (peer_in h.remote_device_id trust.peers ≡ none)
  unfolding accept_handshake authorize_static_key peer_by_static_key
  accept-claims secret trust message h e = elim (Option-cases (handshakes.receive secret message)) [
    | inl r ↦ ground arith
    | inr ((state, none), r) ↦ ground arith
    | inr ((state, some key), r) ↦
        elim (Option-cases (find_first (λ q. q.static_public == key) trust.peers)) [
          | inl f ↦ ground arith
          | inr (p, f) ↦ ground (arith, found-paired key p trust.peers f)
        ]
  ]

  finish-claims :
      (h : Handshake State) (response : Bytes) (s : Session Transport)
      → finish_handshake handshakes h response ≡ ok s
      → (s.epoch ≡ h.epoch) × (s.remote_device_id ≡ h.remote_device_id)
  unfolding finish_handshake
  finish-claims h response s e = ground arith

  respond-claims :
      (h : Handshake State) (response : Bytes) (s : Session Transport)
      → respond handshakes h ≡ ok (s, response)
      → (s.epoch ≡ h.epoch) × (s.remote_device_id ≡ h.remote_device_id)
  unfolding respond
  respond-claims h response s e = ground arith

  established-claims :
      (secret : ℕ) (trust : Trust) (s : Session Transport)
      → IsEstablished secret trust s
      → (s.epoch ≡ trust.epoch) × ¬ (peer_in s.remote_device_id trust.peers ≡ none)
  established-claims secret trust s (called id h message response e f) =
      let started = start-claims secret trust id h message e in
      let finished = finish-claims h response s f in
      (
        finished.0 ∙ started.0,
        λ absent. started.2 (
            ap (λ i. peer_in i trust.peers) (sym started.1)
            ∙ ap (λ i. peer_in i trust.peers) (sym finished.1)
            ∙ absent),
      )
  established-claims secret trust s (answered h message response e f) =
      let accepted = accept-claims secret trust message h e in
      let finished = respond-claims h response s f in
      (
        finished.0 ∙ accepted.0,
        λ absent. accepted.1 (ap (λ i. peer_in i trust.peers) (sym finished.1) ∙ absent),
      )

  -- A session that a handshake ends with, on the side that calls or on the side that is called, is with a paired
  -- device and is authorised by the trust set that it was made under. Once any device has been removed from
  -- that trust set the session is never authorised again, whatever devices are paired and removed later, as long as
  -- the epoch does not reach the end of its 64 bits.
  pub authorize_session-established :
      (secret : ℕ) (trust trust' : Trust) (s : Session Transport) (id : DeviceId) (p : PairedDevice)
      (later : List Change)
      → IsEstablished secret trust s
      → remove_peer id trust ≡ (trust', Trust.ok p)
      → trust.epoch + 1 + length later < 2 ^ 64
      → (authorize_session (claimed s) trust ≡ Trust.ok tt)
        × (authorize_session (claimed s) (change_all later trust') ≡ not_trusted)
  unfolding claimed
  authorize_session-established secret trust trust' s id p later established e h =
      let claims = established-claims secret trust s established in
      (
        ap
              (λ n.
                authorize_session (record { epoch = n; remote_device_id = s.remote_device_id })
                  trust)
              claims.0
            ∙ authorize_session-paired s.remote_device_id trust claims.1,
        authorize_session-removed id trust trust' p later (claimed s) e (omega (arith, claims.0)) h,
      )
