-- ===== src/Daemon/Pairing/Meeting.antt =====
-- Two daemons that pair.
use clipse.Prelude.{
  ℕ, ◌+◌, ◌≤◌, ◌≡◌, refl, sym, ap, ◌∙◌, true, false, ◌++◌, some, none, ltb, min, arith, replicate,
  List, [], ◌∷◌, map, All, ◌⊎◌, inl, inr,
}
use clipse.Prelude.Bytes.{Bytes, bytes_eq_refl}
use clipse.Prelude.Words.{u64_max}
use clipse.Crypto.Trust.{PairedDevice, Trust, peer}
use clipse.Crypto.Code.{PairingCode, tag, matches_tag, mac_a_label, mac_b_label}
use clipse.Crypto.Code as Code
use clipse.Crypto.Wire.{PairingOffer, PairingAccept, PairingConfirm, PairingFinish, finish_wire}
use clipse.Crypto.Ceremony.{
  PairingInitiator, PairingResponder, PairingAwaitingProof, from_offer, create_initiator, answers,
  verify_confirm, accepted_peer, offered_peer, mac, initiator_transcript, responder_transcript,
  commitment_of,
}
use clipse.Daemon.Pairing.{
  Outcome, PairingState, idle, offering, proving, done, fails, failed, offer_outcome, refuse,
  begin_answering, lookup, answer_accept, finish, cancel, commit_pairing,
}
use clipse.Daemon.Pairing.Events.{World, commit_outcome}
use clipse.Crypto.Ceremony.Honest.{
  from_offer_ok, accept_pairing_ok, verify_confirm_ok, verify_proof_ok,
}
use clipse.Daemon.Pairing.{begin, expire_if_stale, answer_lookup}
use clipse.Daemon.Pairing.Proofs.{peer-commit_pairing}
use clipse.Daemon.Pairing.Serving.{
  arrived, is_late, ending_of, take_finish, proof_message, serve_proof, close,
}
use clipse.Daemon.Pairing.Together.{
  Device, Target, unreachable, reached, Call, end_with, send_accept, ask, run_pairing_ceremony,
  pair_with_code,
}

peer-committed : (p : PairedDevice) (t : Trust) → peer p.device_id (commit_pairing p t) ≡ some p
peer-committed p t = ground (arith, peer-commit_pairing p.device_id p t)

module _ (digest : Bytes → Bytes) where
  answers-tag : (i : PairingInitiator) → answers digest i (tag digest i.code) ≡ true
  unfolding answers matches_tag
  answers-tag i = bytes_eq_refl (tag digest i.code ++ replicate 16 0)

  lookup-tag :
      (i : PairingInitiator) (x k now : ℕ)
      → ltb x now ≡ false
      → lookup digest (tag digest i.code) now (offering i x k)
        ≡ (offering i x k, offer_outcome i.offer)
  unfolding lookup expire_if_stale answer_lookup
  lookup-tag i x k now e = rw (e, answers-tag i) refl

  accept-valid :
      (i : PairingInitiator) (x k now : ℕ) (accept : PairingAccept)
      → ltb x now ≡ false
      → ltb i.offer.expires_at_ms now ≡ false
      → answer_accept digest accept now now (offering i x k) ≡ (
        proving (record {
          expected = mac digest mac_b_label (initiator_transcript i accept);
          peer = accepted_peer accept now;
        }),
        done (record {
          nonce_a = i.nonce_a;
          mac = mac digest mac_a_label (initiator_transcript i accept);
        }),
      )
  unfolding answer_accept
  accept-valid i x k now accept e o =
      rw (e, accept_pairing_ok digest i accept now o, answer_accept) refl

  finish-proving :
      (f : PairingFinish) (w : PairingAwaitingProof)
      → f.mac ≡ w.expected
      → finish f (proving w) ≡ (idle, done w.peer)
  unfolding finish
  finish-proving f w m = rw (verify_proof_ok w f m, finish) refl

  proof_served :
      (f : PairingFinish) (w : PairingAwaitingProof) (t : Trust) (start at : ℕ)
      → f.mac ≡ w.expected
      → is_late start at ≡ false
      → let r =
          serve_proof start
            (arrived (finish_wire f) at ∷ [])
            (record { state = proving w; trust = t }) in
        close r.1 r.0 ≡ record { state = idle; trust = commit_pairing w.peer t }
  unfolding serve_proof proof_message take_finish commit_outcome ending_of close
  proof_served f w t start at m e = rw (e) (
      ap (λ z. close (ending_of z.1) (record { state = z.0; trust = commit_outcome z.1 t }))
        (finish-proving f w m))

  end_with-verified :
      (c : Call) (r : PairingResponder) (m : PairingConfirm) (a : World) (f : PairingFinish)
      (p : PairedDevice)
      → verify_confirm digest r m c.verified_at ≡ Code.ok (f, p)
      → let served = serve_proof c.asked_at (arrived (finish_wire f) c.proved_at ∷ []) a in
        end_with digest c r m a ≡ (close served.1 served.0, done p)
  unfolding end_with
  end_with-verified c r m a f p e = rw (e, end_with) refl

  send_accept-answered :
      (c : Call) (r : PairingResponder) (accept : PairingAccept) (a : World) (s : PairingState)
      (m : PairingConfirm)
      → is_late c.asked_at c.accepted_at ≡ false
      → answer_accept digest accept c.accepted_at c.accepted_at a.state ≡ (s, done m)
      → send_accept digest c r accept a ≡ end_with digest c r m (record a { state = s })
  unfolding send_accept
  send_accept-answered c r accept a s m early e =
      rw (early, send_accept)
        (ap
          (λ z. elim z.1 [
            | fails x ↦ (record a { state = z.0 }, fails failed)
            | done confirm ↦ end_with digest c r confirm (record a { state = z.0 })
          ])
          e)

  ask-offered :
      (code : PairingCode) (d : Device) (c : Call) (a : World) (s : PairingState) (o : PairingOffer)
      (r : PairingResponder) (accept : PairingAccept) (end : World × Outcome PairedDevice)
      → lookup digest (tag digest code) c.asked_at a.state ≡ (s, offer_outcome o)
      → from_offer o code d.identity d.label d.platform d.addresses c.nonce c.asked_at
        ≡ Code.ok (r, accept)
      → send_accept digest c r accept (record a { state = s }) ≡ end
      → ask digest code d c a ≡ (end.0, some end.1)
  unfolding ask
  ask-offered code d c a s o r accept end e q sent =
      rw (e, q, ask)
        (ap
            (λ z. (
              (send_accept digest c r accept (record a { state = z.0 })).0,
              some (send_accept digest c r accept (record a { state = z.0 })).1,
            ))
            e
          ∙ ap (λ z. (z.0, some z.1)) sent)

  -- A target that does not make an offer, and what the lookup leaves of it.
  abbrev pub PassesOver : PairingCode → Call → Type 0
  PassesOver code c =
      (c.target ≡ unreachable)
      ⊎ ((a : World) × (c.target ≡ reached a)
          × ((lookup digest (tag digest code) c.asked_at a.state).1 ≡ refuse))

  unfoldable pub asked : PairingCode → Call → Target
  unfolding lookup
  asked code c = elim c.target [
    | unreachable ↦ unreachable
    | reached a ↦
        reached (record a { state = (lookup digest (tag digest code) c.asked_at a.state).0 })
  ]

  ask-refused :
      (code : PairingCode) (d : Device) (c : Call) (a : World)
      → (lookup digest (tag digest code) c.asked_at a.state).1 ≡ refuse
      → ask digest code d c a
        ≡ (record a { state = (lookup digest (tag digest code) c.asked_at a.state).0 }, none)
  unfolding ask
  ask-refused code d c a r = rw (r, ask) refl

  loop-asked :
      (code : PairingCode) (d : Device) (c : Call) (cs : List Call)
      → PassesOver code c
      → run_pairing_ceremony digest code d (c ∷ cs) ≡ (
        asked code c ∷ (run_pairing_ceremony digest code d cs).0,
        (run_pairing_ceremony digest code d cs).1,
      )
  unfolding run_pairing_ceremony asked
  loop-asked code d c cs (inl e) = rw (e) refl
  loop-asked code d c cs (inr (a, e, r)) = rw (e) (
      ap
        (λ z. elim z.1 [
          | none ↦ (
            reached z.0 ∷ (run_pairing_ceremony digest code d cs).0,
            (run_pairing_ceremony digest code d cs).1,
          )
          | some outcome ↦ (reached z.0 ∷ map (λ call. call.target) cs, outcome)
        ])
        (ask-refused code d c a r))

  -- The loop comes to the target that answers.
  loop-found :
      (code : PairingCode) (d : Device) (before : List Call) (c : Call) (after : List Call)
      (a a' : World) (p : PairedDevice)
      → All (PassesOver code) before
      → c.target ≡ reached a
      → ask digest code d c a ≡ (a', some (done p))
      → run_pairing_ceremony digest code d (before ++ c ∷ after)
        ≡ (map (asked code) before ++ reached a' ∷ map (λ call. call.target) after, done p)
  unfolding run_pairing_ceremony
  loop-found code d [] c after a a' p h e q = rw (e) (
      ap
        (λ z. elim z.1 [
          | none ↦ (
            reached z.0 ∷ (run_pairing_ceremony digest code d after).0,
            (run_pairing_ceremony digest code d after).1,
          )
          | some outcome ↦ (reached z.0 ∷ map (λ call. call.target) after, outcome)
        ])
        q)
  loop-found code d (b ∷ before) c after a a' p h e q =
      loop-asked code d b (before ++ c ∷ after) h.0
      ∙ ap (λ z. (asked code b ∷ z.0, z.1)) (loop-found code d before c after a a' p h.1 e q)

  pair-done :
      (code : PairingCode) (d : Device) (calls : List Call) (targets : List Target) (t : Trust)
      (p : PairedDevice)
      → run_pairing_ceremony digest code d calls ≡ (targets, done p)
      → pair_with_code digest code d calls (record { state = idle; trust = t })
        ≡ (targets, record { state = idle; trust = commit_pairing p t })
  unfolding pair_with_code begin_answering cancel commit_outcome
  pair-done code d calls targets t p e =
      ap (λ z. (z.0, record { state = idle; trust = commit_outcome z.1 t })) e

  -- What the second device tells.
  abbrev accept_of : Device → Bytes → PairingAccept
  accept_of d nonce = record {
    device_id = d.identity.device_id;
    static_public = d.identity.public_key;
    label = d.label;
    platform = d.platform;
    addresses = d.addresses;
    nonce = nonce;
  }

  pub ask-shown :
      (i : PairingInitiator) (x k : ℕ) (d : Device) (c : Call) (t : Trust)
      → i.offer.version ≡ 2
      → commitment_of digest i.nonce_a ≡ i.offer.commitment
      → x ≡ i.offer.expires_at_ms
      → ltb x c.asked_at ≡ false
      → ltb x c.accepted_at ≡ false
      → ltb x c.verified_at ≡ false
      → is_late c.asked_at c.accepted_at ≡ false
      → is_late c.asked_at c.proved_at ≡ false
      → ask digest i.code d c (record { state = offering i x k; trust = t }) ≡ (
        record {
          state = idle;
          trust = commit_pairing (accepted_peer (accept_of d c.nonce) c.accepted_at) t;
        },
        some (done (offered_peer i.offer c.verified_at)),
      )
  unfolding responder_transcript initiator_transcript
  ask-shown i x k d c t v committed same e1 e2 e3 l1 l2 =
      let accept = accept_of d c.nonce in
      let r : PairingResponder = record {
        offer = i.offer;
        nonce_b = c.nonce;
        accept = accept;
        code = i.code;
      } in
      let fits : (n : ℕ) → ltb x n ≡ false → ltb i.offer.expires_at_ms n ≡ false =
        λ n e. ap (λ y. ltb y n) (sym same) ∙ e in
      let from =
        from_offer_ok i.offer i.code d.identity d.label d.platform d.addresses c.nonce c.asked_at
          accept v (fits c.asked_at e1) refl in
      let verified =
        verify_confirm_ok digest r
          (record {
            nonce_a = i.nonce_a;
            mac = mac digest mac_a_label (initiator_transcript i accept);
          })
          c.verified_at (fits c.verified_at e3) committed refl in
      ask-offered i.code d c _ _ i.offer r accept _ (lookup-tag i x k c.asked_at e1) from (
        send_accept-answered c r accept _ _ _ l1
          (accept-valid i x k c.accepted_at accept e2 (fits c.accepted_at e2))
        ∙ end_with-verified c r _ _ _ _ verified
        ∙ ap (λ w. (w, done (offered_peer i.offer c.verified_at)))
            (proof_served _ _ t c.asked_at c.proved_at refl l2))

  -- A device that starts to show digits, and one on which these digits are typed, pair, if the addresses that are
  -- asked earlier do not make an offer, the offer of three minutes has not run out when the steps are
  -- done, and the other device has the accept and the proof within twenty seconds of the lookup: then
  -- each trusts the other, with the identity, key, label and addresses that the other has, and neither is
  -- busy any more; the earlier devices have seen a lookup only, and the later ones nothing.
  pub pair_with_code-begin :
      (first second : Device) (nonce : Bytes) (code : PairingCode) (now : ℕ) (ta tb : Trust)
      (before : List Call) (c : Call) (later : List Call)
      → now + 180000 ≤ u64_max
      → c.asked_at ≤ now + 180000
      → c.accepted_at ≤ min (now + 180000) (c.asked_at + 20000)
      → c.verified_at ≤ now + 180000
      → c.proved_at ≤ c.asked_at + 20000
      → All (PassesOver code) before
      → c.target
        ≡ reached (record {
          state =
              (begin digest first.identity first.label first.platform first.addresses nonce code now
                idle).0;
          trust = ta;
        })
      → (a : World) × (b : World) × (pair_with_code digest code second
            (before ++ c ∷ later)
            (record { state = idle; trust = tb })
          ≡ (map (asked code) before ++ reached a ∷ map (λ call. call.target) later, b))
        × (a.state ≡ idle)
        × (b.state ≡ idle)
        × (peer second.identity.device_id a.trust
            ≡ some (record {
              device_id = second.identity.device_id;
              static_public = second.identity.public_key;
              label = second.label;
              platform = second.platform;
              addresses = second.addresses;
              paired_at_ms = c.accepted_at;
            }))
        × (peer first.identity.device_id b.trust
            ≡ some (record {
              device_id = first.identity.device_id;
              static_public = first.identity.public_key;
              label = first.label;
              platform = first.platform;
              addresses = first.addresses;
              paired_at_ms = c.verified_at;
            }))
  unfolding begin create_initiator accepted_peer offered_peer is_late
  pair_with_code-begin first second nonce code now ta tb before c later h h1 h2 h3 h4 passed at =
      let i =
        create_initiator digest first.identity first.label first.platform first.addresses nonce code
          now in
      let x = min u64_max (now + 180000) in
      let run =
        ask-shown i x 0 second c ta refl refl refl (ground arith) (ground arith) (ground arith)
          (ground arith) (ground arith) in
      (
        _,
        _,
        pair-done code second (before ++ c ∷ later) _ tb _
            (loop-found code second before c later _ _ _ passed at run),
        refl,
        refl,
        peer-committed _ ta,
        peer-committed _ tb,
      )
