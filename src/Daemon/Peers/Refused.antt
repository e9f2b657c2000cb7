-- ===== src/Daemon/Peers/Refused.antt =====
-- What becomes of a peer that is not to be retried.
use clipse.Prelude.{
  ℕ, ◌≡◌, ◌≢◌, refl, sym, ap, ◌∙◌, Bool, true, false, List, [], ◌∷◌, none, some, ◌==◌, ==_iff,
  if◌then◌else◌, arith, all_of, Option-cases, Bool-cases, inl, inr,
}
use clipse.Prelude.Assoc.{lookup, insert, lookup-insert}
use clipse.Core.Id.{DeviceId}
use clipse.Net.Backoff.{DialError, is_retryable}
use clipse.Daemon.Peers.{
  PeerState, Peers, change_peer, failed_state, DiscoveryEvent, found, lost, incompatible, discover,
  refresh_from_discovery, note_success, note_failure, Dialled, synced, session_failed, no_link,
  note_dialled, sync_one, is_refused,
}
use clipse.Daemon.Peers.Table.{change_peer-cases}
use clipse.Daemon.Peers.Sweeps.{
  PeerEvent, swept, dialled, answered, happen, happen_all, sync_one-cases,
}

-- The table has the device as one that is not to be retried.
unfoldable pub is_out : DeviceId → Peers → Bool
unfolding is_refused
is_out id peers = elim (lookup id peers) [ none ↦ false | some state ↦ is_refused state ]

is_out-insert :
    (id other : DeviceId) (state : PeerState) (peers : Peers)
    → is_out other (insert id state peers)
      ≡ (if id == other then is_refused state else is_out other peers)
unfolding is_out
is_out-insert id other state peers = ground (arith, lookup-insert id other state peers)

out_of_some :
    (id : DeviceId) (state : PeerState) (peers : Peers)
    → lookup id peers ≡ some state
    → is_out id peers ≡ is_refused state
unfolding is_out
out_of_some id state peers e = rw (e, is_out) refl

-- A change that keeps the refusal, or of another peer.
is_out-change_peer :
    (id other : DeviceId) (change : PeerState → PeerState) (peers : Peers)
    → ((state : PeerState) → id ≡ other → is_refused (change state) ≡ is_refused state)
    → is_out other (change_peer id change peers) ≡ is_out other peers
is_out-change_peer id other change peers h = elim (change_peer-cases id change peers) [
  | inl (e, same) ↦ ap (is_out other) same
  | inr (state, e, same) ↦
      ap (is_out other) same
      ∙ is_out-insert id other (change state) peers
      ∙ elim (Bool-cases (id == other)) [
        | inl q ↦
            let equal = (==_iff id other).0 q in
            rw (q)
              (h state equal ∙ sym (out_of_some id state peers e) ∙ ap (λ d. is_out d peers) equal)
        | inr q ↦ rw (q) refl
      ]
]

out-refresh :
    (id : DeviceId) (now : ℕ) (es : List DiscoveryEvent) (peers : Peers)
    → is_out id (refresh_from_discovery now es peers) ≡ is_out id peers
unfolding refresh_from_discovery discover is_refused
out-refresh id now [] peers = refl
out-refresh id now (found device addresses ∷ es) peers =
    out-refresh id now es (discover now (found device addresses) peers)
    ∙ is_out-change_peer device id _ peers (λ state q. refl)
out-refresh id now (lost device ∷ es) peers = out-refresh id now es peers
out-refresh id now (incompatible ∷ es) peers = out-refresh id now es peers

-- Sweeps of the network and passes over the peers.
unfoldable pub is_pass : PeerEvent → Bool
is_pass (swept now events) = true
is_pass (dialled now id outcome) = true
is_pass (answered now id addr reachability) = false

out-dialled_other :
    (id : DeviceId) (now : ℕ) (device : DeviceId) (outcome : Dialled) (peers : Peers)
    → device ≢ id
    → is_out id (note_dialled now device outcome peers) ≡ is_out id peers
unfolding note_dialled note_success note_failure
out-dialled_other id now device (synced addr r) peers n =
    is_out-change_peer device id _ peers (λ state q. absurd (n q))
out-dialled_other id now device session_failed peers n = refl
out-dialled_other id now device (no_link error) peers n =
    is_out-change_peer device id _ peers (λ state q. absurd (n q))

-- A dial of such a peer is skipped.
pub sync_one-out :
    (id : DeviceId) (now : ℕ) (outcome : Dialled) (peers : Peers)
    → is_out id peers ≡ true
    → sync_one now id outcome peers ≡ (peers, false)
unfolding sync_one is_out
sync_one-out id now outcome peers h = elim (Option-cases (lookup id peers)) [
  | inl e ↦ rw (e, sync_one) refl
  | inr (state, e) ↦
      let refused : is_refused state ≡ true = sym (out_of_some id state peers e) ∙ h in
      rw (e, refused, sync_one) refl
]

out-sync_one :
    (id : DeviceId) (now : ℕ) (device : DeviceId) (outcome : Dialled) (peers : Peers)
    → is_out id peers ≡ true
    → is_out id (sync_one now device outcome peers).0 ≡ true
out-sync_one id now device outcome peers h = elim (Bool-cases (device == id)) [
  | inl q ↦
      let equal = (==_iff device id).0 q in
      let skipped = sync_one-out device now outcome peers (ap (λ d. is_out d peers) equal ∙ h) in
      ap (λ r. is_out id r.0) skipped ∙ h
  | inr q ↦ elim (sync_one-cases now device outcome peers) [
    | inl same ↦ ap (is_out id) same ∙ h
    | inr noted ↦
        ap (is_out id) noted
        ∙ out-dialled_other id now device outcome peers (λ e. cc (q, (==_iff device id).1 e))
        ∙ h
  ]
]

out-happen_all :
    (id : DeviceId) (es : List PeerEvent) (peers : Peers)
    → all_of is_pass es ≡ true
    → is_out id peers ≡ true
    → is_out id (happen_all es peers) ≡ true
unfolding happen_all happen is_pass
out-happen_all id [] peers p h = h
out-happen_all id (swept now events ∷ es) peers p h =
    out-happen_all id es _ p (out-refresh id now events peers ∙ h)
out-happen_all id (dialled now device outcome ∷ es) peers p h =
    out-happen_all id es _ p (out-sync_one id now device outcome peers h)
out-happen_all id (answered now device addr r ∷ es) peers p h = cc

sync_one-dials :
    (id : DeviceId) (now : ℕ) (outcome : Dialled) (peers : Peers) (state : PeerState)
    → lookup id peers ≡ some state
    → is_refused state ≡ false
    → sync_one now id outcome peers ≡ (note_dialled now id outcome peers, true)
unfolding sync_one
sync_one-dials id now outcome peers state e q = rw (e, q, sync_one) refl

refusal :
    (error : DialError) (state : PeerState)
    → is_retryable error ≡ false
    → is_refused (failed_state error state) ≡ true
unfolding failed_state is_refused
refusal error state r = rw (r) refl

out-failed :
    (id : DeviceId) (now : ℕ) (error : DialError) (peers : Peers) (state : PeerState)
    → is_retryable error ≡ false
    → lookup id peers ≡ some state
    → is_out id (note_dialled now id (no_link error) peers) ≡ true
unfolding note_dialled note_failure
out-failed id now error peers state r e = elim (change_peer-cases id (failed_state error) peers) [
  | inl (missing, same) ↦ cc (missing, e)
  | inr (old, q, same) ↦
      ap (is_out id) same
      ∙ is_out-insert id id (failed_state error old) peers
      ∙ ground (arith, refusal error old r)
]

-- The end of a dial that is not to be retried.
out-after :
    (id : DeviceId) (now : ℕ) (error : DialError) (peers : Peers) (state : PeerState)
    → is_retryable error ≡ false
    → lookup id peers ≡ some state
    → is_out id (sync_one now id (no_link error) peers).0 ≡ true
out-after id now error peers state r e = elim (Bool-cases (is_refused state)) [
  | inl q ↦
      let gone = out_of_some id state peers e ∙ q in
      ap (λ x. is_out id x.0) (sync_one-out id now (no_link error) peers gone) ∙ gone
  | inr q ↦
      ap (λ x. is_out id x.0) (sync_one-dials id now (no_link error) peers state e q)
      ∙ out-failed id now error peers state r e
]

-- A peer that one dial ended with a failure that is not retryable for, a peer without any address among
-- them, is not dialled again: however often passes run and wherever it is found on the network, until
-- it calls itself or the paired set is read again.
pub sync_one_not_retryable :
    (id : DeviceId) (now later : ℕ) (error : DialError) (outcome : Dialled) (peers : Peers)
    (state : PeerState) (es : List PeerEvent)
    → is_retryable error ≡ false
    → lookup id peers ≡ some state
    → all_of is_pass es ≡ true
    → (sync_one later id outcome (happen_all es (sync_one now id (no_link error) peers).0)).1
      ≡ false
sync_one_not_retryable id now later error outcome peers state es r e p =
    let gone =
      out-happen_all id es (sync_one now id (no_link error) peers).0 p
        (out-after id now error peers state r e) in
    ap (λ x. x.1)
      (sync_one-out id later outcome (happen_all es (sync_one now id (no_link error) peers).0) gone)
