-- ===== src/Daemon/Peers/Sweeps.antt =====
-- The peers in the table are the paired devices.
use clipse.Prelude.{ℕ, ◌≡◌, refl, ap, ◌∙◌, List, [], ◌∷◌, Option-cases, Bool-cases, inl, inr, ◌⊎◌}
use clipse.Prelude.Assoc.{lookup, IsKeyed}
use clipse.Core.Id.{DeviceId}
use clipse.Crypto.Trust.{Trust, is_paired}
use clipse.Net.Candidates.{Reachability}
use clipse.Daemon.Peers.{
  Peers, reload_from_trust, DiscoveryEvent, found, lost, incompatible, discover,
  refresh_from_discovery, note_success, note_failure, Dialled, synced, session_failed, no_link,
  note_dialled, sync_one, is_refused,
}
use clipse.Daemon.Peers.Table.{is_known, is_known-change_peer, reload-known}

-- What happens to the table between two changes of the paired set.
pub data PeerEvent : Type 0 where
  swept : ℕ → List DiscoveryEvent → PeerEvent
  dialled : ℕ → DeviceId → Dialled → PeerEvent
  answered : ℕ → DeviceId → ℕ → Reachability → PeerEvent

unfoldable pub happen : PeerEvent → Peers → Peers
unfolding refresh_from_discovery sync_one note_success
happen (swept now events) peers = refresh_from_discovery now events peers
happen (dialled now id outcome) peers = (sync_one now id outcome peers).0
happen (answered now id addr reachability) peers = note_success now id addr reachability peers

unfoldable pub happen_all : List PeerEvent → Peers → Peers
unfolding happen
happen_all [] peers = peers
happen_all (e ∷ es) peers = happen_all es (happen e peers)

known-refresh :
    (id : DeviceId) (now : ℕ) (es : List DiscoveryEvent) (peers : Peers)
    → is_known id (refresh_from_discovery now es peers) ≡ is_known id peers
unfolding refresh_from_discovery discover
known-refresh id now [] peers = refl
known-refresh id now (found device addresses ∷ es) peers =
    known-refresh id now es (discover now (found device addresses) peers)
    ∙ is_known-change_peer device id _ peers
known-refresh id now (lost device ∷ es) peers = known-refresh id now es peers
known-refresh id now (incompatible ∷ es) peers = known-refresh id now es peers

known-dialled :
    (id : DeviceId) (now : ℕ) (device : DeviceId) (outcome : Dialled) (peers : Peers)
    → is_known id (note_dialled now device outcome peers) ≡ is_known id peers
unfolding note_dialled note_success note_failure
known-dialled id now device (synced addr r) peers = is_known-change_peer device id _ peers
known-dialled id now device session_failed peers = refl
known-dialled id now device (no_link error) peers = is_known-change_peer device id _ peers

-- A dial is skipped, or its end is noted.
pub sync_one-cases :
    (now : ℕ) (device : DeviceId) (outcome : Dialled) (peers : Peers)
    → ((sync_one now device outcome peers).0 ≡ peers)
      ⊎ ((sync_one now device outcome peers).0 ≡ note_dialled now device outcome peers)
unfolding sync_one
sync_one-cases now device outcome peers = elim (Option-cases (lookup device peers)) [
  | inl e ↦ inl (rw (e, sync_one) refl)
  | inr (state, e) ↦ elim (Bool-cases (is_refused state)) [
    | inl r ↦ inl (rw (e, r, sync_one) refl)
    | inr r ↦ inr (rw (e, r, sync_one) refl)
  ]
]

known-sync_one :
    (id : DeviceId) (now : ℕ) (device : DeviceId) (outcome : Dialled) (peers : Peers)
    → is_known id (sync_one now device outcome peers).0 ≡ is_known id peers
known-sync_one id now device outcome peers = elim (sync_one-cases now device outcome peers) [
  | inl same ↦ ap (is_known id) same
  | inr noted ↦ ap (is_known id) noted ∙ known-dialled id now device outcome peers
]

known-happen :
    (id : DeviceId) (e : PeerEvent) (peers : Peers)
    → is_known id (happen e peers) ≡ is_known id peers
unfolding happen note_success
known-happen id (swept now events) peers = known-refresh id now events peers
known-happen id (dialled now device outcome) peers = known-sync_one id now device outcome peers
known-happen id (answered now device addr r) peers = is_known-change_peer device id _ peers

known-happen_all :
    (id : DeviceId) (es : List PeerEvent) (peers : Peers)
    → is_known id (happen_all es peers) ≡ is_known id peers
unfolding happen_all
known-happen_all id [] peers = refl
known-happen_all id (e ∷ es) peers =
    known-happen_all id es (happen e peers) ∙ known-happen id e peers

-- From one reload to the next, the devices in the table are exactly the paired ones: whatever is found on
-- the network, and whatever dials and sessions end with, nobody is added and nobody is lost.
pub is_known-reload_from_trust :
    (id : DeviceId) (t : Trust) (peers : Peers) (es : List PeerEvent)
    → IsKeyed peers
    → is_known id (happen_all es (reload_from_trust t peers)) ≡ is_paired id t
is_known-reload_from_trust id t peers es h =
    known-happen_all id es (reload_from_trust t peers) ∙ reload-known id t peers h
