-- ===== src/Daemon/Peers/Table.antt =====
-- The peers in the table, and what a reload makes of them.
use clipse.Prelude.{
  ◌≡◌, refl, sym, ap, ◌∙◌, Bool, true, false, ◌||◌, List, [], ◌∷◌, none, some, ◌==◌, if◌then◌else◌,
  arith, any_of, keep_if, Option-cases, inl, inr, ◌⊎◌, subst,
}
use clipse.Prelude.Assoc.{lookup, insert, lookup-insert, IsKeyed, insert-IsKeyed, lookup-keep_if}
use clipse.Core.Id.{DeviceId}
use clipse.Crypto.Trust.{PairedDevice, Trust, is_paired, peer_in}
use clipse.Daemon.Peers.{
  PeerState, Peers, change_peer, admitted, admit, admit_all, reload_from_trust,
}

-- Whether the table has a device.
unfoldable pub is_known : DeviceId → Peers → Bool
is_known id peers = elim (lookup id peers) [ none ↦ false | some _ ↦ true ]

is_known-insert :
    (id other : DeviceId) (state : PeerState) (peers : Peers)
    → is_known other (insert id state peers) ≡ (if id == other then true else is_known other peers)
unfolding is_known
is_known-insert id other state peers = ground (arith, lookup-insert id other state peers)

-- A change leaves the table as it is, or replaces an entry that is there.
pub change_peer-cases :
    (id : DeviceId) (change : PeerState → PeerState) (peers : Peers)
    → ((lookup id peers ≡ none) × (change_peer id change peers ≡ peers))
      ⊎ ((state : PeerState) × (lookup id peers ≡ some state)
          × (change_peer id change peers ≡ insert id (change state) peers))
unfolding change_peer
change_peer-cases id change peers = elim (Option-cases (lookup id peers)) [
  | inl e ↦ inl (e, rw (e, change_peer) refl)
  | inr (state, e) ↦ inr (state, e, rw (e, change_peer) refl)
]

known_of_some :
    (id : DeviceId) (state : PeerState) (peers : Peers)
    → lookup id peers ≡ some state
    → is_known id peers ≡ true
unfolding is_known
known_of_some id state peers e = rw (e, is_known) refl

pub is_known-change_peer :
    (id other : DeviceId) (change : PeerState → PeerState) (peers : Peers)
    → is_known other (change_peer id change peers) ≡ is_known other peers
is_known-change_peer id other change peers = elim (change_peer-cases id change peers) [
  | inl (e, same) ↦ ap (is_known other) same
  | inr (state, e, same) ↦
      ap (is_known other) same
      ∙ is_known-insert id other (change state) peers
      ∙ ground (arith, known_of_some id state peers e)
]

change_peer-IsKeyed :
    (id : DeviceId) (change : PeerState → PeerState) (peers : Peers)
    → IsKeyed peers
    → IsKeyed (change_peer id change peers)
change_peer-IsKeyed id change peers h = elim (change_peer-cases id change peers) [
  | inl (e, same) ↦ subst IsKeyed (sym same) h
  | inr (state, e, same) ↦ subst IsKeyed (sym same) (insert-IsKeyed id (change state) peers h)
]

admit-IsKeyed : (p : PairedDevice) (peers : Peers) → IsKeyed peers → IsKeyed (admit p peers)
unfolding admit
admit-IsKeyed p peers h = insert-IsKeyed p.device_id (admitted p (lookup p.device_id peers)) peers h

is_known-admit :
    (p : PairedDevice) (other : DeviceId) (peers : Peers)
    → is_known other (admit p peers) ≡ (if p.device_id == other then true else is_known other peers)
unfolding admit
is_known-admit p other peers =
    is_known-insert p.device_id other (admitted p (lookup p.device_id peers)) peers

-- Whether a list of devices has an id.
abbrev listed : DeviceId → List PairedDevice → Bool
listed id ps = any_of (λ p. p.device_id == id) ps

is_known-admit_all :
    (ps : List PairedDevice) (other : DeviceId) (peers : Peers)
    → is_known other (admit_all ps peers) ≡ (listed other ps || is_known other peers)
unfolding admit_all
is_known-admit_all [] other peers = refl
is_known-admit_all (p ∷ ps) other peers =
    ground (arith, is_known-admit_all ps other (admit p peers), is_known-admit p other peers)

admit_all-IsKeyed :
    (ps : List PairedDevice) (peers : Peers) → IsKeyed peers → IsKeyed (admit_all ps peers)
unfolding admit_all
admit_all-IsKeyed [] peers h = h
admit_all-IsKeyed (p ∷ ps) peers h = admit_all-IsKeyed ps (admit p peers) (admit-IsKeyed p peers h)

listed_in :
    (id : DeviceId) (ps : List PairedDevice)
    → listed id ps ≡ elim (peer_in id ps) [ none ↦ false | some _ ↦ true ]
unfolding peer_in
listed_in id [] = refl
listed_in id (p ∷ ps) = ground (arith, listed_in id ps)

listed-is_paired : (id : DeviceId) (t : Trust) → listed id t.peers ≡ is_paired id t
unfolding is_paired
listed-is_paired id t = listed_in id t.peers

is_known-keep :
    (id : DeviceId) (ps : List PairedDevice) (peers : Peers)
    → IsKeyed peers
    → (listed id ps || is_known id (keep_if (λ e. listed e.0 ps) peers)) ≡ listed id ps
unfolding is_known
is_known-keep id ps peers h = ground (arith, lookup-keep_if (λ e. listed e.0 ps) id peers h)

pub reload-known :
    (id : DeviceId) (t : Trust) (peers : Peers)
    → IsKeyed peers
    → is_known id (reload_from_trust t peers) ≡ is_paired id t
unfolding reload_from_trust
reload-known id t peers h =
    is_known-admit_all t.peers id (keep_if (λ e. listed e.0 t.peers) peers)
    ∙ is_known-keep id t.peers peers h
    ∙ listed-is_paired id t
