-- ===== src/Crypto/Trust.antt =====
-- crates/clipse-crypto/src/rotation.rs: the paired devices and the epoch. The B-tree map is a list in
-- the order of its keys; a static public key and a socket address are numbers.
pub mod Revocation
use clipse.Prelude.{
  ℕ, ◌+◌, ◌%◌, ◌^◌, Bool, true, false, not, List, [], ◌∷◌, Option, none, some, ltb, ◌==◌,
  if◌then◌else◌, find_first,
}
use clipse.Prelude.Bytes.{Bytes}
use clipse.Core.Id.{DeviceId}

pub data Platform : Type 0 where
  windows mac_os linux : Platform
  other_platform : Bytes → Platform

pub data CandidateAddress : Type 0 where
  lan_address tailnet_address : ℕ → CandidateAddress

pub record PairedDevice : Type 0 where
  pub device_id : DeviceId
  pub static_public : ℕ
  pub label : Bytes
  pub platform : Platform
  pub addresses : List CandidateAddress
  pub paired_at_ms : ℕ

pub record Trust : Type 0 where
  pub local_device_id : DeviceId
  pub epoch : ℕ
  pub peers : List PairedDevice

-- `Session`, as far as it is authorised: the epoch that it was established in and the peer.
pub record Session : Type 0 where
  pub epoch : ℕ
  pub remote_device_id : DeviceId

pub data Result {ℓ} (A : Type ℓ) : Type ℓ where
  ok : A → Result A
  not_trusted : Result A

-- `Trust::new`.
abbrev pub new_trust : DeviceId → Trust
new_trust local_device_id = record { local_device_id = local_device_id; epoch = 0; peers = [] }

-- `BTreeMap::get`, `insert` and `remove`.
unfoldable pub peer_in : DeviceId → List PairedDevice → Option PairedDevice
peer_in id [] = none
peer_in id (p ∷ ps) = if p.device_id == id then some p else peer_in id ps

unfoldable pub put_peer : PairedDevice → List PairedDevice → List PairedDevice
put_peer new [] = new ∷ []
put_peer new (p ∷ ps) =
    let rest = put_peer new ps in
    if p.device_id == new.device_id
    then new ∷ ps
    else if ltb new.device_id p.device_id
    then new ∷ p ∷ ps
    else p ∷ rest

unfoldable pub drop_peer : DeviceId → List PairedDevice → List PairedDevice
drop_peer id [] = []
drop_peer id (p ∷ ps) = let rest = drop_peer id ps in if p.device_id == id then ps else p ∷ rest

-- `peer`.
unfoldable pub peer : DeviceId → Trust → Option PairedDevice
unfolding peer_in
peer id t = peer_in id t.peers

-- `is_paired`.
unfoldable pub is_paired : DeviceId → Trust → Bool
unfolding peer_in
is_paired id t = elim (peer_in id t.peers) [ none ↦ false | some _ ↦ true ]

-- `peer_by_static_key`.
unfoldable pub peer_by_static_key : ℕ → Trust → Option PairedDevice
peer_by_static_key key t = find_first (λ p. p.static_public == key) t.peers

-- `add_peer`.
unfoldable pub add_peer : PairedDevice → Trust → Trust
unfolding put_peer
add_peer p t = record t { peers = put_peer p t.peers }

-- `remove_peer`; the epoch is a `u64`.
unfoldable pub remove_peer : DeviceId → Trust → Trust × Result PairedDevice
unfolding drop_peer peer_in
remove_peer id t = elim (peer_in id t.peers) [
  | none ↦ (t, not_trusted)
  | some p ↦ (record t { peers = drop_peer id t.peers; epoch = (t.epoch + 1) % 2 ^ 64 }, ok p)
]

-- `authorize_static_key`.
unfoldable pub authorize_static_key : ℕ → Trust → Result PairedDevice
unfolding peer_by_static_key
authorize_static_key key t = elim (peer_by_static_key key t) [ none ↦ not_trusted | some p ↦ ok p ]

-- `authorize_session`.
unfoldable pub authorize_session : Session → Trust → Result (Unit {0})
unfolding is_paired
authorize_session s t =
    if not (s.epoch == t.epoch)
    then not_trusted
    else if not (is_paired s.remote_device_id t)
    then not_trusted
    else ok tt
