-- ===== src/Crypto/Trust/Revocation.antt =====
-- Removing a device revokes every session, for good.
use clipse.Prelude.{
  ◌+◌, ◌%◌, ◌^◌, ◌≤◌, ◌<◌, ◌≡◌, refl, List, [], ◌∷◌, none, some, arith, length, ◌==◌, if◌then◌else◌,
  All, Option-cases, inl, inr,
}
use native.Mathlib.Nat.{mod-eq_of_lt}
use clipse.Core.Id.{DeviceId}
use clipse.Crypto.Trust.{
  PairedDevice, Trust, Session, ok, not_trusted, peer_in, put_peer, drop_peer, peer, add_peer,
  remove_peer, authorize_session,
}

pub data Change : Type 0 where
  pair : PairedDevice → Change
  unpair : DeviceId → Change

-- One change of the trust set, its answer dropped.
unfoldable pub change : Change → Trust → Trust
unfolding add_peer remove_peer
change (pair p) t = add_peer p t
change (unpair id) t = (remove_peer id t).0

unfoldable pub change_all : List Change → Trust → Trust
unfolding change
change_all [] t = t
change_all (c ∷ cs) t = change_all cs (change c t)

remove_peer-epoch :
    (id : DeviceId) (t : Trust)
    → t.epoch + 1 < 2 ^ 64
    → (t.epoch ≤ (remove_peer id t).0.epoch) × ((remove_peer id t).0.epoch ≤ t.epoch + 1)
unfolding remove_peer
remove_peer-epoch id t h =
    let same : (t.epoch + 1) % 2 ^ 64 ≡ t.epoch + 1 = mod-eq_of_lt h in ground (arith, same)

change-epoch :
    (c : Change) (t : Trust)
    → t.epoch + 1 < 2 ^ 64
    → (t.epoch ≤ (change c t).epoch) × ((change c t).epoch ≤ t.epoch + 1)
unfolding change add_peer
change-epoch (pair p) t h = (omega arith, omega arith)
change-epoch (unpair id) t h = remove_peer-epoch id t h

-- The epoch only moves forward, by one step for a change at most.
change_all-epoch :
    (cs : List Change) (t : Trust)
    → t.epoch + length cs < 2 ^ 64
    → t.epoch ≤ (change_all cs t).epoch
unfolding change_all
change_all-epoch [] t h = omega arith
change_all-epoch (c ∷ cs) t h =
    let one = change-epoch c t (omega arith) in
    omega (arith, one, change_all-epoch cs (change c t) (omega (arith, one)))

removed-epoch :
    (id : DeviceId) (t t' : Trust) (p : PairedDevice)
    → t.epoch + 1 < 2 ^ 64
    → remove_peer id t ≡ (t', ok p)
    → t'.epoch ≡ t.epoch + 1
unfolding remove_peer
removed-epoch id t t' p h e =
    let same : (t.epoch + 1) % 2 ^ 64 ≡ t.epoch + 1 = mod-eq_of_lt h in ground (arith, same)

old_epoch : (s : Session) (t : Trust) → s.epoch < t.epoch → authorize_session s t ≡ not_trusted
unfolding authorize_session
old_epoch s t h = ground arith

-- After a device has been removed, no session that was established before is authorised again,
-- whoever its peer is and whatever devices are paired and removed later, as long as the epoch does
-- not reach the end of its 64 bits.
pub authorize_session-removed :
    (id : DeviceId) (t t' : Trust) (p : PairedDevice) (later : List Change) (s : Session)
    → remove_peer id t ≡ (t', ok p)
    → s.epoch ≤ t.epoch
    → t.epoch + 1 + length later < 2 ^ 64
    → authorize_session s (change_all later t') ≡ not_trusted
authorize_session-removed id t t' p later s e old h =
    let bumped = removed-epoch id t t' p (omega arith) e in
    old_epoch s (change_all later t')
      (omega (arith, bumped, change_all-epoch later t' (omega (arith, bumped))))

-- The keys of the map, in order and each once.
abbrev pub IsOrdered : List PairedDevice → Type 0
IsOrdered [] = Unit
IsOrdered (p ∷ ps) = All (λ q. p.device_id < q.device_id) ps × IsOrdered ps

above→absent :
    (id : DeviceId) (ps : List PairedDevice) → All (λ q. id < q.device_id) ps → peer_in id ps ≡ none
unfolding peer_in
above→absent id [] a = refl
above→absent id (p ∷ ps) a = ground (arith, above→absent id ps a.1)

pub peer_in-put_peer :
    (id : DeviceId) (new : PairedDevice) (ps : List PairedDevice)
    → peer_in id (put_peer new ps) ≡ (if new.device_id == id then some new else peer_in id ps)
unfolding peer_in put_peer
peer_in-put_peer id new [] = refl
peer_in-put_peer id new (p ∷ ps) = ground (arith, peer_in-put_peer id new ps)

All-drop :
    (b id : DeviceId) (ps : List PairedDevice)
    → All (λ q. b < q.device_id) ps
    → All (λ q. b < q.device_id) (drop_peer id ps)
unfolding drop_peer
All-drop b id [] a = tt
All-drop b id (p ∷ ps) a = ground (arith, All-drop b id ps a.1)

peer_in-drop_peer :
    (id other : DeviceId) (ps : List PairedDevice)
    → IsOrdered ps
    → peer_in other (drop_peer id ps) ≡ (if id == other then none else peer_in other ps)
unfolding peer_in drop_peer
peer_in-drop_peer id other [] o = ground arith
peer_in-drop_peer id other (p ∷ ps) o =
    ground (arith, peer_in-drop_peer id other ps o.1, above→absent p.device_id ps o.0)

-- Removing a paired device returns its entry and takes away that entry only; removing a device that
-- is not paired is refused and changes nothing.
pub peer-remove_peer :
    (id other : DeviceId) (t : Trust)
    → IsOrdered t.peers
    → ((p : PairedDevice) → peer id t ≡ some p → (remove_peer id t).1 ≡ ok p)
      × (peer id t ≡ none → remove_peer id t ≡ (t, not_trusted))
      × (peer other (remove_peer id t).0 ≡ (if id == other then none else peer other t))
unfolding peer remove_peer
peer-remove_peer id other t o = (
  λ p e. ground arith,
  λ e. ground arith,
  elim (Option-cases (peer_in id t.peers)) [
    | inl e ↦ ground arith
    | inr (p, e) ↦ ground (arith, peer_in-drop_peer id other t.peers o)
  ],
)
