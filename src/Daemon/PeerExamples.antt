-- ===== src/Daemon/PeerExamples.antt =====
-- Runs of the table of peers, and its theorems at concrete inputs.
use clipse.Prelude.{ℕ, ◌≡◌, refl, false, List, [], ◌∷◌, arith}
use clipse.Prelude.Assoc.{lookup, insert}
use clipse.Crypto.Trust.{linux, lan_address, PairedDevice, Trust, is_paired}
use clipse.Net.Candidates.{tailnet}
use clipse.Net.Backoff.{no_candidates, is_retryable}
use clipse.Daemon.Peers.{
  Peers, new_peer_state, found, reload_from_trust, synced, no_link, sync_one, due, connectivity,
  tailnet_link, offline,
}
use clipse.Daemon.Peers.Table.{is_known}
use clipse.Daemon.Peers.Sweeps.{PeerEvent, swept, dialled, happen_all, is_known-reload_from_trust}
use clipse.Daemon.Peers.Refused.{is_pass, sync_one_not_retryable}

abbrev device : ℕ → PairedDevice
device id = record {
  device_id = id;
  static_public = id;
  label = [];
  platform = linux;
  addresses = lan_address 10 ∷ [];
  paired_at_ms = 0;
}

abbrev trust : Trust
trust = record { local_device_id = 1; epoch = 0; peers = device 2 ∷ device 3 ∷ [] }

abbrev bare : Peers
bare = (2, new_peer_state []) ∷ (9, new_peer_state []) ∷ []

abbrev events : List PeerEvent
events = swept 5 (found 2 (77 ∷ []) ∷ found 8 (78 ∷ []) ∷ []) ∷ dialled 6 2 (synced 77 tailnet) ∷ []

is_known-reload_from_trust_example :
    is_known 8 (happen_all events (reload_from_trust trust bare)) ≡ is_paired 8 trust
is_known-reload_from_trust_example =
    is_known-reload_from_trust 8 trust bare events (((λ e. omega arith), tt), (tt, tt))

-- The device that was found and is not paired is not there, the one that is paired is.
not_added : is_known 8 (happen_all events (reload_from_trust trust bare)) ≡ false
unfolding is_known happen_all reload_from_trust lookup insert
not_added = refl

sync_one_not_retryable_example :
    (sync_one 9 2 (synced 77 tailnet) (
      happen_all
        (swept 5 (found 2 (77 ∷ []) ∷ []) ∷ [])
        (sync_one 4 2 (no_link no_candidates) bare).0)).1
    ≡ false
unfolding is_pass is_retryable lookup
sync_one_not_retryable_example =
    sync_one_not_retryable 2 4 9 no_candidates (synced 77 tailnet) bare (new_peer_state [])
      (swept 5 (found 2 (77 ∷ []) ∷ []) ∷ []) refl refl refl

-- A session over the tailnet, and the time until the peer is shown as offline.
seen : connectivity 90004 (lookup 2 (sync_one 5 2 (synced 77 tailnet) bare).0) ≡ tailnet_link
unfolding connectivity lookup sync_one insert
seen = refl

gone : connectivity 90005 (lookup 2 (sync_one 5 2 (synced 77 tailnet) bare).0) ≡ offline
unfolding connectivity lookup sync_one insert
gone = refl

due_first : due bare ≡ 2 ∷ 9 ∷ []
unfolding due
due_first = refl
