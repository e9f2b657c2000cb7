-- ===== src/Daemon/Peers.antt =====
-- crates/clipsed/src/peers.rs: the table of peers. The hash map is an association list, whose order stands for
-- the order in which the map is enumerated. What discovery finds and what a dial ends with are
-- arguments, and so is the clock.
pub mod Table
pub mod Sweeps
pub mod Refused
use clipse.Prelude.{
  ℕ, ◌+◌, ◌-◌, Bool, true, false, not, List, [], ◌∷◌, map, Option, none, some, ltb, ◌==◌,
  if◌then◌else◌, length, keep_if, any_of,
}
use clipse.Prelude.Bytes.{Bytes}
use clipse.Prelude.Assoc.{Assoc, lookup, insert}
use clipse.Core.Id.{DeviceId}
use clipse.Crypto.Trust.{CandidateAddress, lan_address, tailnet_address, PairedDevice, Trust}
use clipse.Net.Candidates.{
  Candidate, Reachability, lan, tailnet, lan_candidate, tailnet_candidate, seen_at, upsert,
  upsert_all, refresh_lan,
}
use clipse.Net.Backoff.{Backoff, default_backoff, next_delay_ms, reset, DialError, is_retryable}

abbrev pub online_window_ms : ℕ
online_window_ms = 90000

pub record PeerState : Type 0 where
  pub candidates : List Candidate
  pub backoff : Backoff
  pub refused : Option DialError
  pub last_seen_ms : Option ℕ
  pub last_reachability : Option Reachability

abbrev pub Peers : Type 0
Peers = Assoc PeerState

-- `PeerState::new`.
abbrev pub new_peer_state : List Candidate → PeerState
new_peer_state candidates = record {
  candidates = candidates;
  backoff = default_backoff;
  refused = none;
  last_seen_ms = none;
  last_reachability = none;
}

unfoldable pub candidate_of : CandidateAddress → Candidate
candidate_of (lan_address addr) = lan_candidate addr
candidate_of (tailnet_address addr) = tailnet_candidate addr

-- `candidates_of`.
unfoldable pub candidates_of : List CandidateAddress → List Candidate
unfolding candidate_of upsert_all
candidates_of addresses = upsert_all (map candidate_of addresses) []

-- `peers.get_mut(&id)` and what is done to the entry.
unfoldable pub change_peer : DeviceId → (PeerState → PeerState) → Peers → Peers
change_peer id change peers = elim (lookup id peers) [
  | none ↦ peers
  | some state ↦ insert id (change state) peers
]

-- The entry of a paired device after `entry(id).and_modify(..).or_insert_with(..)`.
unfoldable pub admitted : PairedDevice → Option PeerState → PeerState
unfolding candidates_of upsert_all
admitted p none = new_peer_state (candidates_of p.addresses)
admitted p (some state) = record state {
  refused = none;
  candidates = upsert_all (candidates_of p.addresses) state.candidates;
}

unfoldable pub admit : PairedDevice → Peers → Peers
unfolding admitted
admit p peers = insert p.device_id (admitted p (lookup p.device_id peers)) peers

unfoldable pub admit_all : List PairedDevice → Peers → Peers
unfolding admit
admit_all [] peers = peers
admit_all (p ∷ ps) peers = admit_all ps (admit p peers)

-- `reload_from_trust`.
unfoldable pub reload_from_trust : Trust → Peers → Peers
unfolding admit_all
reload_from_trust t peers =
    admit_all t.peers (keep_if (λ e. any_of (λ p. p.device_id == e.0) t.peers) peers)

-- `DiscoveryEvent`, as far as `refresh_from_discovery` reads it.
pub data DiscoveryEvent : Type 0 where
  found : DeviceId → List ℕ → DiscoveryEvent
  lost : DeviceId → DiscoveryEvent
  incompatible : DiscoveryEvent

-- `refresh_from_discovery`.
unfoldable pub discover : ℕ → DiscoveryEvent → Peers → Peers
unfolding change_peer refresh_lan reset
discover now (found id addresses) peers =
    change_peer id
      (λ state. record state {
        candidates = refresh_lan addresses now state.candidates;
        backoff = reset state.backoff;
      })
      peers
discover now (lost id) peers = peers
discover now incompatible peers = peers

unfoldable pub refresh_from_discovery : ℕ → List DiscoveryEvent → Peers → Peers
unfolding discover
refresh_from_discovery now [] peers = peers
refresh_from_discovery now (e ∷ es) peers = refresh_from_discovery now es (discover now e peers)

-- `note_success`.
unfoldable pub note_success : ℕ → DeviceId → ℕ → Reachability → Peers → Peers
unfolding change_peer upsert reset
note_success now id addr reachability peers =
    change_peer id
      (λ state. record state {
        backoff = reset state.backoff;
        refused = none;
        last_seen_ms = some now;
        last_reachability = some reachability;
        candidates = upsert (seen_at now (lan_candidate addr)) state.candidates;
      })
      peers

-- What a failed dial does to the entry.
unfoldable pub failed_state : DialError → PeerState → PeerState
unfolding next_delay_ms is_retryable
failed_state error state =
    if is_retryable error
    then record state { backoff = (next_delay_ms state.backoff).0 }
    else record state { refused = some error }

unfoldable pub note_failure : DeviceId → DialError → Peers → Peers
unfolding change_peer failed_state
note_failure id error peers = change_peer id (failed_state error) peers

-- What a dial ends with: a session over an address, a session that failed, or no link.
pub data Dialled : Type 0 where
  synced : ℕ → Reachability → Dialled
  session_failed : Dialled
  no_link : DialError → Dialled

unfoldable pub is_refused : PeerState → Bool
is_refused state = elim state.refused [ none ↦ false | some _ ↦ true ]

unfoldable pub note_dialled : ℕ → DeviceId → Dialled → Peers → Peers
unfolding note_success note_failure
note_dialled now id (synced addr reachability) peers = note_success now id addr reachability peers
note_dialled now id session_failed peers = peers
note_dialled now id (no_link error) peers = note_failure id error peers

-- `sync_one`; the second component is whether the peer was dialled.
unfoldable pub sync_one : ℕ → DeviceId → Dialled → Peers → Peers × Bool
unfolding is_refused note_dialled
sync_one now id outcome peers = elim (lookup id peers) [
  | none ↦ (peers, false)
  | some state ↦
      if is_refused state then (peers, false) else (note_dialled now id outcome peers, true)
]

-- The peers that `sync_all` dials, in turn.
unfoldable pub due : Peers → List DeviceId
unfolding is_refused
due peers = map (λ e. e.0) (keep_if (λ e. not (is_refused e.1)) peers)

-- `counts`: the peers that are not refused, and all.
unfoldable pub counts : Peers → ℕ × ℕ
unfolding is_refused
counts peers = (length (keep_if (λ e. not (is_refused e.1)) peers), length peers)

pub data Connectivity : Type 0 where
  lan_link tailnet_link offline : Connectivity

-- The connectivity that `info_for` shows.
unfoldable pub connectivity : ℕ → Option PeerState → Connectivity
connectivity now none = offline
connectivity now (some state) = elim state.last_seen_ms [
  | none ↦ offline
  | some seen ↦
      if ltb (now - seen) online_window_ms
      then elim state.last_reachability [
        | none ↦ lan_link
        | some r ↦ elim r [ lan ↦ lan_link | tailnet ↦ tailnet_link ]
      ]
      else offline
]
