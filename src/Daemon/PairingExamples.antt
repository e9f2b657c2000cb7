-- ===== src/Daemon/PairingExamples.antt =====
-- Runs of the daemon's pairing, with a digest that keeps its input, and its theorems at concrete inputs.
use clipse.Prelude.{
  ℕ, ◌<◌, ◌≤◌, ◌≡◌, ◌⊎◌, inl, inr, refl, false, map, ◌++◌, All, List, [], ◌∷◌, some, replicate,
  arith, length,
}
use clipse.Prelude.Bytes.{Bytes, ascii, bytes_eq}
use clipse.Prelude.Words.{le_bytes}
use clipse.Crypto.Trust.{linux, new_trust, peer}
use clipse.Crypto.Code.{PairingCode, mac_a_label, mac_b_label, tag, matches_tag}
use clipse.Crypto.Wire.{PairingAccept, PairingFinish, lookup_wire, accept_wire}
use clipse.Crypto.Ceremony.{
  PairingInitiator, create_initiator, answers, mac, initiator_transcript, accepted_peer,
  accept_pairing,
}
use clipse.Daemon.Pairing.{
  idle, offering, proving, done, fails, already_in_progress, offer_outcome, begin, begin_answering,
  lookup, expire_if_stale, answer_lookup, answer_accept,
}
use clipse.Daemon.Pairing.Guesses.{lookups, lookups_wrong}
use clipse.Daemon.Pairing.Events.{
  Event, begun, looked_up, accepted, finished, checked, World, happen, at_start, after, Proved,
}
use clipse.Daemon.Pairing.Proofs.{trusted-Proved}
use clipse.Daemon.Pairing.Together.{Device, Target, unreachable, reached, Call, pair_with_code}
use clipse.Daemon.Pairing.Serving.{arrived, lost, serve_pairing}
use clipse.Daemon.Pairing.Meeting.{PassesOver, asked, pair_with_code-begin}
use clipse.Daemon.Pairing.Waiting.{happen_all, begin_while_waiting, is_other}

abbrev keep : Bytes → Bytes
keep s = s

abbrev code : PairingCode
code = record { digits = 4 ∷ 8 ∷ 2 ∷ 9 ∷ 1 ∷ 3 ∷ [] }

abbrev desk : Device
desk = record {
  identity = record { device_id = 1; public_key = 11 };
  label = ascii "desk";
  platform = linux;
  addresses = [];
}

abbrev phone : Device
phone = record {
  identity = record { device_id = 2; public_key = 22 };
  label = ascii "phone";
  platform = linux;
  addresses = [];
}

abbrev initiator : PairingInitiator
initiator = create_initiator keep desk.identity desk.label linux [] (7 ∷ []) code 0

abbrev wrong_tags : List (Bytes × ℕ)
wrong_tags = replicate 9 (replicate 16 0, 1000)

lookups_wrong_example :
    (length wrong_tags < 8
      → lookups keep wrong_tags (offering initiator 180000 0)
        ≡ offering initiator 180000 (length wrong_tags))
    × (8 ≤ length wrong_tags
        → lookups keep wrong_tags (lookups keep wrong_tags (offering initiator 180000 0)) ≡ idle)
unfolding answers create_initiator bytes_eq le_bytes
lookups_wrong_example =
    let one : (answers keep initiator (replicate 16 0) ≡ false) × (1000 ≤ 180000) =
      (refl, omega arith) in
    lookups_wrong keep initiator 180000 wrong_tags wrong_tags
      (one, (one, (one, (one, (one, (one, (one, (one, (one, tt)))))))))

abbrev accept : PairingAccept
accept = record {
  device_id = 2;
  static_public = 22;
  label = ascii "phone";
  platform = linux;
  addresses = [];
  nonce = 9 ∷ [];
}

abbrev proof : PairingFinish
proof = record { mac = mac keep mac_b_label (initiator_transcript initiator accept) }

abbrev start : World
start = record { state = idle; trust = new_trust 1 }

abbrev offer_made : Event
offer_made = begun desk.identity desk.label linux [] (7 ∷ []) code 0

abbrev ended : World
ended =
    happen keep (finished proof) (happen keep (accepted accept 5 5) (happen keep offer_made start))

ended-trusts : peer 2 ended.trust ≡ some (accepted_peer accept 5)
unfolding happen create_initiator bytes_eq le_bytes peer mac initiator_transcript
ended-trusts = refl

trusted-Proved_example :
    (peer 2 start.trust ≡ some (accepted_peer accept 5))
    ⊎ Proved keep (finished proof ∷ accepted accept 5 5 ∷ offer_made ∷ []) (accepted_peer accept 5)
trusted-Proved_example =
    trusted-Proved keep 2 (accepted_peer accept 5) refl
      (after (finished proof) (after (accepted accept 5 5) (after offer_made at_start)))
      ended-trusts

-- The device that shows the digits, and the turns of the loop: an address without an answer, a device that is
-- idle, and the device with the digits.
abbrev showing : World
showing = record {
  state = (begin keep desk.identity desk.label linux [] (7 ∷ []) code 0 idle).0;
  trust = new_trust 1;
}

abbrev call_at : Target → Call
call_at target = record {
  target = target;
  nonce = 9 ∷ [];
  asked_at = 3;
  accepted_at = 4;
  verified_at = 5;
  proved_at = 6;
}

abbrev others : List Call
others = call_at unreachable ∷ call_at (reached start) ∷ []

others-PassesOver : All (PassesOver keep code) others
unfolding lookup expire_if_stale answer_lookup
others-PassesOver = (inl refl, (inr (start, refl, refl), tt))

pair_with_code-begin_example :
    (a : World) × (b : World) × (pair_with_code keep code phone
        (others ++ call_at (reached showing) ∷ call_at unreachable ∷ [])
        (record { state = idle; trust = new_trust 2 })
      ≡ (
        map (asked keep code) others
            ++ reached a ∷ map (λ call. call.target) (call_at unreachable ∷ []),
        b,
      ))
    × (a.state ≡ idle)
    × (b.state ≡ idle)
    × (peer 2 a.trust
        ≡ some (record {
          device_id = 2;
          static_public = 22;
          label = ascii "phone";
          platform = linux;
          addresses = [];
          paired_at_ms = 4;
        }))
    × (peer 1 b.trust
        ≡ some (record {
          device_id = 1;
          static_public = 11;
          label = ascii "desk";
          platform = linux;
          addresses = [];
          paired_at_ms = 5;
        }))
pair_with_code-begin_example =
    pair_with_code-begin keep desk phone (7 ∷ []) code 0 (new_trust 1) (new_trust 2) others
      (call_at (reached showing)) (call_at unreachable ∷ []) (omega arith) (omega arith)
      (omega arith) (omega arith) (omega arith) others-PassesOver refl

abbrev meanwhile : List Event
meanwhile = checked 1000000000 ∷ offer_made ∷ looked_up (5 ∷ []) 1000000001 ∷ []

abbrev shown_tag : Bytes
shown_tag = tag keep code

abbrev gone : World
gone =
    serve_pairing keep 3 (lookup_wire shown_tag) (arrived (accept_wire accept) 4 ∷ lost ∷ [])
      (record { state = offering initiator 180000 0; trust = new_trust 1 })

offered :
    lookup keep shown_tag 3 (offering initiator 180000 0)
    ≡ (offering initiator 180000 0, offer_outcome initiator.offer)
unfolding lookup expire_if_stale answer_lookup answers create_initiator tag matches_tag bytes_eq
    le_bytes
offered = refl

answered : answer_accept keep accept 4 4 (offering initiator 180000 0) ≡ (
  proving (record {
    expected = mac keep mac_b_label (initiator_transcript initiator accept);
    peer = accepted_peer accept 4;
  }),
  done (record {
    nonce_a = initiator.nonce_a;
    mac = mac keep mac_a_label (initiator_transcript initiator accept);
  }),
)
unfolding answer_accept accept_pairing create_initiator
answered = refl

begin_while_waiting_example :
    ((begin keep desk.identity desk.label linux []
        (7 ∷ [])
        code
        9
        (happen_all keep meanwhile gone).state).1
      ≡ fails already_in_progress)
    × ((begin_answering (happen_all keep meanwhile gone).state).1 ≡ fails already_in_progress)
    × ((serve_pairing keep 3
          (lookup_wire shown_tag)
          (arrived (accept_wire accept) 4 ∷ [])
          (record { state = offering initiator 180000 0; trust = new_trust 1 })).state
        ≡ idle)
unfolding is_other
begin_while_waiting_example =
    begin_while_waiting keep 3 4 shown_tag accept
      (record { state = offering initiator 180000 0; trust = new_trust 1 })
      (offering initiator 180000 0) initiator.offer _ _ meanwhile desk.identity desk.label linux []
      (7 ∷ []) code 9 offered (omega arith) answered refl
