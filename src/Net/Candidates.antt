-- ===== src/Net/Candidates.antt =====
-- crates/clipse-net/src/candidate.rs: the addresses of one peer. A socket address is a number.
pub mod Addresses
pub mod Order
use clipse.Prelude.{
  ℕ, ◌+◌, Bool, true, false, not, ◌&&◌, List, [], ◌∷◌, map, Option, none, some, ltb, leb, ◌==◌,
  if◌then◌else◌, length, drop, keep_if, any_of,
}
use clipse.Prelude.Assoc.{Assoc}
use clipse.Prelude.Sorting.{sort_by}

pub data Reachability : Type 0 where
  lan tailnet : Reachability

abbrev pub max_lan_candidates : ℕ
max_lan_candidates = 6

pub record Candidate : Type 0 where
  pub addr : ℕ
  pub reachability : Reachability
  pub last_seen_ms : Option ℕ

-- `Candidate::lan`, `Candidate::tailnet` and `seen_at`.
abbrev pub lan_candidate : ℕ → Candidate
lan_candidate addr = record { addr = addr; reachability = lan; last_seen_ms = none }

abbrev pub tailnet_candidate : ℕ → Candidate
tailnet_candidate addr = record { addr = addr; reachability = tailnet; last_seen_ms = none }

abbrev pub seen_at : ℕ → Candidate → Candidate
seen_at ms c = record c { last_seen_ms = some ms }

-- `<` of the derived orders: `None` is below `Some`, and `Lan` below `Tailnet`.
unfoldable pub seen_lt : Option ℕ → Option ℕ → Bool
seen_lt _ none = false
seen_lt none (some b) = true
seen_lt (some a) (some b) = ltb a b

unfoldable pub is_lan : Candidate → Bool
is_lan c = elim c.reachability [ lan ↦ true | tailnet ↦ false ]

unfoldable pub reach_min : Reachability → Reachability → Reachability
reach_min lan _ = lan
reach_min tailnet r = r

-- What `upsert` does to the candidate that has the address.
unfoldable pub refresh : Candidate → Candidate → Candidate
unfolding seen_lt reach_min
refresh existing c = record existing {
  last_seen_ms =
      if seen_lt existing.last_seen_ms c.last_seen_ms
      then c.last_seen_ms
      else existing.last_seen_ms;
  reachability = reach_min existing.reachability c.reachability;
}

-- `upsert`.
unfoldable pub upsert : Candidate → List Candidate → List Candidate
unfolding refresh
upsert c [] = c ∷ []
upsert c (x ∷ xs) =
    let rest = upsert c xs in if x.addr == c.addr then refresh x c ∷ xs else x ∷ rest

-- `CandidateList::new`, on top of a list.
unfoldable pub upsert_all : List Candidate → List Candidate → List Candidate
unfolding upsert
upsert_all [] xs = xs
upsert_all (c ∷ cs) xs = upsert_all cs (upsert c xs)

-- `enumerate`, from an index on.
unfoldable pub enumerate_from : ℕ → List Candidate → Assoc Candidate
enumerate_from i [] = []
enumerate_from i (c ∷ cs) = (i, c) ∷ enumerate_from (i + 1) cs

-- `sort_by_key` on `Reverse(seen)`.
unfoldable pub fresher : ℕ × Option ℕ → ℕ × Option ℕ → Bool
unfolding seen_lt
fresher a b = seen_lt b.1 a.1

-- The LAN candidates by index, the most recently seen first.
unfoldable pub by_age : List Candidate → List (ℕ × Option ℕ)
unfolding fresher sort_by is_lan
by_age cs =
    sort_by fresher
      (map (λ e. (e.0, e.1.last_seen_ms)) (keep_if (λ e. is_lan e.1) (enumerate_from 0 cs)))

-- The indices that `prune_lan` drops.
unfoldable pub doomed : List Candidate → List ℕ
unfolding by_age
doomed cs = map (λ e. e.0) (drop max_lan_candidates (by_age cs))

-- `prune_lan`.
unfoldable pub prune_lan : List Candidate → List Candidate
unfolding doomed enumerate_from is_lan
prune_lan cs =
    if leb (length (keep_if is_lan cs)) max_lan_candidates
    then cs
    else map (λ e. e.1)
        (keep_if (λ e. not (any_of (λ i. i == e.0) (doomed cs))) (enumerate_from 0 cs))

-- `refresh_lan`.
unfoldable pub refresh_lan : List ℕ → ℕ → List Candidate → List Candidate
unfolding prune_lan upsert_all
refresh_lan discovered now_ms cs =
    prune_lan (upsert_all (map (λ a. seen_at now_ms (lan_candidate a)) discovered) cs)

-- `set_tailnet`.
unfoldable pub set_tailnet : Option ℕ → ℕ → List Candidate → List Candidate
unfolding upsert is_lan
set_tailnet addr now_ms cs =
    let kept = keep_if is_lan cs in
    elim addr [ none ↦ kept | some a ↦ upsert (seen_at now_ms (tailnet_candidate a)) kept ]

-- The comparison of `dial_order`.
unfoldable pub dial_before : Candidate → Candidate → Bool
unfolding seen_lt
dial_before a b = elim a.reachability [
  | lan ↦ elim b.reachability [ lan ↦ seen_lt b.last_seen_ms a.last_seen_ms | tailnet ↦ true ]
  | tailnet ↦ elim b.reachability [ lan ↦ false | tailnet ↦ seen_lt b.last_seen_ms a.last_seen_ms ]
]

-- `dial_order`.
unfoldable pub dial_order : List Candidate → List Candidate
unfolding sort_by dial_before
dial_order cs = sort_by dial_before cs
