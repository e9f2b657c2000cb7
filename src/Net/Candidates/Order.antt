-- ===== src/Net/Candidates/Order.antt =====
-- The order in which the addresses of a peer are dialled.
use mathlib.Core.List.{Permᴰ}
use clipse.Prelude.{List, arith}
use clipse.Prelude.Sorting.{IsOrder, IsSorted, sort_by-perm, sort_by-IsSorted}
use clipse.Net.Candidates.{Candidate, seen_lt, dial_before, dial_order}

dial_before-IsOrder : IsOrder dial_before
unfolding dial_before seen_lt
dial_before-IsOrder = record {
  asymm = λ a b h. ground arith;
  neg_trans = λ a b c h k. ground arith;
}

-- Dialling tries every address that is known, each as often as it is listed: a LAN address before
-- any tailnet address, and of two addresses of a kind never one that was seen earlier before one
-- that was seen later.
pub dial_order-IsSorted :
    (cs : List Candidate) → Permᴰ cs (dial_order cs) × IsSorted dial_before (dial_order cs)
unfolding dial_order
dial_order-IsSorted cs =
    (sort_by-perm dial_before cs, sort_by-IsSorted dial_before dial_before-IsOrder cs)
