-- ===== src/Net/Candidates/Addresses.antt =====
-- Which addresses a list keeps.
use clipse.Prelude.{
  ℕ, ◌≡◌, ◌≢◌, refl, Bool, true, List, [], ◌∷◌, arith, All, ◌==◌, if◌then◌else◌, any_of,
}
use clipse.Net.Candidates.{Candidate, refresh, upsert, upsert_all}

-- Each address is listed once.
abbrev pub HasDistinctAddrs : List Candidate → Type 0
HasDistinctAddrs [] = Unit
HasDistinctAddrs (c ∷ cs) = All (λ d. d.addr ≢ c.addr) cs × HasDistinctAddrs cs

-- Whether an address is listed.
abbrev pub has_addr : ℕ → List Candidate → Bool
has_addr a cs = any_of (λ c. c.addr == a) cs

All-upsert :
    (a : ℕ) (c : Candidate) (cs : List Candidate)
    → c.addr ≢ a
    → All (λ d. d.addr ≢ a) cs
    → All (λ d. d.addr ≢ a) (upsert c cs)
unfolding upsert refresh
All-upsert a c [] h k = (h, tt)
All-upsert a c (x ∷ cs) h k = ground (arith, All-upsert a c cs h k.1)

upsert-HasDistinctAddrs :
    (c : Candidate) (cs : List Candidate) → HasDistinctAddrs cs → HasDistinctAddrs (upsert c cs)
unfolding upsert refresh
upsert-HasDistinctAddrs c [] h = (tt, tt)
upsert-HasDistinctAddrs c (x ∷ cs) h =
    ground (arith, upsert-HasDistinctAddrs c cs h.1, All-upsert x.addr c cs)

has_addr-upsert :
    (a : ℕ) (c : Candidate) (cs : List Candidate)
    → has_addr a (upsert c cs) ≡ (if c.addr == a then true else has_addr a cs)
unfolding upsert refresh
has_addr-upsert a c [] = refl
has_addr-upsert a c (x ∷ cs) = ground (arith, has_addr-upsert a c cs)

-- Folding in what was learned keeps each address once, loses none, and adds those that are new.
pub upsert_all-addrs :
    (new cs : List Candidate)
    → HasDistinctAddrs cs
    → HasDistinctAddrs (upsert_all new cs)
      × ((a : ℕ)
          → has_addr a (upsert_all new cs) ≡ (if has_addr a new then true else has_addr a cs))
unfolding upsert_all
upsert_all-addrs [] cs h = (h, λ a. refl)
upsert_all-addrs (c ∷ new) cs h =
    let rest = upsert_all-addrs new (upsert c cs) (upsert-HasDistinctAddrs c cs h) in
    (rest.0, λ a. ground (arith, rest.1 a, has_addr-upsert a c cs))
