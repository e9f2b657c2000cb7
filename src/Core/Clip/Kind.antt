-- ===== src/Core/Clip/Kind.antt =====
-- The headline kind of a clip is that of its richest representation.
use mathlib.Core.List.{Memᴰ}
use clipse.Prelude.{◌≤◌, ◌≡◌, refl, ◌⊎◌, inl, inr, List, [], ◌∷◌, All, arith, subst}
use clipse.Core.Clip.Format.{kind, display_rank}
use clipse.Core.Clip.{Payload, richer, max_by_rank, headline_kind}

-- Where a maximum comes from, and what it is above.
abbrev Richest : Payload → List Payload → Type 0
Richest best ps = Memᴰ best ps × All (λ p. display_rank p.format ≤ display_rank best.format) ps

skip_second {ℓ} : {A : Type ℓ} {x b p : A} {ps : List A} → Memᴰ x (b ∷ ps) → Memᴰ x (b ∷ p ∷ ps)
skip_second (Memᴰ.head e) = Memᴰ.head e
skip_second (Memᴰ.tail m) = Memᴰ.tail (Memᴰ.tail m)

-- The better of two, and its place in front of the rest.
Richest-widen :
    (best p next m : Payload) (ps : List Payload)
    → ((next ≡ p) × (display_rank best.format ≤ display_rank p.format))
      ⊎ ((next ≡ best) × (display_rank p.format ≤ display_rank best.format))
    → Richest m (next ∷ ps)
    → Richest m (best ∷ p ∷ ps)
Richest-widen best p next m ps (inl (e, le)) r =
    let (mem, (first, rest)) = subst (λ n. Richest m (n ∷ ps)) e r in
    (Memᴰ.tail mem, (omega arith, (first, rest)))
Richest-widen best p next m ps (inr (e, le)) r =
    let (mem, (first, rest)) = subst (λ n. Richest m (n ∷ ps)) e r in
    (skip_second mem, (first, (omega arith, rest)))

max_by_rank-Richest :
    (best : Payload) (ps : List Payload) → Richest (max_by_rank best ps) (best ∷ ps)
unfolding max_by_rank richer
max_by_rank-Richest best [] = (Memᴰ.head refl, (omega arith, tt))
max_by_rank-Richest best (p ∷ ps) =
    Richest-widen best p (richer best p) _ ps (ground arith)
      (max_by_rank-Richest (richer best p) ps)

-- The headline kind of at least one payload is the kind of one of them, and none of them has a
-- higher display rank than that one.
pub headline_kind-Richest :
    (p : Payload) (ps : List Payload)
    → (best : Payload) × (headline_kind (p ∷ ps) ≡ kind best.format)
      × Memᴰ best (p ∷ ps)
      × All (λ q. display_rank q.format ≤ display_rank best.format) (p ∷ ps)
unfolding headline_kind
headline_kind-Richest p ps = let r = max_by_rank-Richest p ps in (max_by_rank p ps, refl, r.0, r.1)
