-- ===== src/Store/Invariant.antt =====
-- What every write of store.rs keeps: distinct ids, and one live copy of each content at most.
use clipse.Prelude.{
  ◌≡◌, ◌≢◌, refl, Bool, false, List, [], ◌∷◌, ◌++◌, ◌==◌, none, arith, All, keep_if, any_of,
  find_first,
}
use clipse.Store.Tables.{Row, is_live_copy, update_where}

-- Two rows that may stand in one table.
abbrev pub Apart : Row → Row → Type 0
Apart r q = (r.id ≢ q.id) × (r.deleted ≡ false → q.deleted ≡ false → r.hash ≢ q.hash)

abbrev pub IsSound : List Row → Type 0
IsSound [] = Unit
IsSound (r ∷ rs) = All (Apart r) rs × IsSound rs

-- A change that neither renames a row nor revives it.
abbrev pub Fades : (Row → Row) → Type 0
Fades change =
    (r : Row)
    → ((change r).id ≡ r.id)
      × ((change r).hash ≡ r.hash)
      × ((change r).deleted ≡ false → r.deleted ≡ false)

module _ (test : Row → Bool) (change : Row → Row) (fades : Fades change) where
  update-Apart :
      (r q : Row) (rs : List Row)
      → q.id ≡ r.id
      → q.hash ≡ r.hash
      → (q.deleted ≡ false → r.deleted ≡ false)
      → All (Apart r) rs
      → All (Apart q) (update_where test change rs)
  unfolding update_where
  update-Apart r q [] i h d a = tt
  update-Apart r q (x ∷ rs) i h d a = ground (arith, fades x, a.0, update-Apart r q rs i h d a.1)

  pub update-IsSound : (rs : List Row) → IsSound rs → IsSound (update_where test change rs)
  unfolding update_where
  update-IsSound [] s = tt
  update-IsSound (r ∷ rs) s = (
    ground (
      arith,
      fades r,
      update-Apart r r rs refl refl (λ e. e) s.0,
      update-Apart r (change r) rs (fades r).0 (fades r).1 (fades r).2 s.0,
    ),
    update-IsSound rs s.1,
  )

keep_if-Apart :
    (p : Row → Bool) (r : Row) (rs : List Row) → All (Apart r) rs → All (Apart r) (keep_if p rs)
keep_if-Apart p r [] a = tt
keep_if-Apart p r (x ∷ rs) a = ground (arith, keep_if-Apart p r rs a.1)

pub keep_if-IsSound : (p : Row → Bool) (rs : List Row) → IsSound rs → IsSound (keep_if p rs)
keep_if-IsSound p [] s = tt
keep_if-IsSound p (r ∷ rs) s = ground (arith, keep_if-IsSound p rs s.1, keep_if-Apart p r rs s.0)

append-Apart :
    (r q : Row) (rs : List Row) → Apart r q → All (Apart r) rs → All (Apart r) (rs ++ q ∷ [])
append-Apart r q [] h a = (h, tt)
append-Apart r q (x ∷ rs) h a = (a.0, append-Apart r q rs h a.1)

-- A new row may join if its id is free and no live row has its content.
pub append-IsSound :
    (q : Row) (rs : List Row)
    → any_of (λ r. r.id == q.id) rs ≡ false
    → find_first (is_live_copy q.hash) rs ≡ none
    → IsSound rs
    → IsSound (rs ++ q ∷ [])
unfolding is_live_copy
append-IsSound q [] i f s = (tt, tt)
append-IsSound q (r ∷ rs) i f s = (
  append-Apart r q rs (ground arith, λ l k e. ground arith) s.0,
  append-IsSound q rs (ground arith) (ground arith) s.1,
)
