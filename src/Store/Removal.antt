-- ===== src/Store/Removal.antt =====
-- What `Store::delete` leaves behind: a tombstone that can be looked up, and no live copy.
use clipse.Prelude.{
  ℕ, ◌≡◌, refl, Bool, true, false, not, ◌&&◌, List, [], ◌∷◌, ◌==◌, none, some, arith, All, any_of,
  find_first, Bool-cases, inl, inr,
}
use clipse.Core.Id.{ClipId}
use clipse.Core.Hlc.{Hlc}
use clipse.Store.Tables.{Row, Store, ok, is_live_copy, update_where, bury, delete}
use clipse.Store.Queries.{into_clip, get, find_by_hash, lookup_by_hash}
use clipse.Store.Invariant.{Apart, IsSound}

All-find_first :
    (P : Row → Type 0) (test : Row → Bool) (rs : List Row) (r : Row)
    → All P rs
    → find_first test rs ≡ some r
    → P r
All-find_first P test [] r a f = cc
All-find_first P test (x ∷ rs) r a f = elim (Bool-cases (test x)) [
  | inl e ↦ ground (arith, a.0)
  | inr e ↦ All-find_first P test rs r a.1 (rw (e, find_first) at f)
]

found→any :
    (test : Row → Bool) (rs : List Row) (r : Row)
    → find_first test rs ≡ some r
    → any_of test rs ≡ true
found→any test [] r f = cc
found→any test (x ∷ rs) r f = ground (arith, found→any test rs r)

module _ (now : ℕ) (id : ClipId) (hlc : Hlc) where
  -- The rows after the UPDATE.
  abbrev buried : List Row → List Row
  buried = update_where (λ r. r.id == id && not r.deleted) (bury now hlc)

  find-buried :
      (rs : List Row) (r : Row)
      → find_first (λ q. q.id == id) rs ≡ some r
      → r.deleted ≡ false
      → find_first (λ q. q.id == id) (buried rs) ≡ some (bury now hlc r)
  unfolding update_where bury
  find-buried [] r f l = cc
  find-buried (x ∷ rs) r f l = ground (arith, find-buried rs r)

  any_live :
      (rs : List Row) (r : Row)
      → find_first (λ q. q.id == id) rs ≡ some r
      → r.deleted ≡ false
      → any_of (λ q. q.id == id && not q.deleted) rs ≡ true
  any_live [] r f l = cc
  any_live (x ∷ rs) r f l = ground (arith, any_live rs r)

  none_live_after : (rs : List Row) → any_of (λ q. q.id == id && not q.deleted) (buried rs) ≡ false
  unfolding update_where bury
  none_live_after [] = refl
  none_live_after (x ∷ rs) = ground (arith, none_live_after rs)

  -- No other row is a live copy of what a live row held.
  others_dead :
      (r : Row) (rs : List Row)
      → r.deleted ≡ false
      → All (Apart r) rs
      → find_first (is_live_copy r.hash) (buried rs) ≡ none
  unfolding update_where bury is_live_copy
  others_dead r [] l a = refl
  others_dead r (x ∷ rs) l a = ground (arith, a.0, others_dead r rs l a.1)

  copy_gone :
      (rs : List Row) (r : Row)
      → IsSound rs
      → find_first (λ q. q.id == id) rs ≡ some r
      → r.deleted ≡ false
      → find_first (is_live_copy r.hash) (buried rs) ≡ none
  unfolding update_where bury is_live_copy
  copy_gone [] r s f l = cc
  copy_gone (x ∷ rs) r s f l = elim (Bool-cases (x.id == id)) [
    | inl e ↦ ground (arith, others_dead r rs l)
    | inr e ↦
        let found : find_first (λ q. q.id == id) rs ≡ some r = ground arith in
        ground (
          arith,
          copy_gone rs r s.1 found l,
          All-find_first (Apart x) (λ q. q.id == id) rs r s.0 found,
        )
  ]

  -- Deleting a live clip turns its row into a tombstone with the time of the deletion, which keeps
  -- the rest of the clip and is found by id; no live copy of its content is left; and deleting it
  -- once more succeeds and changes nothing.
  pub delete-get :
      (s : Store) (r : Row)
      → IsSound s.rows
      → find_first (λ q. q.id == id) s.rows ≡ some r
      → r.deleted ≡ false
      → ((delete now id hlc s).1 ≡ ok tt)
        × (get id (delete now id hlc s).0
            ≡ some (record (into_clip r) { deleted = true; hlc = hlc }))
        × (lookup_by_hash r.hash false (delete now id hlc s).0 ≡ none)
        × ((later : ℕ) (hlc' : Hlc)
            → delete later id hlc' (delete now id hlc s).0 ≡ ((delete now id hlc s).0, ok tt))
  unfolding delete get lookup_by_hash find_by_hash into_clip bury
  delete-get s r sound f l =
      let live = any_live s.rows r f l in
      let found = find-buried s.rows r f l in
      let dead = none_live_after s.rows in
      let known = found→any (λ q. q.id == id) (buried s.rows) (bury now hlc r) found in
      let gone = copy_gone s.rows r sound f l in
      (ground arith, ground arith, ground arith, λ later hlc'. ground arith)
