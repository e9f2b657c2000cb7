-- ===== src/Daemon/Session/Rows.antt =====
-- The row of one content in the store, and what a pushed copy makes of it.
use clipse.Prelude.{
  ℕ, ◌≡◌, refl, ap, ◌∙◌, Bool, true, false, not, List, [], ◌∷◌, Option, none, some, arith, All,
  Bool-cases, inl, inr, ◌++◌, if◌then◌else◌, ◌==◌, ◌&&◌, any_of, find_first,
}
use clipse.Core.Id.{ClipId, ContentHash}
use clipse.Core.Hlc.{Hlc, later}
use clipse.Core.Clip.{Clip}
use clipse.Store.Tables.{Row, Store, ok, is_live_copy, update_where, set_pinned, delete, bury}
use clipse.Store.Queries.{get, find_by_hash, lookup_by_hash, into_clip}
use clipse.Daemon.Session.{update_metadata_of}
use clipse.Daemon.Session.Newest.{newer}

-- Rows of another id and other content.
abbrev pub Others : ClipId → ContentHash → List Row → Type 0
Others id hash rs = All (λ o. ((o.id == id) ≡ false) × ((o.hash == hash) ≡ false)) rs

-- The row stands in the table, and no other row has its id or its content.
abbrev pub IsOnly : Row → List Row → Type 0
IsOnly r rows =
    (before : List Row) × (after : List Row) × (rows ≡ before ++ r ∷ after)
    × Others r.id r.hash before
    × Others r.id r.hash after

Others-none :
    (id : ClipId) (hash : ContentHash) (rs : List Row)
    → Others id hash rs
    → find_first (is_live_copy hash) rs ≡ none
unfolding is_live_copy
Others-none id hash [] o = refl
Others-none id hash (q ∷ rs) o = ground (arith, Others-none id hash rs o.1)

live : Row → Option Row
live r = if r.deleted then none else some r

found :
    (r : Row) (before after : List Row)
    → Others r.id r.hash before
    → Others r.id r.hash after
    → (find_first (λ q. q.hash == r.hash) (before ++ r ∷ after) ≡ some r)
      × (find_first (λ q. q.id == r.id) (before ++ r ∷ after) ≡ some r)
      × (any_of (λ q. q.id == r.id) (before ++ r ∷ after) ≡ true)
      × (find_first (is_live_copy r.hash) (before ++ r ∷ after) ≡ live r)
unfolding is_live_copy live
found r [] after o p = ground (arith, Others-none r.id r.hash after p)
found r (q ∷ before) after o p = ground (arith, found r before after o.1 p)

found-live :
    (r : Row) (before after : List Row)
    → Others r.id r.hash before
    → r.deleted ≡ false
    → any_of (λ q. q.id == r.id && not q.deleted) (before ++ r ∷ after) ≡ true
found-live r [] after o d = ground arith
found-live r (q ∷ before) after o d = ground (arith, found-live r before after o.1 d)

Others-dead :
    (id : ClipId) (hash : ContentHash) (rs : List Row)
    → Others id hash rs
    → any_of (λ q. q.id == id && not q.deleted) rs ≡ false
Others-dead id hash [] o = refl
Others-dead id hash (q ∷ rs) o = ground (arith, Others-dead id hash rs o.1)

found-dead :
    (r : Row) (before after : List Row)
    → Others r.id r.hash before
    → Others r.id r.hash after
    → r.deleted ≡ true
    → any_of (λ q. q.id == r.id && not q.deleted) (before ++ r ∷ after) ≡ false
found-dead r [] after o p d = ground (arith, Others-dead r.id r.hash after p)
found-dead r (q ∷ before) after o p d = ground (arith, found-dead r before after o.1 p d)

-- An update that only reaches rows of this id.
update-Others :
    (id : ClipId) (hash : ContentHash) (test : Row → Bool) (change : Row → Row) (rs : List Row)
    → ((q : Row) → (q.id == id) ≡ false → test q ≡ false)
    → Others id hash rs
    → update_where test change rs ≡ rs
unfolding update_where
update-Others id hash test change [] t o = refl
update-Others id hash test change (q ∷ rs) t o =
    ground (arith, t q o.0.0, update-Others id hash test change rs t o.1)

update-only :
    (r : Row) (test : Row → Bool) (change : Row → Row) (before after : List Row)
    → ((q : Row) → (q.id == r.id) ≡ false → test q ≡ false)
    → test r ≡ true
    → Others r.id r.hash before
    → Others r.id r.hash after
    → update_where test change (before ++ r ∷ after) ≡ before ++ change r ∷ after
unfolding update_where
update-only r test change [] after t h o p =
    ground (arith, update-Others r.id r.hash test change after t p)
update-only r test change (q ∷ before) after t h o p =
    ground (arith, t q o.0.0, update-only r test change before after t h o.1 p)

-- What a clip of the same content makes of the row, if it is newer: its pin and time are taken, a tombstone
-- buries a live row, and a buried row stays buried.
unfoldable pub merged : ℕ → Clip → Row → Row
unfolding bury
merged now c r =
    let repinned : Row = record r { pinned = c.pinned; hlc = c.hlc } in
    if later c.hlc r.hlc
    then (if c.deleted && not r.deleted then bury now c.hlc repinned else repinned)
    else r

pub merged-older : (now : ℕ) (c : Clip) (r : Row) → later c.hlc r.hlc ≡ false → merged now c r ≡ r
unfolding merged
merged-older now c r h = rw (h) refl

-- Merging keeps what a row is.
pub merged-same :
    (now : ℕ) (c : Clip) (r : Row) → ((merged now c r).id ≡ r.id) × ((merged now c r).hash ≡ r.hash)
unfolding merged bury
merged-same now c r = (ground arith, ground arith)

set_pinned-only :
    (r : Row) (before after : List Row) (pinned : Bool) (hlc : Hlc) (s : Store)
    → s.rows ≡ before ++ r ∷ after
    → Others r.id r.hash before
    → Others r.id r.hash after
    → set_pinned r.id pinned hlc s
      ≡ (record s { rows = before ++ record r { pinned = pinned; hlc = hlc } ∷ after }, ok tt)
unfolding set_pinned
set_pinned-only r before after pinned hlc s e o p =
    let there = ap (λ rs. any_of (λ q. q.id == r.id) rs) e ∙ (found r before after o p).2 in
    let change : Row → Row = λ q. record q { pinned = pinned; hlc = hlc } in
    rw (there) (
      ap (λ rs. (record s { rows = rs }, ok tt))
        (ap (update_where (λ q. q.id == r.id) change) e
          ∙ update-only r (λ q. q.id == r.id) change before after (λ q n. n) (ground arith) o p))

delete-only :
    (r : Row) (before after : List Row) (now : ℕ) (hlc : Hlc) (s : Store)
    → s.rows ≡ before ++ r ∷ after
    → Others r.id r.hash before
    → Others r.id r.hash after
    → ((delete now r.id hlc s).1 ≡ ok tt)
      × ((delete now r.id hlc s).0.rows
          ≡ before ++ (if r.deleted then r else bury now hlc r) ∷ after)
unfolding delete
delete-only r before after now hlc s e o p = elim (Bool-cases r.deleted) [
  | inl dead ↦
      let none_live =
        ap (λ rs. any_of (λ q. q.id == r.id && not q.deleted) rs) e
        ∙ found-dead r before after o p dead in
      let there = ap (λ rs. any_of (λ q. q.id == r.id) rs) e ∙ (found r before after o p).2 in
      ground (arith, none_live, there, e)
  | inr alive ↦
      let one_live =
        ap (λ rs. any_of (λ q. q.id == r.id && not q.deleted) rs) e
        ∙ found-live r before after o alive in
      let test : Row → Bool = λ q. q.id == r.id && not q.deleted in
      let updated =
        ap (update_where test (bury now hlc)) e
        ∙ update-only r test (bury now hlc) before after (λ q n. ground arith) (ground arith) o p in
      rw (one_live, alive) (refl, updated)
]

pub update-merged :
    (r : Row) (before after : List Row) (now : ℕ) (c : Clip) (s : Store)
    → s.rows ≡ before ++ r ∷ after
    → Others r.id r.hash before
    → Others r.id r.hash after
    → later c.hlc r.hlc ≡ true
    → ((update_metadata_of now r.id c.pinned c.deleted c.hlc s).1 ≡ ok tt)
      × ((update_metadata_of now r.id c.pinned c.deleted c.hlc s).0.rows
          ≡ before ++ merged now c r ∷ after)
unfolding update_metadata_of merged
update-merged r before after now c s e o p newer =
    let repinned : Row = record r { pinned = c.pinned; hlc = c.hlc } in
    let pin = set_pinned-only r before after c.pinned c.hlc s e o p in
    let bury_it =
      delete-only repinned before after now c.hlc (record s { rows = before ++ repinned ∷ after })
        refl o p in
    ground (arith, pin, bury_it)

pub lookup-only :
    (r : Row) (before after : List Row) (s : Store)
    → s.rows ≡ before ++ r ∷ after
    → Others r.id r.hash before
    → Others r.id r.hash after
    → (find_by_hash r.hash true s ≡ some r) × (lookup_by_hash r.hash true s ≡ some (into_clip r))
unfolding find_by_hash lookup_by_hash get live
lookup-only r before after s e o p =
    let at = found r before after o p in
    let by_hash = ap (find_first (λ q. q.hash == r.hash)) e ∙ at.0 in
    let by_id = ap (find_first (λ q. q.id == r.id)) e ∙ at.1 in
    let by_live = ap (find_first (is_live_copy r.hash)) e ∙ at.3 in
    let row : find_by_hash r.hash true s ≡ some r = ground (arith, by_hash, by_live) in
    (row, ground (arith, row, by_id))

pub carried :
    (r r' : Row) (rs : List Row)
    → r'.id ≡ r.id
    → r'.hash ≡ r.hash
    → Others r.id r.hash rs
    → Others r'.id r'.hash rs
carried r r' [] i h o = tt
carried r r' (q ∷ rs) i h o = ground (arith, carried r r' rs i h o.1)

pub merged-newer : (now : ℕ) (c : Clip) (r : Row) → (merged now c r).hlc ≡ newer r.hlc c.hlc
unfolding merged newer bury
merged-newer now c r = ground arith

pub merged-pinned :
    (pins : Hlc → Bool) (now : ℕ) (c : Clip) (r : Row)
    → c.pinned ≡ pins c.hlc
    → r.pinned ≡ pins r.hlc
    → (merged now c r).pinned ≡ pins (merged now c r).hlc
unfolding merged bury
merged-pinned pins now c r h k = ground arith

pub merged-deleted :
    (now : ℕ) (c : Clip) (r : Row) → r.deleted ≡ true → (merged now c r).deleted ≡ true
unfolding merged bury
merged-deleted now c r d = ground arith
