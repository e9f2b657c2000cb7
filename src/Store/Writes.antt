-- ===== src/Store/Writes.antt =====
-- Any sequence of the writes of store.rs.
use clipse.Prelude.{
  ℕ, ◌≡◌, refl, Bool, List, [], ◌∷◌, ◌==◌, none, arith, any_of, find_first, Bool-cases,
  Option-cases, inl, inr, not, ◌&&◌,
}
use clipse.Prelude.Bytes.{Bytes}
use clipse.Core.Id.{ClipId, ContentHash}
use clipse.Core.Hlc.{Hlc}
use clipse.Core.Clip.{Clip, hash_matches}
use clipse.Store.Tables.{
  Store, clip_row, is_live_copy, has_repeated_label, bump, bury, insert_new, insert, set_pinned,
  delete, purge_tombstones,
}
use clipse.Store.Invariant.{Fades, IsSound, update-IsSound, keep_if-IsSound, append-IsSound}

pub data Write : Type 0 where
  save : Clip → Write
  pin : ClipId → Bool → Hlc → Write
  remove : ℕ → ClipId → Hlc → Write
  purge : ℕ → ℕ → Write

bump-Fades : (c : Clip) → Fades (bump c)
unfolding bump
bump-Fades c r = (refl, refl, λ e. e)

bury-Fades : (now : ℕ) (hlc : Hlc) → Fades (bury now hlc)
unfolding bury
bury-Fades now hlc r = (refl, refl, λ e. cc)

pin-Fades : (pinned : Bool) (hlc : Hlc) → Fades (λ r. record r { pinned = pinned; hlc = hlc })
pin-Fades pinned hlc r = (refl, refl, λ e. e)

insert_new-IsSound :
    (body_text : Clip → Bytes) (c : Clip) (s : Store)
    → find_first (is_live_copy c.hash) s.rows ≡ none
    → IsSound s.rows
    → IsSound (insert_new body_text c s).0.rows
unfolding insert_new clip_row
insert_new-IsSound body_text c s free sound =
    elim (Bool-cases (any_of (λ r. r.id == c.id) s.rows)) [
      | inl e ↦ rw (e, insert_new) sound
      | inr e ↦ elim (Bool-cases (has_repeated_label (clip_row c).payloads)) [
        | inl l ↦ rw (e, insert_new, l) sound
        | inr l ↦ rw (e, insert_new, l) (append-IsSound (clip_row c) s.rows e free sound)
      ]
    ]

set_pinned-IsSound :
    (id : ClipId) (pinned : Bool) (hlc : Hlc) (s : Store)
    → IsSound s.rows
    → IsSound (set_pinned id pinned hlc s).0.rows
unfolding set_pinned
set_pinned-IsSound id pinned hlc s sound = ground (
  arith,
  update-IsSound (λ r. r.id == id) (λ r. record r { pinned = pinned; hlc = hlc })
      (pin-Fades pinned hlc) s.rows sound,
)

delete-IsSound :
    (now : ℕ) (id : ClipId) (hlc : Hlc) (s : Store)
    → IsSound s.rows
    → IsSound (delete now id hlc s).0.rows
unfolding delete
delete-IsSound now id hlc s sound = ground (
  arith,
  update-IsSound (λ r. r.id == id && not r.deleted) (bury now hlc) (bury-Fades now hlc) s.rows
      sound,
)

module _ (digest : Bytes → ContentHash) (body_text : Clip → Bytes) where
  insert-IsSound :
      (c : Clip) (s : Store) → IsSound s.rows → IsSound (insert digest body_text c s).0.rows
  unfolding insert
  insert-IsSound c s sound = elim (Bool-cases (hash_matches digest c)) [
    | inr e ↦ rw (e, insert) sound
    | inl e ↦ elim (Option-cases (find_first (is_live_copy c.hash) s.rows)) [
      | inl f ↦ rw (e, insert, f) (insert_new-IsSound body_text c s f sound)
      | inr (existing, f) ↦
          rw (e, insert, f)
            (update-IsSound (λ r. r.id == existing.id) (bump c) (bump-Fades c) s.rows sound)
    ]
  ]

  -- One write, its answer dropped.
  unfoldable pub write : Write → Store → Store
  unfolding insert set_pinned delete purge_tombstones
  write (save c) s = (insert digest body_text c s).0
  write (pin id pinned hlc) s = (set_pinned id pinned hlc s).0
  write (remove now id hlc) s = (delete now id hlc s).0
  write (purge now older_than_ms) s = (purge_tombstones now older_than_ms s).0

  unfoldable pub write_all : List Write → Store → Store
  unfolding write
  write_all [] s = s
  write_all (w ∷ ws) s = write_all ws (write w s)

  write-IsSound : (w : Write) (s : Store) → IsSound s.rows → IsSound (write w s).rows
  unfolding write purge_tombstones
  write-IsSound (save c) s sound = insert-IsSound c s sound
  write-IsSound (pin id pinned hlc) s sound = set_pinned-IsSound id pinned hlc s sound
  write-IsSound (remove now id hlc) s sound = delete-IsSound now id hlc s sound
  write-IsSound (purge now older_than_ms) s sound = keep_if-IsSound _ s.rows sound

  -- Whatever is written, in whatever order, and whatever fails: the rows keep distinct ids, and no
  -- two of them are live copies of the same content.
  pub write_all-IsSound :
      (ws : List Write) (s : Store) → IsSound s.rows → IsSound (write_all ws s).rows
  unfolding write_all
  write_all-IsSound [] s sound = sound
  write_all-IsSound (w ∷ ws) s sound = write_all-IsSound ws (write w s) (write-IsSound w s sound)
