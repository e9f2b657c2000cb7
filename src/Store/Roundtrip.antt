-- ===== src/Store/Roundtrip.antt =====
-- What is stored is what is read back: a new clip survives its way through the tables.
use clipse.Prelude.{
  ◌≡◌, refl, Bool, true, false, List, [], ◌∷◌, ◌++◌, map, ◌==◌, none, some, arith, All, any_of,
  find_first, ap,
}
use clipse.Prelude.Bytes.{Bytes, bytes_eq}
use clipse.Prelude.Sorting.{sort_by, insert_by, IsSorted}
use clipse.Core.Id.{ContentHash}
use clipse.Core.Clip.Format.{
  ClipKind, text_kind, html_kind, rtf_kind, image_kind, files_kind, other_kind, IsCanonical, as_str,
  from_label-label,
}
use clipse.Core.Clip.{Payload, Clip, hash_matches, label_lt, inline_bytes}
use clipse.Store.Tables.{
  Row, Store, ok, inserted, payload_row, clip_row, is_live_copy, has_repeated_label, insert_new,
  insert,
}
use clipse.Store.Queries.{parse_kind, into_payload, row_label_lt, into_clip, get}

parse_kind-as_str : (k : ClipKind) → parse_kind (as_str k) ≡ k
unfolding parse_kind as_str bytes_eq
parse_kind-as_str text_kind = refl
parse_kind-as_str html_kind = refl
parse_kind-as_str rtf_kind = refl
parse_kind-as_str image_kind = refl
parse_kind-as_str files_kind = refl
parse_kind-as_str other_kind = refl

into_payload-payload_row : (p : Payload) → IsCanonical p.format → into_payload (payload_row p) ≡ p
unfolding into_payload payload_row inline_bytes
into_payload-payload_row p h = ground (arith, from_label-label p.format h)

sort_by_sorted {ℓ} :
    {A : Type ℓ} (lt : A → A → Bool) (xs : List A) → IsSorted lt xs → sort_by lt xs ≡ xs
unfolding sort_by insert_by
sort_by_sorted lt [] s = refl
sort_by_sorted lt (x ∷ []) s = refl
sort_by_sorted lt (x ∷ y ∷ ys) s = rw (sort_by_sorted lt (y ∷ ys) s.1, s.0.0)

All-rows :
    (p : Payload) (ps : List Payload)
    → All (λ q. label_lt q p ≡ false) ps
    → All (λ q. row_label_lt q (payload_row p) ≡ false) (map payload_row ps)
unfolding label_lt row_label_lt payload_row
All-rows p [] a = tt
All-rows p (q ∷ ps) a = (a.0, All-rows p ps a.1)

rows-IsSorted :
    (ps : List Payload) → IsSorted label_lt ps → IsSorted row_label_lt (map payload_row ps)
rows-IsSorted [] s = tt
rows-IsSorted (p ∷ ps) s = (All-rows p ps s.0, rows-IsSorted ps s.1)

map-into_payload :
    (ps : List Payload)
    → All (λ p. IsCanonical p.format) ps
    → map into_payload (map payload_row ps) ≡ ps
map-into_payload [] h = refl
map-into_payload (p ∷ ps) h = cc (into_payload-payload_row p h.0, map-into_payload ps h.1)

-- A clip that `Clip::new` could have made is what its row is read as.
into_clip-clip_row :
    (c : Clip)
    → IsSorted label_lt c.payloads
    → All (λ p. IsCanonical p.format) c.payloads
    → into_clip (clip_row c) ≡ c
unfolding into_clip clip_row
into_clip-clip_row c s h = rw (
  sort_by_sorted row_label_lt (map payload_row c.payloads) (rows-IsSorted c.payloads s),
  map-into_payload c.payloads h,
  parse_kind-as_str c.kind,
)

find-appended :
    (rs : List Row) (r : Row)
    → any_of (λ q. q.id == r.id) rs ≡ false
    → find_first (λ q. q.id == r.id) (rs ++ r ∷ []) ≡ some r
find-appended [] r h = ground arith
find-appended (x ∷ rs) r h = ground (arith, find-appended rs r)

find-row :
    (rs : List Row) (c : Clip)
    → any_of (λ q. q.id == c.id) rs ≡ false
    → find_first (λ q. q.id == c.id) (rs ++ clip_row c ∷ []) ≡ some (clip_row c)
unfolding clip_row
find-row rs c h = find-appended rs (clip_row c) h

-- A clip that is not forged, whose id is free, whose content no live row has and whose formats are
-- distinct, canonical and in the order of their labels, is inserted, and `get` returns exactly it.
pub get-insert :
    (digest : Bytes → ContentHash) (body_text : Clip → Bytes) (c : Clip) (s : Store)
    → hash_matches digest c ≡ true
    → find_first (is_live_copy c.hash) s.rows ≡ none
    → any_of (λ r. r.id == c.id) s.rows ≡ false
    → has_repeated_label (clip_row c).payloads ≡ false
    → IsSorted label_lt c.payloads
    → All (λ p. IsCanonical p.format) c.payloads
    → ((insert digest body_text c s).1 ≡ ok (inserted c.id))
      × (get c.id (insert digest body_text c s).0 ≡ some c)
unfolding insert insert_new get
get-insert digest body_text c s m f i l o h =
    let found = find-row s.rows c i in
    (
      rw (m, insert, f, i, l) refl,
      rw (m, insert, f, i, l, get, found) (ap some (into_clip-clip_row c o h)),
    )
