-- ===== src/Core/Clip/Identity.antt =====
-- The identity of a clip: its hash covers every representation, whatever order they came in.
use mathlib.Core.List.{Permᴰ}
use clipse.Prelude.{
  ◌≡◌, ◌≢◌, refl, ap, sym, ◌∙◌, ◌⊎◌, inl, inr, true, false, List, [], ◌∷◌, map, some, All, arith,
  Bool-cases, ==_iff,
}
use clipse.Prelude.Bytes.{Bytes, bytes_lt_asymm, bytes_lt_neg_trans, bytes_lt_total}
use clipse.Prelude.Sorting.{
  IsOrder, IsSorted, IsDistinct, sort_by-perm, sort_by-IsSorted, sort_by_of_perm, length-perm,
}
use clipse.Core.Id.{ClipId, ContentHash}
use clipse.Core.Hlc.{Hlc}
use clipse.Core.Hash.{as_bytes, encoding, of_parts}
use clipse.Core.Hash.Injective.{IsEncodable, encoding_inj}
use clipse.Core.Clip.Format.{ClipKind, label}
use clipse.Core.Clip.{
  Payload, Clip, ClipSource, label_lt, compute_hash, hash_matches, assemble, new_clip,
}

label_lt-IsOrder : IsOrder label_lt
unfolding label_lt
label_lt-IsOrder = record {
  asymm = λ a b. bytes_lt_asymm (label a.format) (label b.format);
  neg_trans = λ a b c. bytes_lt_neg_trans (label a.format) (label b.format) (label c.format);
}

-- No two payloads have the same format label.
abbrev pub HasDistinctLabels : List Payload → Type 0
HasDistinctLabels [] = Unit
HasDistinctLabels (p ∷ ps) = All (λ q. label p.format ≢ label q.format) ps × HasDistinctLabels ps

label_lt_apart :
    (p q : Payload)
    → label p.format ≢ label q.format
    → (label_lt p q ≡ true) ⊎ (label_lt q p ≡ true)
unfolding label_lt
label_lt_apart p q h = elim (Bool-cases (label_lt p q)) [
  | inl e ↦ inl e
  | inr e ↦ elim (Bool-cases (label_lt q p)) [
    | inl k ↦ inr k
    | inr k ↦ absurd (h (bytes_lt_total (label p.format) (label q.format) e k))
  ]
]

apart-All :
    (p : Payload) (ps : List Payload)
    → All (λ q. label p.format ≢ label q.format) ps
    → All (λ q. (label_lt p q ≡ true) ⊎ (label_lt q p ≡ true)) ps
apart-All p [] h = tt
apart-All p (q ∷ qs) h = (label_lt_apart p q h.0, apart-All p qs h.1)

IsDistinct-of_labels : (ps : List Payload) → HasDistinctLabels ps → IsDistinct label_lt ps
IsDistinct-of_labels [] h = tt
IsDistinct-of_labels (p ∷ ps) h = (apart-All p ps h.0, IsDistinct-of_labels ps h.1)

-- The label and the digest of each payload, as the hash covers them.
abbrev pub parts : List Payload → List (Bytes × Bytes)
parts = map (λ p. (label p.format, as_bytes p.digest))

module _ (digest : Bytes → ContentHash) where
  module _ (build_preview : List Payload → ClipKind → Bytes) (id : ClipId) (source : ClipSource)
      (hlc : Hlc) where
    -- `Clip::new` gives the same clip whatever order the platform enumerates the formats in, if
    -- each format label occurs once.
    pub new_clip_of_perm :
        (ps qs : List Payload)
        → Permᴰ ps qs
        → HasDistinctLabels ps
        → new_clip digest build_preview id ps source hlc
          ≡ new_clip digest build_preview id qs source hlc
    unfolding new_clip
    new_clip_of_perm [] [] p d = refl
    new_clip_of_perm [] (q ∷ qs) p d = absurd (omega (arith, length-perm p))
    new_clip_of_perm (x ∷ ps) [] p d = absurd (omega (arith, length-perm p))
    new_clip_of_perm (x ∷ ps) (q ∷ qs) p d =
        ap (λ l. some (assemble digest build_preview id source hlc l))
          (sort_by_of_perm label_lt label_lt-IsOrder p (IsDistinct-of_labels (x ∷ ps) d))

    -- On at least one payload `Clip::new` returns a clip whose hash is that of its payloads, which
    -- are the given ones in the order of their labels.
    pub new_clip_lem :
        (p : Payload) (ps : List Payload)
        → (c : Clip) × (new_clip digest build_preview id (p ∷ ps) source hlc ≡ some c)
          × (hash_matches digest c ≡ true)
          × Permᴰ (p ∷ ps) c.payloads
          × IsSorted label_lt c.payloads
          × (c.deleted ≡ false)
    unfolding new_clip hash_matches
    new_clip_lem p ps = (
      _,
      refl,
      (==_iff _ _).1 refl,
      sort_by-perm label_lt (p ∷ ps),
      sort_by-IsSorted label_lt label_lt-IsOrder (p ∷ ps),
      refl,
    )

  -- Two clips that pass `hash_matches` under one hash have the same labels with the same digests
  -- in the same order, unless the two encodings are a collision of the digest function.
  pub hash_matches-parts :
      (c d : Clip)
      → IsEncodable (parts c.payloads)
      → IsEncodable (parts d.payloads)
      → (digest (encoding (parts c.payloads)) ≡ digest (encoding (parts d.payloads))
          → encoding (parts c.payloads) ≡ encoding (parts d.payloads))
      → hash_matches digest c ≡ true
      → hash_matches digest d ≡ true
      → c.hash ≡ d.hash
      → parts c.payloads ≡ parts d.payloads
  unfolding hash_matches compute_hash of_parts
  hash_matches-parts c d hc hd no_collision mc md e =
      encoding_inj (parts c.payloads) (parts d.payloads) hc hd
        (no_collision ((==_iff _ _).0 mc ∙ e ∙ sym ((==_iff _ _).0 md)))
