-- ===== src/Store/Blobs/Quota.antt =====
-- What the quota promises: it is met, or only protected blobs are left.
use mathlib.Core.List.{Permᴰ}
use clipse.Prelude.{
  ℕ, ◌+◌, ◌≤◌, ◌≡◌, refl, sym, ap, subst, ◌⊎◌, inl, inr, Bool, true, false, not, [], ◌∷◌, some,
  arith, All, ◌==◌, leb, ltb, if◌then◌else◌, any_of, keep_if, Bool-cases,
}
use clipse.Prelude.Assoc.{Assoc, IsKeyed, lookup, keep_if-IsKeyed, lookup-keep_if}
use clipse.Prelude.Sorting.{All-perm, sort_by-perm}
use clipse.Core.Id.{ContentHash}
use clipse.Store.Tables.{Store}
use clipse.Store.Blobs.{
  BlobMeta, BlobDir, QuotaReport, total_bytes, is_protected, used_before, eviction_order,
  remove_blob, evict, evict_all, enforce_blob_quota,
}
use clipse.Store.Blobs.Books.{
  InOrder, IsKeyed-perm, any_of-perm, self_found, keep_if-All, evict-InOrder,
}

module _ (s : Store) where
  -- Every blob that is not protected is still a candidate.
  abbrev Covered : Assoc BlobMeta → Assoc BlobMeta → Type 0
  Covered candidates =
      All (λ e. (if is_protected s e.0 then true else any_of (λ c. c.0 == e.0) candidates) ≡ true)

  evict-Covered :
      (c : ContentHash × BlobMeta) (candidates meta : Assoc BlobMeta)
      → Covered (c ∷ candidates) meta
      → Covered candidates (keep_if (λ e. not (e.0 == c.0)) meta)
  evict-Covered c candidates [] h = tt
  evict-Covered c candidates (e ∷ meta) h = ground (arith, evict-Covered c candidates meta h.1, h.0)

  Covered-protected :
      (meta : Assoc BlobMeta) → Covered [] meta → All (λ e. is_protected s e.0 ≡ true) meta
  Covered-protected [] h = tt
  Covered-protected (e ∷ meta) h = (ground (arith, h.0), Covered-protected meta h.1)

  -- The quota is met, or what is left is protected; and the books are right.
  abbrev Met : BlobDir × QuotaReport → Type 0
  Met (d, r) =
      (r.bytes_after ≡ total_bytes d.meta)
      × (r.bytes_after + r.bytes_evicted ≡ r.bytes_before)
      × ((r.bytes_after ≤ r.quota_bytes) ⊎ All (λ e. is_protected s e.0 ≡ true) d.meta)

  evict_all-Met :
      (candidates : Assoc BlobMeta) (d : BlobDir) (r : QuotaReport)
      → InOrder candidates d r
      → Covered candidates d.meta
      → Met (evict_all candidates (d, r))
  unfolding evict_all evict remove_blob
  evict_all-Met [] d r o h = (o.sum, o.account, inr (Covered-protected d.meta h))
  evict_all-Met (c ∷ candidates) d r o h = elim (Bool-cases (leb r.bytes_after r.quota_bytes)) [
    | inl e ↦ rw (e, evict_all) (o.sum, o.account, inl (ground arith))
    | inr e ↦
        rw (e, evict_all)
          (evict_all-Met candidates (evict c (d, r)).0 (evict c (d, r)).1
            (evict-InOrder c candidates d r o) (evict-Covered c candidates d.meta h))
  ]

  widen :
      (c : ContentHash × BlobMeta) (candidates meta : Assoc BlobMeta)
      → Covered candidates meta
      → Covered (c ∷ candidates) meta
  widen c candidates [] h = tt
  widen c candidates (e ∷ meta) h = (ground (arith, h.0), widen c candidates meta h.1)

  abbrev unprotected : ContentHash × BlobMeta → Bool
  unprotected e = not (is_protected s e.0)

  dropped :
      (e : ContentHash × BlobMeta) (meta : Assoc BlobMeta)
      → is_protected s e.0 ≡ true
      → keep_if unprotected (e ∷ meta) ≡ keep_if unprotected meta
  dropped e meta p = ground arith

  kept :
      (e : ContentHash × BlobMeta) (meta : Assoc BlobMeta)
      → is_protected s e.0 ≡ false
      → keep_if unprotected (e ∷ meta) ≡ e ∷ keep_if unprotected meta
  kept e meta p = ground arith

  covers : (meta : Assoc BlobMeta) → Covered (keep_if unprotected meta) meta
  covers [] = tt
  covers (e ∷ meta) = elim (Bool-cases (is_protected s e.0)) [
    | inl p ↦
        subst (λ cs. Covered cs (e ∷ meta)) (sym (dropped e meta p)) (ground arith, covers meta)
    | inr p ↦
        subst (λ cs. Covered cs (e ∷ meta)) (sym (kept e meta p))
          (ground arith, widen e (keep_if unprotected meta) meta (covers meta))
  ]

  Covered-perm :
      {xs ys : Assoc BlobMeta} (meta : Assoc BlobMeta)
      → Permᴰ xs ys
      → Covered xs meta
      → Covered ys meta
  Covered-perm [] p h = tt
  Covered-perm (e ∷ meta) p h =
      (ground (arith, any_of-perm (λ c. c.0 == e.0) p, h.0), Covered-perm meta p h.1)

  keep_if-unprotected :
      (meta : Assoc BlobMeta) → All (λ e. is_protected s e.0 ≡ false) (keep_if unprotected meta)
  keep_if-unprotected [] = tt
  keep_if-unprotected (e ∷ meta) = elim (Bool-cases (is_protected s e.0)) [
    | inl p ↦
        subst (λ cs. All (λ c. is_protected s c.0 ≡ false) cs) (sym (dropped e meta p))
          (keep_if-unprotected meta)
    | inr p ↦
        subst (λ cs. All (λ c. is_protected s c.0 ≡ false) cs) (sym (kept e meta p))
          (p, keep_if-unprotected meta)
  ]

  -- A blob that is protected is not touched by evicting others.
  evict_all-protected :
      (digest : ContentHash) (candidates : Assoc BlobMeta) (d : BlobDir) (r : QuotaReport)
      → is_protected s digest ≡ true
      → All (λ e. is_protected s e.0 ≡ false) candidates
      → IsKeyed d.files
      → lookup digest (evict_all candidates (d, r)).0.files ≡ lookup digest d.files
  unfolding evict_all evict remove_blob
  evict_all-protected digest [] d r p u k = refl
  evict_all-protected digest (c ∷ candidates) d r p u k = ground (
    arith,
    u.0,
    lookup-keep_if (λ e. not (e.0 == c.0)) digest d.files k,
    ap (is_protected s),
    evict_all-protected digest candidates (evict c (d, r)).0 (evict c (d, r)).1 p u.1
        (keep_if-IsKeyed (λ e. not (e.0 == c.0)) d.files k),
  )

  InOrder-start :
      (quota : ℕ) (d : BlobDir)
      → IsKeyed d.meta
      → InOrder (eviction_order s d) d (record {
        quota_bytes = quota;
        bytes_before = total_bytes d.meta;
        bytes_after = total_bytes d.meta;
        blobs_evicted = 0;
        bytes_evicted = 0;
      })
  unfolding eviction_order
  InOrder-start quota d k =
      let order = sort_by-perm used_before (keep_if unprotected d.meta) in
      record {
        keyed = k;
        sum = refl;
        account = omega arith;
        distinct = IsKeyed-perm order (keep_if-IsKeyed unprotected d.meta k);
        found =
            All-perm (λ c. lookup c.0 d.meta ≡ some c.1) order
              (keep_if-All (λ c. lookup c.0 d.meta ≡ some c.1) unprotected d.meta
                (self_found d.meta k));
      }

  evict_all-limits :
      (candidates : Assoc BlobMeta) (d : BlobDir) (r : QuotaReport)
      → ((evict_all candidates (d, r)).1.quota_bytes ≡ r.quota_bytes)
        × ((evict_all candidates (d, r)).1.bytes_before ≡ r.bytes_before)
  unfolding evict_all evict
  evict_all-limits [] d r = (refl, refl)
  evict_all-limits (c ∷ candidates) d r =
      ground (arith, evict_all-limits candidates (evict c (d, r)).0 (evict c (d, r)).1)

  -- What a pass with this quota on this directory promises of its result.
  abbrev pub Fulfils : ℕ → BlobDir → BlobDir × QuotaReport → Type 0
  Fulfils quota d (d', r) =
      (r.bytes_after ≡ total_bytes d'.meta)
      × (r.bytes_after + r.bytes_evicted ≡ total_bytes d.meta)
      × ((r.bytes_after ≤ quota) ⊎ All (λ e. is_protected s e.0 ≡ true) d'.meta)
      × ((digest : ContentHash)
          → is_protected s digest ≡ true
          → lookup digest d'.files ≡ lookup digest d.files)

  abbrev start : ℕ → BlobDir → QuotaReport
  start quota d = record {
    quota_bytes = quota;
    bytes_before = total_bytes d.meta;
    bytes_after = total_bytes d.meta;
    blobs_evicted = 0;
    bytes_evicted = 0;
  }

  evict_all-Fulfils :
      (quota : ℕ) (d : BlobDir)
      → IsKeyed d.meta
      → IsKeyed d.files
      → Fulfils quota d (evict_all (eviction_order s d) (d, start quota d))
  unfolding eviction_order
  evict_all-Fulfils quota d k kf =
      let order = sort_by-perm used_before (keep_if unprotected d.meta) in
      let (sum, account, met) =
        evict_all-Met (eviction_order s d) d (start quota d) (InOrder-start quota d k)
          (Covered-perm d.meta order (covers d.meta)) in
      let (q, b) = evict_all-limits (eviction_order s d) d (start quota d) in
      (
        sum,
        omega arith,
        elim met [ inl h ↦ inl (omega arith) | inr h ↦ inr h ],
        λ digest p.
            evict_all-protected digest (eviction_order s d) d (start quota d) p
              (All-perm (λ e. is_protected s e.0 ≡ false) order (keep_if-unprotected d.meta)) kf,
      )

  -- One pass of the quota. Afterwards the report states the size of what is left and of what was
  -- evicted; the quota is met or every blob that is left belongs to a live pinned clip; and the file
  -- of every blob that belongs to a live pinned clip is as it was. The digests of the rows and of the
  -- files are taken to be distinct, which the primary key and the file system provide.
  pub enforce_blob_quota-Fulfils :
      (quota : ℕ) (d : BlobDir)
      → IsKeyed d.meta
      → IsKeyed d.files
      → Fulfils quota d (enforce_blob_quota quota s d)
  unfolding enforce_blob_quota
  enforce_blob_quota-Fulfils quota d k kf = elim (Bool-cases (ltb quota (total_bytes d.meta))) [
    | inl e ↦ rw (e, enforce_blob_quota) (evict_all-Fulfils quota d k kf)
    | inr e ↦ rw (e, enforce_blob_quota) (refl, omega arith, inl (ground arith), λ digest p. refl)
  ]
