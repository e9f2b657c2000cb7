-- ===== src/Store/Blobs/Books.antt =====
-- The accounting of the blob directory while blobs are evicted.
use mathlib.Core.List.{Permᴰ}
use clipse.Prelude.{
  ◌+◌, ◌≡◌, ◌≢◌, refl, sym, ap, ◌∙◌, subst, inl, inr, Bool, not, [], ◌∷◌, some, arith, All, ◌==◌,
  any_of, keep_if, Bool-cases,
}
use clipse.Prelude.Assoc.{Assoc, IsKeyed, lookup, keep_if-IsKeyed, lookup-keep_if}
use clipse.Prelude.Sorting.{All-perm}
use clipse.Core.Id.{ContentHash}
use clipse.Store.Blobs.{BlobMeta, BlobDir, QuotaReport, total_bytes, remove_blob, evict}

pub IsKeyed-perm : {xs ys : Assoc BlobMeta} → Permᴰ xs ys → IsKeyed xs → IsKeyed ys
IsKeyed-perm Permᴰ.nil h = tt
IsKeyed-perm (Permᴰ.cons {a = a} {b = b} {l₂ = l} e p) h =
    (subst (λ x. All (λ y. y.0 ≢ x.0) l) e (All-perm (λ y. y.0 ≢ a.0) p h.0), IsKeyed-perm p h.1)
IsKeyed-perm (Permᴰ.swap {b = b} {b' = b'} {l = l} e f) h =
    subst (λ x. IsKeyed (x ∷ b' ∷ l)) f
      (subst (λ x. IsKeyed (b ∷ x ∷ l)) e (((λ q. h.0.0 (sym q)), h.1.0), (h.0.1, h.1.1)))
IsKeyed-perm (Permᴰ.trans p q) h = IsKeyed-perm q (IsKeyed-perm p h)

keep_if-others :
    (digest : ContentHash) (meta : Assoc BlobMeta)
    → All (λ e. e.0 ≢ digest) meta
    → keep_if (λ e. not (e.0 == digest)) meta ≡ meta
keep_if-others digest [] a = refl
keep_if-others digest (e ∷ meta) a = ground (arith, keep_if-others digest meta a.1)

-- Removing a row takes its size off the sum.
total_bytes-remove :
    (digest : ContentHash) (row : BlobMeta) (meta : Assoc BlobMeta)
    → IsKeyed meta
    → lookup digest meta ≡ some row
    → total_bytes (keep_if (λ e. not (e.0 == digest)) meta) + row.size ≡ total_bytes meta
unfolding total_bytes lookup
total_bytes-remove digest row [] k h = cc
total_bytes-remove digest row (e ∷ meta) k h =
    ground (arith, total_bytes-remove digest row meta k.1, keep_if-others e.0 meta k.0)

-- The books during the loop, with the candidates that are left.
pub record InOrder (candidates : Assoc BlobMeta) (d : BlobDir) (r : QuotaReport) : Type 0 where
  pub keyed : IsKeyed d.meta
  pub sum : r.bytes_after ≡ total_bytes d.meta
  pub account : r.bytes_after + r.bytes_evicted ≡ r.bytes_before
  pub distinct : IsKeyed candidates
  pub found : All (λ c. lookup c.0 d.meta ≡ some c.1) candidates

still_found :
    (digest : ContentHash) (meta candidates : Assoc BlobMeta)
    → IsKeyed meta
    → All (λ c. c.0 ≢ digest) candidates
    → All (λ c. lookup c.0 meta ≡ some c.1) candidates
    → All (λ c. lookup c.0 (keep_if (λ e. not (e.0 == digest)) meta) ≡ some c.1) candidates
still_found digest meta [] k n f = tt
still_found digest meta (c ∷ candidates) k n f = (
  ground (arith, lookup-keep_if (λ e. not (e.0 == digest)) c.0 meta k, n.0, f.0),
  still_found digest meta candidates k n.1 f.1,
)

pub evict-InOrder :
    (c : ContentHash × BlobMeta) (candidates : Assoc BlobMeta) (d : BlobDir) (r : QuotaReport)
    → InOrder (c ∷ candidates) d r
    → InOrder candidates (evict c (d, r)).0 (evict c (d, r)).1
unfolding evict remove_blob
evict-InOrder c candidates d r o =
    let removed = total_bytes-remove c.0 c.1 d.meta o.keyed o.found.0 in
    let sum = o.sum in
    let account = o.account in
    record {
      keyed = keep_if-IsKeyed (λ e. not (e.0 == c.0)) d.meta o.keyed;
      sum = omega arith;
      account = omega arith;
      distinct = o.distinct.1;
      found = still_found c.0 d.meta candidates o.keyed o.distinct.0 o.found.1;
    }

any_of_swap :
    (f : ContentHash × BlobMeta → Bool) (a b : ContentHash × BlobMeta) (l : Assoc BlobMeta)
    → any_of f (a ∷ b ∷ l) ≡ any_of f (b ∷ a ∷ l)
any_of_swap f a b l = ground arith

pub any_of-perm :
    (f : ContentHash × BlobMeta → Bool) {xs ys : Assoc BlobMeta}
    → Permᴰ xs ys
    → any_of f xs ≡ any_of f ys
any_of-perm f Permᴰ.nil = refl
any_of-perm f (Permᴰ.cons e p) = cc (any_of-perm f p, ap f e)
any_of-perm f (Permᴰ.swap {a = a} {b = b} {b' = b'} {l = l} e g) =
    any_of_swap f a b l ∙ ap (λ x. any_of f (b ∷ x ∷ l)) e ∙ ap (λ x. any_of f (x ∷ b' ∷ l)) g
any_of-perm f (Permᴰ.trans p q) = any_of-perm f p ∙ any_of-perm f q

found_behind :
    (e : ContentHash × BlobMeta) (meta cs : Assoc BlobMeta)
    → All (λ c. c.0 ≢ e.0) cs
    → All (λ c. lookup c.0 meta ≡ some c.1) cs
    → All (λ c. lookup c.0 (e ∷ meta) ≡ some c.1) cs
unfolding lookup
found_behind e meta [] n f = tt
found_behind e meta (c ∷ cs) n f = (ground (arith, n.0, f.0), found_behind e meta cs n.1 f.1)

pub self_found : (meta : Assoc BlobMeta) → IsKeyed meta → All (λ c. lookup c.0 meta ≡ some c.1) meta
unfolding lookup
self_found [] k = tt
self_found (e ∷ meta) k = (ground arith, found_behind e meta meta k.0 (self_found meta k.1))

pub keep_if-All :
    (P : ContentHash × BlobMeta → Type 0) (p : ContentHash × BlobMeta → Bool) (xs : Assoc BlobMeta)
    → All P xs
    → All P (keep_if p xs)
keep_if-All P p [] a = tt
keep_if-All P p (x ∷ xs) a = elim (Bool-cases (p x)) [
  | inl e ↦ rw (e, keep_if) (a.0, keep_if-All P p xs a.1)
  | inr e ↦ rw (e, keep_if) (keep_if-All P p xs a.1)
]
