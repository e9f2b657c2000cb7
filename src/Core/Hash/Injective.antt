-- ===== src/Core/Hash/Injective.antt =====
-- What the length prefixes of `of_parts` are for: the encoding loses nothing.
use mathlib.Core.List.{append_assoc}
use clipse.Prelude.{
  ℕ, ◌≤◌, ◌≡◌, refl, sym, List, [], ◌∷◌, ◌++◌, arith, length, length-append, All, ap, ◌∙◌,
}
use clipse.Prelude.Bytes.{Bytes}
use clipse.Prelude.Words.{u64_max, le_bytes, of_le_bytes, length-le_bytes, of_le_bytes-le_bytes}
use clipse.Core.Hash.{encoding, length_prefixed}

pub append_inj {ℓ} :
    {A : Type ℓ} (us vs : List A) (xs ys : List A)
    → length us ≡ length vs
    → us ++ xs ≡ vs ++ ys
    → (us ≡ vs) × (xs ≡ ys)
append_inj [] [] xs ys n e = (refl, e)
append_inj [] (b ∷ vs) xs ys n e = absurd (omega arith)
append_inj (a ∷ us) [] xs ys n e = absurd (omega arith)
append_inj (a ∷ us) (b ∷ vs) xs ys n e =
    let ih = append_inj us vs xs ys (omega arith) (cc) in (cc (ih.0), ih.1)

-- Parts whose lengths fit a `u64`, which every slice in memory does.
abbrev pub IsEncodable : List (Bytes × Bytes) → Type 0
IsEncodable = All (λ part. (length part.0 ≤ u64_max) × (length part.1 ≤ u64_max))

le_bytes_inj : (m n : ℕ) → m ≤ u64_max → n ≤ u64_max → le_bytes 8 m ≡ le_bytes 8 n → m ≡ n
le_bytes_inj m n hm hn e =
    sym (of_le_bytes-le_bytes 8 m (omega arith))
    ∙ ap of_le_bytes e
    ∙ of_le_bytes-le_bytes 8 n (omega arith)

pub length_prefixed_inj :
    (s t xs ys : Bytes)
    → length s ≤ u64_max
    → length t ≤ u64_max
    → length_prefixed s ++ xs ≡ length_prefixed t ++ ys
    → (s ≡ t) × (xs ≡ ys)
unfolding length_prefixed
length_prefixed_inj s t xs ys hs ht e =
    let n = le_bytes 8 (length s) in
    let m = le_bytes 8 (length t) in
    let whole =
      append_inj n m (s ++ xs) (t ++ ys)
        (omega (arith, length-le_bytes 8 (length s), length-le_bytes 8 (length t)))
        (sym (append_assoc n s xs) ∙ e ∙ append_assoc m t ys) in
    append_inj s t xs ys (le_bytes_inj (length s) (length t) hs ht whole.0) whole.1

length-encoding_cons :
    (part : Bytes × Bytes) (parts : List (Bytes × Bytes)) → 8 ≤ length (encoding (part ∷ parts))
unfolding encoding
length-encoding_cons (label, bytes) parts = omega (
  arith,
  length-append (le_bytes 8 (length label) ++ label) (length_prefixed bytes ++ encoding parts),
  length-append (le_bytes 8 (length label)) label,
  length-le_bytes 8 (length label),
)

-- Two lists of parts that give the hasher the same bytes are the same list.
pub encoding_inj :
    (ps qs : List (Bytes × Bytes))
    → IsEncodable ps
    → IsEncodable qs
    → encoding ps ≡ encoding qs
    → ps ≡ qs
unfolding encoding
encoding_inj [] [] hp hq e = refl
encoding_inj [] (q ∷ qs) hp hq e = absurd (omega (arith, length-encoding_cons q qs, ap length e))
encoding_inj (p ∷ ps) [] hp hq e = absurd (omega (arith, length-encoding_cons p ps, ap length e))
encoding_inj ((k, v) ∷ ps) ((l, w) ∷ qs) hp hq e =
    let first = length_prefixed_inj k l _ _ hp.0.0 hq.0.0 e in
    let second = length_prefixed_inj v w _ _ hp.0.1 hq.0.1 first.1 in
    cc (first.0, second.0, encoding_inj ps qs hp.1 hq.1 second.1)
