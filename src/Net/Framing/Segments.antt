-- ===== src/Net/Framing/Segments.antt =====
-- Messages as bytes: their segments, and the length that they announce.
use clipse.Prelude.{
  ℕ, zero, suc, ◌+◌, ◌%◌, ◌^◌, ◌≤◌, ◌≡◌, ◌≢◌, refl, sym, ap, ◌∙◌, subst, List, [], ◌∷◌, ◌++◌, arith,
  All, length, take, drop, length-append, length-take, length-drop, take-append-drop, take_append,
  drop_append,
}
use native.Mathlib.Nat.{mod-eq_of_lt}
use clipse.Prelude.Bytes.{Bytes}
use clipse.Prelude.Words.{le_bytes, of_le_bytes, length-le_bytes, of_le_bytes-le_bytes}
use clipse.Net.Framing.{segment_bytes, max_message_bytes, chunks, prefixed}

-- The concatenation of segments.
abbrev pub joined : List Bytes → Bytes
joined [] = []
joined (s ∷ ss) = s ++ joined ss

-- Segments that hold something and fit.
abbrev pub IsSegment : Bytes → Type 0
IsSegment s = (s ≢ []) × (length s ≤ segment_bytes)

pub length-nonempty : (xs : Bytes) → xs ≢ [] → 1 ≤ length xs
length-nonempty [] h = absurd (h refl)
length-nonempty (x ∷ xs) h = omega arith

pub joined-chunks :
    (fuel : ℕ) (xs : Bytes) → length xs ≤ fuel → joined (chunks fuel segment_bytes xs) ≡ xs
unfolding chunks
joined-chunks zero [] h = refl
joined-chunks zero (x ∷ xs) h = absurd (omega arith)
joined-chunks (suc fuel) [] h = refl
joined-chunks (suc fuel) (x ∷ xs) h =
    let rest = drop segment_bytes (x ∷ xs) in
    ap (λ t. take segment_bytes (x ∷ xs) ++ t)
      (joined-chunks fuel rest (omega (arith, length-drop segment_bytes (x ∷ xs))))
    ∙ take-append-drop segment_bytes (x ∷ xs)

pub chunks-IsSegment : (fuel : ℕ) (xs : Bytes) → All IsSegment (chunks fuel segment_bytes xs)
unfolding chunks
chunks-IsSegment zero xs = tt
chunks-IsSegment (suc fuel) [] = tt
chunks-IsSegment (suc fuel) (x ∷ xs) = (
  ((λ e. nonempty e), omega (arith, length-take segment_bytes (x ∷ xs))),
  chunks-IsSegment fuel (drop segment_bytes (x ∷ xs)),
)
  where
    nonempty : take segment_bytes (x ∷ xs) ≢ []
    nonempty e = omega (arith, length-take segment_bytes (x ∷ xs), ap (λ (t : Bytes). length t) e)

pub take-prefix : (n : ℕ) (xs ys : Bytes) → n ≤ length xs → take n (xs ++ ys) ≡ take n xs
take-prefix zero xs ys h = refl
take-prefix (suc n) [] ys h = absurd (omega arith)
take-prefix (suc n) (x ∷ xs) ys h = ap (◌∷◌ x) (take-prefix n xs ys (omega arith))

-- The length that a long enough beginning of a message announces.
pub announced :
    (body pre rest : Bytes)
    → length body ≤ max_message_bytes
    → pre ++ rest ≡ prefixed body
    → 4 ≤ length pre
    → of_le_bytes (take 4 pre) ≡ length body
unfolding prefixed
announced body pre rest small e h =
    let word = le_bytes 4 (length body % 2 ^ 32) in
    let same : length body % 2 ^ 32 ≡ length body = mod-eq_of_lt (omega arith) in
    let four = length-le_bytes 4 (length body % 2 ^ 32) in
    let head : take 4 (word ++ body) ≡ word =
      subst (λ n. take n (word ++ body) ≡ word) four (take_append word body) in
    ap of_le_bytes (sym (take-prefix 4 pre rest h) ∙ ap (take 4) e ∙ head)
    ∙ of_le_bytes-le_bytes 4 (length body % 2 ^ 32) (omega (arith, same))
    ∙ same

pub length-prefixed : (body : Bytes) → length (prefixed body) ≡ 4 + length body
unfolding prefixed
length-prefixed body = omega (
  arith,
  length-append (le_bytes 4 (length body % 2 ^ 32)) body,
  length-le_bytes 4 (length body % 2 ^ 32),
)

pub joined_cons : (s : Bytes) (ss : List Bytes) → s ≢ [] → joined (s ∷ ss) ≢ []
joined_cons [] ss h = λ e. h refl
joined_cons (x ∷ s) ss h = λ e. cc

pub drop-prefixed : (body : Bytes) → drop 4 (prefixed body) ≡ body
unfolding prefixed
drop-prefixed body =
    let word = le_bytes 4 (length body % 2 ^ 32) in
    subst (λ n. drop n (word ++ body) ≡ body) (length-le_bytes 4 (length body % 2 ^ 32))
      (drop_append word body)

pub take_all : (n : ℕ) (xs : Bytes) → length xs ≤ n → take n xs ≡ xs
take_all zero [] h = refl
take_all zero (x ∷ xs) h = absurd (omega arith)
take_all (suc n) [] h = refl
take_all (suc n) (x ∷ xs) h = ap (◌∷◌ x) (take_all n xs (omega arith))

pub drop_all : (n : ℕ) (xs : Bytes) → length xs ≤ n → drop n xs ≡ []
drop_all zero [] h = refl
drop_all zero (x ∷ xs) h = absurd (omega arith)
drop_all (suc n) [] h = refl
drop_all (suc n) (x ∷ xs) h = drop_all n xs (omega arith)
