-- ===== src/Clipboard/Secrets/Luhn.antt =====
-- What the Luhn check is for: it notices a mistyped digit.
use mathlib.Core.List.{reverse, reverse-append, reverse-cons, append_assoc}
use clipse.Prelude.{
  ℕ, ◌+◌, ◌-◌, ◌%◌, ◌≤◌, ◌<◌, ◌≡◌, ◌≢◌, ap, ◌∙◌, true, false, [], ◌∷◌, ◌++◌, arith, length, ==_iff,
  ◌==◌, Bool-cases, inl, inr,
}
use clipse.Prelude.Bytes.{Bytes}
use clipse.Clipboard.Secrets.{weight, luhn_sum, luhn_valid}

weight_bound : (i d : ℕ) → d < 10 → weight i d < 10
unfolding weight
weight_bound i d h = ground arith

-- Doubling and casting out nines permutes the digits.
weight_inj : (i d e : ℕ) → d < 10 → e < 10 → weight i d ≡ weight i e → d ≡ e
unfolding weight
weight_inj i d e hd he h = ground arith

luhn_sum-append :
    (i : ℕ) (s t : Bytes) → luhn_sum i (s ++ t) ≡ luhn_sum i s + luhn_sum (i + length s) t
unfolding luhn_sum
luhn_sum-append i [] t =
    let same : luhn_sum i t ≡ luhn_sum (i + 0) t = ap (λ n. luhn_sum n t) (omega arith) in
    omega (arith, same)
luhn_sum-append i (c ∷ s) t =
    let shift : luhn_sum (i + 1 + length s) t ≡ luhn_sum (i + length (c ∷ s)) t =
      ap (λ n. luhn_sum n t) (omega arith) in
    omega (arith, luhn_sum-append (i + 1) s t, shift)

reverse-middle :
    (before after : Bytes) (c : ℕ)
    → reverse (before ++ c ∷ after) ≡ reverse after ++ (c ∷ reverse before)
reverse-middle before after c =
    reverse-append before (c ∷ after)
    ∙ ap (λ s. s ++ reverse before) (reverse-cons c after)
    ∙ append_assoc (reverse after) (c ∷ []) (reverse before)

-- The sum as that of one digit and of the others.
luhn_sum-middle :
    (before after : Bytes) (c : ℕ)
    → luhn_sum 0 (reverse (before ++ c ∷ after))
      ≡ luhn_sum 0 (reverse after)
        + (weight (length (reverse after)) (c - 48)
            + luhn_sum (length (reverse after) + 1) (reverse before))
unfolding luhn_sum
luhn_sum-middle before after c =
    let split = luhn_sum-append 0 (reverse after) (c ∷ reverse before) in
    let same : luhn_sum (0 + length (reverse after)) (c ∷ reverse before)
        ≡ luhn_sum (length (reverse after)) (c ∷ reverse before) =
      ap (λ n. luhn_sum n (c ∷ reverse before)) (omega arith) in
    ap (luhn_sum 0) (reverse-middle before after c)
    ∙ split
    ∙ ap (λ n. luhn_sum 0 (reverse after) + n) same

-- A number that passes the check does not pass it any more when one of its digits, at any place, is
-- another digit.
pub luhn_valid-changed :
    (before after : Bytes) (c d : ℕ)
    → 48 ≤ c
    → c ≤ 57
    → 48 ≤ d
    → d ≤ 57
    → c ≢ d
    → luhn_valid (before ++ c ∷ after) ≡ true
    → luhn_valid (before ++ d ∷ after) ≡ false
unfolding luhn_valid
luhn_valid-changed before after c d c0 c9 d0 d9 ne valid =
    let i = length (reverse after) in
    let sum_c = luhn_sum-middle before after c in
    let sum_d = luhn_sum-middle before after d in
    let small_c = weight_bound i (c - 48) (omega arith) in
    let small_d = weight_bound i (d - 48) (omega arith) in
    let inj = weight_inj i (c - 48) (d - 48) (omega arith) (omega arith) in
    elim (Bool-cases (luhn_sum 0 (reverse (before ++ d ∷ after)) % 10 == 0)) [
      | inr e ↦ e
      | inl e ↦
          let zero_c = (==_iff _ _).0 valid in
          let zero_d = (==_iff _ _).0 e in absurd (ne (omega (arith, inj (omega arith))))
    ]
