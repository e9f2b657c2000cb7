-- ===== src/Prelude/Slices.antt =====
-- Slices of a list read position by position, and a slice overwritten in place.
use Prim.Native.Nat.{ℕ, zero, suc, ◌+◌, ◌-◌, ◌≤◌, ◌<◌}
use mathlib.Core.Path.{◌≡◌, refl, ap, ◌∙◌}
use mathlib.Core.Logic.{◌⊎◌, inl, inr, ◌≢◌}
use mathlib.Core.List.{List, [], ◌∷◌, ◌++◌}
use mathlib.Core.Option.{none, some}
use native.Mathlib.Omega.{arith}
use clipse.Prelude.Lists.{length, get_elem?, take, drop, length-append, length-take, length-drop}

module _ {ℓ} {A : Type ℓ} where
  -- `xs[start..start + bytes.len()].copy_from_slice(bytes)`, for a range within the list.
  unfoldable pub splice : List A → ℕ → List A → List A
  splice xs start bytes = take start xs ++ (bytes ++ drop (start + length bytes) xs)

  -- `xs[start..end]`.
  unfoldable pub slice : ℕ → ℕ → List A → List A
  slice start end xs = take (end - start) (drop start xs)

  -- `xs[i] = v`, which changes nothing out of range.
  unfoldable pub set : List A → ℕ → A → List A
  set [] i v = []
  set (x ∷ xs) zero v = v ∷ xs
  set (x ∷ xs) (suc i) v = x ∷ set xs i v

  pub length-set : (xs : List A) (i : ℕ) (v : A) → length (set xs i v) ≡ length xs
  unfolding set
  length-set [] i v = refl
  length-set (x ∷ xs) zero v = refl
  length-set (x ∷ xs) (suc i) v = ap suc (length-set xs i v)

  pub get_elem?-set_self :
      (xs : List A) (i : ℕ) (v : A) → i < length xs → get_elem? (set xs i v) i ≡ some v
  unfolding set
  get_elem?-set_self [] i v h = elim h [ ]
  get_elem?-set_self (x ∷ xs) zero v h = refl
  get_elem?-set_self (x ∷ xs) (suc i) v h = get_elem?-set_self xs i v (omega arith)

  pub get_elem?-set_ne :
      (xs : List A) (i j : ℕ) (v : A) → i ≢ j → get_elem? (set xs i v) j ≡ get_elem? xs j
  unfolding set
  get_elem?-set_ne [] i j v h = refl
  get_elem?-set_ne (x ∷ xs) zero zero v h = absurd (h refl)
  get_elem?-set_ne (x ∷ xs) zero (suc j) v h = refl
  get_elem?-set_ne (x ∷ xs) (suc i) zero v h = refl
  get_elem?-set_ne (x ∷ xs) (suc i) (suc j) v h = get_elem?-set_ne xs i j v (λ e. h (ap suc e))

  pub get_elem?_above : (xs : List A) (j : ℕ) → length xs ≤ j → get_elem? xs j ≡ none
  get_elem?_above [] j h = refl
  get_elem?_above (x ∷ xs) zero h = absurd (omega arith)
  get_elem?_above (x ∷ xs) (suc j) h = get_elem?_above xs j (omega arith)

  pub get_elem?-append_left :
      (xs ys : List A) (j : ℕ) → j < length xs → get_elem? (xs ++ ys) j ≡ get_elem? xs j
  get_elem?-append_left [] ys j h = absurd (omega arith)
  get_elem?-append_left (x ∷ xs) ys zero h = refl
  get_elem?-append_left (x ∷ xs) ys (suc j) h = get_elem?-append_left xs ys j (omega arith)

  pub get_elem?-append_right :
      (xs ys : List A) (j k : ℕ) → j ≡ length xs + k → get_elem? (xs ++ ys) j ≡ get_elem? ys k
  get_elem?-append_right [] ys j k e = ap (get_elem? ys) (omega arith)
  get_elem?-append_right (x ∷ xs) ys zero k e = absurd (omega arith)
  get_elem?-append_right (x ∷ xs) ys (suc j) k e = get_elem?-append_right xs ys j k (omega arith)

  pub get_elem?-take :
      (n : ℕ) (xs : List A) (j : ℕ) → j < n → get_elem? (take n xs) j ≡ get_elem? xs j
  get_elem?-take zero xs j h = absurd (omega arith)
  get_elem?-take (suc n) [] j h = refl
  get_elem?-take (suc n) (x ∷ xs) zero h = refl
  get_elem?-take (suc n) (x ∷ xs) (suc j) h = get_elem?-take n xs j (omega arith)

  pub get_elem?-drop :
      (n : ℕ) (xs : List A) (j k : ℕ) → k ≡ n + j → get_elem? (drop n xs) j ≡ get_elem? xs k
  get_elem?-drop zero xs j k e = ap (get_elem? xs) (omega arith)
  get_elem?-drop (suc n) [] j k e = refl
  get_elem?-drop (suc n) (x ∷ xs) j zero e = absurd (omega arith)
  get_elem?-drop (suc n) (x ∷ xs) j (suc k) e = get_elem?-drop n xs j k (omega arith)

  -- Two lists with the same elements at the same positions are equal.
  pub eq_of_get_elem? : (xs ys : List A) → ((j : ℕ) → get_elem? xs j ≡ get_elem? ys j) → xs ≡ ys
  eq_of_get_elem? [] [] h = refl
  eq_of_get_elem? [] (y ∷ ys) h = cc (h 0)
  eq_of_get_elem? (x ∷ xs) [] h = cc (h 0)
  eq_of_get_elem? (x ∷ xs) (y ∷ ys) h = cc (h 0, eq_of_get_elem? xs ys (λ j. h (suc j)))

  module _ (xs bytes : List A) (start : ℕ) (fits : start + length bytes ≤ length xs) where
    pub length-splice : length (splice xs start bytes) ≡ length xs
    unfolding splice
    length-splice = omega (
      arith,
      length-append (take start xs) (bytes ++ drop (start + length bytes) xs),
      length-append bytes (drop (start + length bytes) xs),
      length-take start xs,
      length-drop (start + length bytes) xs,
    )

    -- Inside the range the new bytes are read, outside of it the old ones.
    pub get_elem?-splice_in :
        (k : ℕ)
        → k < length bytes
        → get_elem? (splice xs start bytes) (start + k) ≡ get_elem? bytes k
    unfolding splice
    get_elem?-splice_in k h =
        get_elem?-append_right (take start xs) _ (start + k) k (omega (arith, length-take start xs))
        ∙ get_elem?-append_left bytes _ k h

    pub get_elem?-splice_out :
        (j : ℕ)
        → (j < start) ⊎ (start + length bytes ≤ j)
        → get_elem? (splice xs start bytes) j ≡ get_elem? xs j
    unfolding splice
    get_elem?-splice_out j (inl h) =
        get_elem?-append_left (take start xs) _ j (omega (arith, length-take start xs))
        ∙ get_elem?-take start xs j h
    get_elem?-splice_out j (inr h) =
        get_elem?-append_right (take start xs) _ j (j - start) (omega (arith, length-take start xs))
        ∙ get_elem?-append_right bytes _ (j - start) (j - start - length bytes) (omega arith)
        ∙ get_elem?-drop (start + length bytes) xs _ j (omega arith)

  pub length-slice :
      (start end : ℕ) (xs : List A)
      → start ≤ end
      → end ≤ length xs
      → length (slice start end xs) ≡ end - start
  unfolding slice
  length-slice start end xs h k =
      omega (arith, length-take (end - start) (drop start xs), length-drop start xs)

  pub get_elem?-slice :
      (start end : ℕ) (xs : List A) (k : ℕ)
      → k < end - start
      → get_elem? (slice start end xs) k ≡ get_elem? xs (start + k)
  unfolding slice
  get_elem?-slice start end xs k h =
      get_elem?-take (end - start) (drop start xs) k h ∙ get_elem?-drop start xs k (start + k) refl
