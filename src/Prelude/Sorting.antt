-- ===== src/Prelude/Sorting.antt =====
-- `sort_by` of the standard library: a stable sort by a strict test. A later element moves in
-- front of an earlier one only if the test puts it strictly before.
use mathlib.Core.Path.{◌≡◌, refl, sym, ◌∙◌, subst}
use mathlib.Core.Logic.{◌⊎◌, inl, inr}
use mathlib.Core.Bool.{Bool, true, false}
use mathlib.Core.List.{List, [], ◌∷◌, Permᴰ}
use mathlib.Core.List.Permᴰ
use native.Mathlib.Omega.{arith}
use clipse.Prelude.Tests.{if◌then◌else◌, Bool-cases}
use clipse.Prelude.Lists.{All, length}

module _ {ℓ} {A : Type ℓ} (lt : A → A → Bool) where
  unfoldable pub insert_by : A → List A → List A
  insert_by x [] = x ∷ []
  insert_by x (y ∷ ys) = if lt y x then y ∷ insert_by x ys else x ∷ y ∷ ys

  unfoldable pub sort_by : List A → List A
  unfolding insert_by
  sort_by [] = []
  sort_by (x ∷ xs) = insert_by x (sort_by xs)

  -- Each element is followed by none that the test puts before it.
  abbrev pub IsSorted : List A → Type ℓ
  IsSorted [] = Unit
  IsSorted (x ∷ xs) = All (λ y. lt y x ≡ false) xs × IsSorted xs

  -- The test tells any two positions of the list apart.
  abbrev pub IsDistinct : List A → Type ℓ
  IsDistinct [] = Unit
  IsDistinct (x ∷ xs) = All (λ y. (lt x y ≡ true) ⊎ (lt y x ≡ true)) xs × IsDistinct xs

-- What a test has to satisfy for a sort by it to make sense: a strict weak order.
pub record IsOrder {ℓ} {A : Type ℓ} (lt : A → A → Bool) : Type ℓ where
  pub asymm : (a b : A) → lt a b ≡ true → lt b a ≡ false
  pub neg_trans : (a b c : A) → lt a b ≡ false → lt b c ≡ false → lt a c ≡ false

pub All-perm {ℓ κ} :
    {A : Type ℓ} (P : A → Type κ) {xs ys : List A} → Permᴰ xs ys → All P xs → All P ys
All-perm P Permᴰ.nil h = h
All-perm P (Permᴰ.cons e p) h = (subst P e h.0, All-perm P p h.1)
All-perm P (Permᴰ.swap e f) h = (subst P f h.1.0, (subst P e h.0, h.1.1))
All-perm P (Permᴰ.trans p q) h = All-perm P q (All-perm P p h)

pub length-perm {ℓ} : {A : Type ℓ} {xs ys : List A} → Permᴰ xs ys → length xs ≡ length ys
length-perm Permᴰ.nil = refl
length-perm (Permᴰ.cons e p) = omega (arith, length-perm p)
length-perm (Permᴰ.swap e f) = refl
length-perm (Permᴰ.trans p q) = length-perm p ∙ length-perm q

module _ {ℓ} {A : Type ℓ} (lt : A → A → Bool) where
  insert_by-perm : (x : A) (ys : List A) → Permᴰ (x ∷ ys) (insert_by lt x ys)
  unfolding insert_by
  insert_by-perm x [] = Permᴰ.refl (x ∷ [])
  insert_by-perm x (y ∷ ys) = elim (Bool-cases (lt y x)) [
    | inl e ↦
        rw (e, insert_by)
          (Permᴰ.trans (Permᴰ.swap refl refl) (Permᴰ.cons refl (insert_by-perm x ys)))
    | inr e ↦ rw (e, insert_by) (Permᴰ.refl (x ∷ y ∷ ys))
  ]

  pub sort_by-perm : (xs : List A) → Permᴰ xs (sort_by lt xs)
  unfolding sort_by
  sort_by-perm [] = Permᴰ.nil
  sort_by-perm (x ∷ xs) =
      Permᴰ.trans (Permᴰ.cons refl (sort_by-perm xs)) (insert_by-perm x (sort_by lt xs))

  module _ (o : IsOrder lt) where
    trans_lt : (a b c : A) → lt a b ≡ true → lt b c ≡ true → lt a c ≡ true
    trans_lt a b c p q = elim (Bool-cases (lt a c)) [
      | inl e ↦ e
      | inr e ↦ cc (o.neg_trans a c b e (o.asymm b c q))
    ]

    below_head :
        (x y : A) (zs : List A)
        → lt y x ≡ false
        → All (λ z. lt z y ≡ false) zs
        → All (λ z. lt z x ≡ false) zs
    below_head x y [] h k = tt
    below_head x y (z ∷ zs) h k = (o.neg_trans z y x k.0 h, below_head x y zs h k.1)

    insert_by-IsSorted : (x : A) (ys : List A) → IsSorted lt ys → IsSorted lt (insert_by lt x ys)
    unfolding insert_by
    insert_by-IsSorted x [] s = (tt, tt)
    insert_by-IsSorted x (y ∷ ys) s = elim (Bool-cases (lt y x)) [
      | inl e ↦
          rw (e, insert_by)
            (
              All-perm (λ z. lt z y ≡ false) (insert_by-perm x ys) (o.asymm y x e, s.0),
              insert_by-IsSorted x ys s.1,
            )
      | inr e ↦ rw (e, insert_by) ((e, below_head x y ys e s.0), s)
    ]

    -- The result is in order.
    pub sort_by-IsSorted : (xs : List A) → IsSorted lt (sort_by lt xs)
    unfolding sort_by
    sort_by-IsSorted [] = tt
    sort_by-IsSorted (x ∷ xs) = insert_by-IsSorted x (sort_by lt xs) (sort_by-IsSorted xs)

    insert_by_comm_lt :
        (a b : A) (ys : List A)
        → lt a b ≡ true
        → insert_by lt a (insert_by lt b ys) ≡ insert_by lt b (insert_by lt a ys)
    unfolding insert_by
    insert_by_comm_lt a b [] h = ground (arith, o.asymm a b h)
    insert_by_comm_lt a b (y ∷ ys) h =
        ground (arith, o.asymm a b h, trans_lt y a b, insert_by_comm_lt a b ys h)

    insert_by_comm :
        (a b : A) (ys : List A)
        → (lt a b ≡ true) ⊎ (lt b a ≡ true)
        → insert_by lt a (insert_by lt b ys) ≡ insert_by lt b (insert_by lt a ys)
    insert_by_comm a b ys (inl h) = insert_by_comm_lt a b ys h
    insert_by_comm a b ys (inr h) = sym (insert_by_comm_lt b a ys h)

    IsDistinct-perm : {xs ys : List A} → Permᴰ xs ys → IsDistinct lt xs → IsDistinct lt ys
    IsDistinct-perm Permᴰ.nil d = d
    IsDistinct-perm (Permᴰ.cons {a = a} {b = b} {l₂ = l₂} e p) d = (
      subst (λ v. All (λ y. (lt v y ≡ true) ⊎ (lt y v ≡ true)) l₂) e (All-perm _ p d.0),
      IsDistinct-perm p d.1,
    )
    IsDistinct-perm (Permᴰ.swap {a = a} {b = b} {a' = a'} {b' = b'} {l = l} e f) d = (
      (
        subst (λ v. (lt a' v ≡ true) ⊎ (lt v a' ≡ true)) e
            (subst (λ v. (lt v a ≡ true) ⊎ (lt a v ≡ true)) f (flip d.0.0)),
        subst (λ v. All (λ y. (lt v y ≡ true) ⊎ (lt y v ≡ true)) l) f d.1.0,
      ),
      (subst (λ v. All (λ y. (lt v y ≡ true) ⊎ (lt y v ≡ true)) l) e d.0.1, d.1.1),
    )
      where
        flip : {P Q : Type 0} → P ⊎ Q → Q ⊎ P
        flip (inl p) = inr p
        flip (inr q) = inl q
    IsDistinct-perm (Permᴰ.trans p q) d = IsDistinct-perm q (IsDistinct-perm p d)

    -- Where the test tells all elements apart, the order that they come in does not matter.
    pub sort_by_of_perm :
        {xs ys : List A} → Permᴰ xs ys → IsDistinct lt xs → sort_by lt xs ≡ sort_by lt ys
    unfolding sort_by
    sort_by_of_perm Permᴰ.nil d = refl
    sort_by_of_perm (Permᴰ.cons e p) d = cc (e, sort_by_of_perm p d.1)
    sort_by_of_perm (Permᴰ.swap {a = a} {b = b} {l = l} e f) d =
        cc (e, f, insert_by_comm a b (sort_by lt l) d.0.0)
    sort_by_of_perm (Permᴰ.trans p q) d =
        sort_by_of_perm p d ∙ sort_by_of_perm q (IsDistinct-perm p d)
