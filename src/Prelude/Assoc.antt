-- ===== src/Prelude/Assoc.antt =====
-- Maps with numbers for keys, as association lists. Each key occurs once in the lists that `insert`
-- builds; the order of the entries is not specified, as in a `HashMap`.
use Prim.Native.Nat.{ℕ, suc, ◌+◌, ◌≤◌}
use mathlib.Core.Path.{◌≡◌, refl}
use mathlib.Core.Logic.{◌≢◌}
use mathlib.Core.Bool.{Bool}
use mathlib.Core.List.{List, [], ◌∷◌}
use mathlib.Core.Option.{Option, none, some}
use native.Mathlib.Omega.{arith}
use clipse.Prelude.Tests.{if◌then◌else◌, ◌==◌}
use clipse.Prelude.Lists.{All, length, keep_if, any_of}

abbrev pub Assoc {ℓ} : Type ℓ → Type ℓ
Assoc V = List (ℕ × V)

module _ {ℓ} {V : Type ℓ} where
  unfoldable pub lookup : ℕ → Assoc V → Option V
  lookup key [] = none
  lookup key (entry ∷ m) = if entry.0 == key then some entry.1 else lookup key m

  unfoldable pub insert : ℕ → V → Assoc V → Assoc V
  insert key new [] = (key, new) ∷ []
  insert key new (entry ∷ m) =
      let rest = insert key new m in if entry.0 == key then (key, new) ∷ m else entry ∷ rest

  abbrev pub IsKeyed : Assoc V → Type 0
  IsKeyed [] = Unit
  IsKeyed ((k, v) ∷ m) = All (λ e. e.0 ≢ k) m × IsKeyed m

  pub lookup-insert :
      (key other : ℕ) (new : V) (m : Assoc V)
      → lookup other (insert key new m) ≡ (if key == other then some new else lookup other m)
  unfolding lookup insert
  lookup-insert key other new [] = refl
  lookup-insert key other new (entry ∷ m) = ground (arith, lookup-insert key other new m)

  pub length-insert-le : (k : ℕ) (v : V) (m : Assoc V) → length (insert k v m) ≤ suc (length m)
  unfolding insert
  length-insert-le k v [] = omega arith
  length-insert-le k v ((j, w) ∷ m) = ground (arith, length-insert-le k v m)

  All-insert :
      (k j : ℕ) (v : V) (m : Assoc V)
      → k ≢ j
      → All (λ e. e.0 ≢ j) m
      → All (λ e. e.0 ≢ j) (insert k v m)
  unfolding insert
  All-insert k j v [] h a = (h, tt)
  All-insert k j v ((i, w) ∷ m) h a = ground (arith, All-insert k j v m h a.1)

  pub insert-IsKeyed : (k : ℕ) (v : V) (m : Assoc V) → IsKeyed m → IsKeyed (insert k v m)
  unfolding insert
  insert-IsKeyed k v [] h = (tt, tt)
  insert-IsKeyed k v ((j, w) ∷ m) h = ground (arith, insert-IsKeyed k v m h.1, All-insert k j v m)

  All-keep_if :
      (p : ℕ × V → Bool) (j : ℕ) (m : Assoc V)
      → All (λ e. e.0 ≢ j) m
      → All (λ e. e.0 ≢ j) (keep_if p m)
  All-keep_if p j [] a = tt
  All-keep_if p j (e ∷ m) a = ground (arith, All-keep_if p j m a.1)

  pub keep_if-IsKeyed : (p : ℕ × V → Bool) (m : Assoc V) → IsKeyed m → IsKeyed (keep_if p m)
  keep_if-IsKeyed p [] h = tt
  keep_if-IsKeyed p ((k, v) ∷ m) h = ground (arith, keep_if-IsKeyed p m h.1, All-keep_if p k m h.0)

  pub lookup_absent : (k : ℕ) (m : Assoc V) → All (λ e. e.0 ≢ k) m → lookup k m ≡ none
  unfolding lookup
  lookup_absent k [] a = refl
  lookup_absent k ((j, w) ∷ m) a = ground (arith, lookup_absent k m a.1)

  -- `retain` keeps what passes the test under its key.
  pub lookup-keep_if :
      (p : ℕ × V → Bool) (k : ℕ) (m : Assoc V)
      → IsKeyed m
      → lookup k (keep_if p m)
        ≡ elim (lookup k m) [ none ↦ none | some v ↦ if p (k, v) then some v else none ]
  unfolding lookup
  lookup-keep_if p k [] h = refl
  lookup-keep_if p k ((j, w) ∷ m) h = ground (
    arith,
    lookup-keep_if p k m h.1,
    lookup_absent j m h.0,
    lookup_absent j (keep_if p m) (All-keep_if p j m h.0),
  )

  no_key : (k : ℕ) (m : Assoc V) → All (λ e. e.0 ≢ k) m → length (keep_if (λ e. k == e.0) m) ≡ 0
  no_key k [] a = refl
  no_key k ((j, v) ∷ m) a = ground (arith, no_key k m a.1)

  one_key : (k : ℕ) (m : Assoc V) → IsKeyed m → length (keep_if (λ e. k == e.0) m) ≤ 1
  one_key k [] h = omega arith
  one_key k ((j, v) ∷ m) h = ground (arith, one_key k m h.1, no_key j m h.0)

  abbrev pub key_in : List ℕ → ℕ × V → Bool
  key_in ks e = any_of (λ k. k == e.0) ks

  no_keys : (m : Assoc V) → length (keep_if (key_in []) m) ≡ 0
  no_keys [] = refl
  no_keys (e ∷ m) = no_keys m

  more_keys :
      (k : ℕ) (ks : List ℕ) (m : Assoc V)
      → length (keep_if (key_in (k ∷ ks)) m)
        ≤ length (keep_if (λ e. k == e.0) m) + length (keep_if (key_in ks) m)
  more_keys k ks [] = omega arith
  more_keys k ks (e ∷ m) = ground (arith, more_keys k ks m)

  -- At most as many entries as keys are kept.
  pub length-keep_if_keys :
      (ks : List ℕ) (m : Assoc V) → IsKeyed m → length (keep_if (key_in ks) m) ≤ length ks
  length-keep_if_keys [] m h = omega (arith, no_keys m)
  length-keep_if_keys (k ∷ ks) m h =
      omega (arith, more_keys k ks m, one_key k m h, length-keep_if_keys ks m h)
