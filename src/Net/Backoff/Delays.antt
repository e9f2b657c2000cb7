-- ===== src/Net/Backoff/Delays.antt =====
-- How the delays grow.
use native.Mathlib.Nat.{pow-suc}
use clipse.Prelude.{
  ℕ, zero, suc, ◌+◌, ◌-◌, ◌*◌, ◌^◌, ◌≤◌, ◌≡◌, refl, ap, ◌∙◌, min, ltb, arith, true, Bool-cases, inl,
  inr,
}
use clipse.Prelude.Words.{u32_max, u64_max}
use clipse.Net.Backoff.{Backoff, shift_factor, next_delay_ms}

-- The backoff after a number of attempts.
unfoldable pub after_attempts : ℕ → Backoff → Backoff
unfolding next_delay_ms
after_attempts zero b = b
after_attempts (suc n) b = after_attempts n (next_delay_ms b).0

at_least_factor : (b f : ℕ) → 1 ≤ b → f ≤ b * f
at_least_factor zero f h = absurd (omega arith)
at_least_factor (suc b) f h = omega arith

pow_large : (k : ℕ) → 2 ^ 64 ≤ 2 ^ (64 + k)
pow_large zero = omega arith
pow_large (suc k) =
    let same : 2 ^ (64 + suc k) ≡ 2 ^ suc (64 + k) = ap (λ n. 2 ^ n) (omega arith) in
    omega (arith, same, pow-suc 2 (64 + k), pow_large k)

pow_capped : (n : ℕ) → 64 ≤ n → u64_max ≤ 2 ^ n
pow_capped n h =
    let same : 2 ^ (64 + (n - 64)) ≡ 2 ^ n = ap (λ m. 2 ^ m) (omega arith) in
    omega (arith, same, pow_large (n - 64))

attempt-after :
    (n : ℕ) (b : Backoff)
    → b.attempt ≤ u32_max
    → (after_attempts n b).attempt ≡ min u32_max (b.attempt + n)
unfolding after_attempts next_delay_ms
attempt-after zero b h = omega arith
attempt-after (suc n) b h = attempt-after n (next_delay_ms b).0 (omega arith) ∙ omega arith

base-after : (n : ℕ) (b : Backoff) → (after_attempts n b).base_ms ≡ b.base_ms
unfolding after_attempts next_delay_ms
base-after zero b = refl
base-after (suc n) b = base-after n (next_delay_ms b).0

max-after : (n : ℕ) (b : Backoff) → (after_attempts n b).max_ms ≡ b.max_ms
unfolding after_attempts next_delay_ms
max-after zero b = refl
max-after (suc n) b = max-after n (next_delay_ms b).0

shift_factor-few : (n : ℕ) → ltb n 64 ≡ true → shift_factor n ≡ 2 ^ n
unfolding shift_factor
shift_factor-few n h = rw (h) refl

shift_factor-full : (n : ℕ) → 64 ≤ n → shift_factor n ≡ u64_max
unfolding shift_factor
shift_factor-full n h = ground arith

-- One delay: exact below the cap, whatever overflows.
delay_of :
    (b : Backoff) (n : ℕ)
    → 1 ≤ b.base_ms
    → b.max_ms ≤ u64_max
    → b.attempt ≡ min u32_max n
    → (next_delay_ms b).1 ≡ min (b.base_ms * 2 ^ n) b.max_ms
unfolding next_delay_ms
delay_of b n h m a = elim (Bool-cases (ltb n 64)) [
  | inl few ↦
      let same : b.attempt ≡ n = ground arith in
      omega (
        arith,
        ap (λ a. b.base_ms * shift_factor a) same,
        ap (λ f. b.base_ms * f) (shift_factor-few n few),
      )
  | inr many ↦
      let enough : 64 ≤ n = ground arith in
      let factor = shift_factor-full b.attempt (ground arith) in
      omega (
        arith,
        ap (λ f. b.base_ms * f) factor,
        at_least_factor b.base_ms u64_max h,
        at_least_factor b.base_ms (2 ^ n) h,
        pow_capped n enough,
      )
]

-- The delay before the attempt after `n` that failed, however many: the base doubled `n` times, up to the
-- maximum. The shift by 64 or more places, the product beyond a `u64` and the counter that stops at the
-- largest `u32` make no difference to that.
pub next_delay_ms_lem :
    (n : ℕ) (b : Backoff)
    → 1 ≤ b.base_ms
    → b.max_ms ≤ u64_max
    → b.attempt ≡ 0
    → (next_delay_ms (after_attempts n b)).1 ≡ min (b.base_ms * 2 ^ n) b.max_ms
next_delay_ms_lem n b h m a =
    let base = base-after n b in
    let top = max-after n b in
    let count = attempt-after n b (omega (arith, a)) in
    let one =
      delay_of (after_attempts n b) n (omega (arith, base)) (omega (arith, top))
        (omega (arith, count, a)) in
    one
    ∙ ap (λ x. min (x * 2 ^ n) (after_attempts n b).max_ms) base
    ∙ ap (λ x. min (b.base_ms * 2 ^ n) x) top
