-- ===== src/Crypto/Sessions/Limits.antt =====
-- How much one key carries.
use clipse.Prelude.{
  ℕ, suc, ◌+◌, ◌≤◌, ◌<◌, ◌≡◌, refl, ap, ◌∙◌, Bool, true, false, List, [], ◌∷◌, if◌then◌else◌, arith,
  Bool-cases, inl, inr, ◌⊎◌,
}
use clipse.Prelude.Bytes.{Bytes}
use clipse.Crypto.Sessions.{
  Noise, Session, Result, ok, err, rekey_required, needs_rekey, used, write_message, read_message,
  rekey,
}

-- A message sent or received.
pub data Use : Type 0 where
  sent received : Bytes → Use

module _ {Transport : Type 0} (noise : Noise Transport) where
  unfoldable pub use_session : Use → Session Transport → Session Transport × Result Bytes
  unfolding write_message read_message
  use_session (sent plaintext) s = write_message noise s plaintext
  use_session (received ciphertext) s = read_message noise s ciphertext

  unfoldable pub use_all : List Use → Session Transport → Session Transport
  unfolding use_session
  use_all [] s = s
  use_all (u ∷ us) s = use_all us (use_session u s).0

  unfoldable pub is_ok : Result Bytes → Bool
  is_ok (ok out) = true
  is_ok (err e) = false

  -- The messages that pass.
  unfoldable pub passed : List Use → Session Transport → ℕ
  unfolding use_session is_ok
  passed [] s = 0
  passed (u ∷ us) s =
      let rest = passed us (use_session u s).0 in
      if is_ok (use_session u s).1 then suc rest else rest

  use-refused :
      (u : Use) (s : Session Transport)
      → needs_rekey s ≡ true
      → use_session u s ≡ (s, err rekey_required)
  unfolding use_session write_message read_message
  use-refused (sent plaintext) s h = rw (h) refl
  use-refused (received ciphertext) s h = rw (h) refl

  -- A message counts exactly if it passes, and it passes only below both limits.
  use-count :
      (u : Use) (s : Session Transport)
      → (((use_session u s).0.messages_since_rekey ≡ s.messages_since_rekey + 1)
          × (is_ok (use_session u s).1 ≡ true)
          × (s.messages_since_rekey < 10000))
        ⊎ (((use_session u s).0.messages_since_rekey ≡ s.messages_since_rekey)
            × (is_ok (use_session u s).1 ≡ false))
  unfolding use_session write_message read_message used is_ok needs_rekey
  use-count (sent plaintext) s = elim (Bool-cases (needs_rekey s)) [
    | inl full ↦ inr (
      ap (λ r. r.0.messages_since_rekey) (use-refused (sent plaintext) s full),
      ap (λ r. is_ok r.1) (use-refused (sent plaintext) s full),
    )
    | inr left ↦ ground arith
  ]
  use-count (received ciphertext) s = elim (Bool-cases (needs_rekey s)) [
    | inl full ↦ inr (
      ap (λ r. r.0.messages_since_rekey) (use-refused (received ciphertext) s full),
      ap (λ r. is_ok r.1) (use-refused (received ciphertext) s full),
    )
    | inr left ↦ ground arith
  ]

  passed_bound :
      (us : List Use) (s : Session Transport)
      → s.messages_since_rekey ≤ 10000
      → passed us s + s.messages_since_rekey ≤ 10000
  unfolding passed
  passed_bound [] s h = omega (arith, h)
  passed_bound (u ∷ us) s h = elim (use-count u s) [
    | inl (count, passes, left) ↦
        let ih = passed_bound us (use_session u s).0 (omega (arith, count)) in
        rw (passes) (omega (arith, count, ih))
    | inr (count, fails) ↦
        let ih = passed_bound us (use_session u s).0 (omega (arith, count)) in
        rw (fails) (omega (arith, count, ih))
  ]

  refused_all : (us : List Use) (s : Session Transport) → needs_rekey s ≡ true → passed us s ≡ 0
  unfolding passed is_ok
  refused_all [] s h = refl
  refused_all (u ∷ us) s h =
      let refused = use-refused u s h in
      let rest = ap (λ r. passed us r.0) refused ∙ refused_all us s h in
      rw (ap (λ r. is_ok r.1) refused) rest

  -- A session that has used its key for some messages passes so many more that ten thousand in both directions
  -- together are not exceeded, whatever is sent and received; once either limit has been reached nothing
  -- passes any more, and `rekey` makes the session usable again.
  pub passed-needs_rekey :
      (us vs : List Use) (s : Session Transport)
      → s.messages_since_rekey ≤ 10000
      → (passed us s + s.messages_since_rekey ≤ 10000)
        × (needs_rekey (use_all us s) ≡ true → passed vs (use_all us s) ≡ 0)
        × (needs_rekey (rekey noise (use_all us s)) ≡ false)
  unfolding needs_rekey rekey
  passed-needs_rekey us vs s h =
      (passed_bound us s h, (λ full. refused_all vs (use_all us s) full), refl)
