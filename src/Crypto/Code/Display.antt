-- ===== src/Crypto/Code/Display.antt =====
-- A code that is shown is read back.
use clipse.Prelude.{
  ℕ, ◌+◌, ◌-◌, ◌<◌, ◌≡◌, refl, ap, ◌∙◌, Bool, true, false, List, [], ◌∷◌, ◌++◌, ◌==◌, arith, length,
}
use clipse.Prelude.Bytes.{Bytes}
use clipse.Crypto.Code.{PairingCode, ok, IsCode, is_decimal, is_skipped, parse_from, parse, display}
use clipse.Crypto.Code.Reading.{parse_from_lem, read_digits-six}

module _ (is_whitespace : ℕ → Bool) where
  not_skipped :
      (d : ℕ) → d < 10 → is_whitespace (d + 48) ≡ false → is_skipped is_whitespace (d + 48) ≡ false
  unfolding is_skipped
  not_skipped d small w = ground arith

  decimal : (d : ℕ) → d < 10 → is_decimal (d + 48) ≡ true
  unfolding is_decimal
  decimal d small = ground arith

  parse_from-space :
      (digits : Bytes) (text : List ℕ)
      → is_whitespace 32 ≡ true
      → parse_from is_whitespace digits (32 ∷ text) ≡ parse_from is_whitespace digits text
  unfolding parse_from is_skipped
  parse_from-space digits text h =
      let s : is_skipped is_whitespace 32 ≡ true = rw (h, is_skipped) refl in
      rw (s, parse_from) refl

  parse_from-digit :
      (digits : Bytes) (d : ℕ) (text : List ℕ)
      → d < 10
      → is_whitespace (d + 48) ≡ false
      → (length digits == 6) ≡ false
      → parse_from is_whitespace digits ((d + 48) ∷ text)
        ≡ parse_from is_whitespace (digits ++ d ∷ []) text
  unfolding parse_from
  parse_from-digit digits d text small w short =
      let s : is_skipped is_whitespace (d + 48) ≡ false = not_skipped d small w in
      let k : is_decimal (d + 48) ≡ true = decimal d small in
      let v : d + 48 - 48 ≡ d = omega arith in
      rw (s, k, short, parse_from) (ap (λ x. parse_from is_whitespace (digits ++ x ∷ []) text) v)

  parse-six :
      (digits : Bytes)
      → is_whitespace 32 ≡ true
      → ((d : ℕ) → d < 10 → is_whitespace (d + 48) ≡ false)
      → IsCode (record { digits = digits })
      → parse is_whitespace (display (record { digits = digits })) ≡ ok (record { digits = digits })
  unfolding parse display
  parse-six (a ∷ b ∷ c ∷ d ∷ e ∷ g ∷ []) space w (six, (ha, (hb, (hc, (hd, (he, (hg, end))))))) =
      let t5 = (g + 48) ∷ [] in
      let t4 = (e + 48) ∷ t5 in
      let t3 = (d + 48) ∷ t4 in
      let t2 = (c + 48) ∷ 32 ∷ t3 in
      let t1 = (b + 48) ∷ t2 in
      parse_from-digit [] a t1 ha (w a ha) refl
      ∙ parse_from-digit (a ∷ []) b t2 hb (w b hb) refl
      ∙ parse_from-digit (a ∷ b ∷ []) c (32 ∷ t3) hc (w c hc) refl
      ∙ parse_from-space (a ∷ b ∷ c ∷ []) t3 space
      ∙ parse_from-digit (a ∷ b ∷ c ∷ []) d t4 hd (w d hd) refl
      ∙ parse_from-digit (a ∷ b ∷ c ∷ d ∷ []) e t5 he (w e he) refl
      ∙ parse_from-digit (a ∷ b ∷ c ∷ d ∷ e ∷ []) g [] hg (w g hg) refl
      ∙ parse_from_lem is_whitespace (a ∷ b ∷ c ∷ d ∷ e ∷ g ∷ []) [] (omega arith)
      ∙ read_digits-six is_whitespace (a ∷ b ∷ c ∷ d ∷ e ∷ g ∷ []) refl
  parse-six [] space w h = absurd (omega (arith, h.0))
  parse-six (a ∷ []) space w h = absurd (omega (arith, h.0))
  parse-six (a ∷ b ∷ []) space w h = absurd (omega (arith, h.0))
  parse-six (a ∷ b ∷ c ∷ []) space w h = absurd (omega (arith, h.0))
  parse-six (a ∷ b ∷ c ∷ d ∷ []) space w h = absurd (omega (arith, h.0))
  parse-six (a ∷ b ∷ c ∷ d ∷ e ∷ []) space w h = absurd (omega (arith, h.0))
  parse-six (a ∷ b ∷ c ∷ d ∷ e ∷ g ∷ x ∷ more) space w h = absurd (omega (arith, h.0))

  -- What `display` shows is read back, whenever the space is white space and no decimal digit is.
  pub parse-display :
      (code : PairingCode)
      → is_whitespace 32 ≡ true
      → ((d : ℕ) → d < 10 → is_whitespace (d + 48) ≡ false)
      → IsCode code
      → parse is_whitespace (display code) ≡ ok code
  parse-display code space digit h = parse-six code.digits space digit h
