-- ===== src/Crypto/Code/Reading.antt =====
-- Reading a code back, and drawing one.
use mathlib.Core.List.{append_assoc, append-nil}
use clipse.Prelude.{
  ℕ, zero, suc, ◌+◌, ◌-◌, ◌%◌, ◌≤◌, ◌≡◌, sym, ◌∙◌, Bool, true, false, not, ◌&&◌, List, [], ◌∷◌,
  ◌++◌, map, Option, none, some, leb, ltb, ◌==◌, ==_iff, if◌then◌else◌, arith, length,
  length-append, take, keep_if, all_of, Bool-cases, inl, inr,
}
use clipse.Prelude.Bytes.{Bytes}
use clipse.Crypto.Code.{
  PairingCode, Result, ok, err, malformed_payload, sample_from, sample, is_decimal, is_skipped,
  parse_from, parse,
}

-- The bytes that sampling keeps.
abbrev pub accepted : Bytes → Bytes
accepted source = keep_if (λ byte. ltb byte 250) source

unfoldable pub sample_ref : ℕ → Bytes → Option Bytes
sample_ref n source =
    if leb n (length (accepted source))
    then some (map (λ byte. byte % 10) (take n (accepted source)))
    else none

sample_from_lem : (n : ℕ) (source : Bytes) → sample_from n source ≡ sample_ref n source
unfolding sample_from sample_ref
sample_from_lem zero source = ground arith
sample_from_lem (suc n) [] = ground arith
sample_from_lem (suc n) (byte ∷ source) =
    ground (arith, sample_from_lem n source, sample_from_lem (suc n) source)

-- Drawing a code ends as soon as the random bytes hold six below 250, and with the last digits of the
-- first six of these; without six of them it goes on.
pub sample_lem :
    (source : Bytes)
    → sample source ≡ (
        if leb 6 (length (accepted source))
        then some (record { digits = map (λ byte. byte % 10) (take 6 (accepted source)) })
        else none)
unfolding sample sample_ref
sample_lem source = ground (arith, sample_from_lem 6 source)

module _ (is_whitespace : ℕ → Bool) where
  -- The characters that `parse` reads.
  abbrev pub kept : List ℕ → List ℕ
  kept text = keep_if (λ c. not (is_skipped is_whitespace c)) text

  unfoldable pub read_digits : Bytes → List ℕ → Result PairingCode
  read_digits digits read =
      if all_of is_decimal read && length digits + length read == 6
      then ok (record { digits = digits ++ map (λ c. c - 48) read })
      else err malformed_payload

  read_digits-more :
      (digits : Bytes) (c : ℕ) (read : List ℕ)
      → is_decimal c ≡ true
      → read_digits (digits ++ (c - 48) ∷ []) read ≡ read_digits digits (c ∷ read)
  unfolding read_digits
  read_digits-more digits c read h = ground (
    arith,
    append_assoc digits ((c - 48) ∷ []) (map (λ d. d - 48) read),
    length-append digits ((c - 48) ∷ []),
  )

  read_digits-full :
      (digits : Bytes) (c : ℕ) (read : List ℕ)
      → length digits ≡ 6
      → read_digits digits (c ∷ read) ≡ err malformed_payload
  unfolding read_digits
  read_digits-full digits c read h = ground arith

  read_digits-other :
      (digits : Bytes) (c : ℕ) (read : List ℕ)
      → is_decimal c ≡ false
      → read_digits digits (c ∷ read) ≡ err malformed_payload
  unfolding read_digits
  read_digits-other digits c read h = ground arith

  longer :
      (digits : Bytes) (d : ℕ)
      → length digits ≤ 6
      → (length digits == 6) ≡ false
      → length (digits ++ d ∷ []) ≤ 6
  longer digits d h short = ground (arith, length-append digits (d ∷ []))

  pub read_digits-six :
      (digits : Bytes)
      → (length digits == 6) ≡ true
      → read_digits digits [] ≡ ok (record { digits = digits })
  unfolding read_digits
  read_digits-six digits h = ground (arith, append-nil digits)

  read_digits-short :
      (digits : Bytes)
      → (length digits == 6) ≡ false
      → read_digits digits [] ≡ err malformed_payload
  unfolding read_digits
  read_digits-short digits h = ground arith

  pub parse_from_lem :
      (digits : Bytes) (text : List ℕ)
      → length digits ≤ 6
      → parse_from is_whitespace digits text ≡ read_digits digits (kept text)
  unfolding parse_from
  parse_from_lem digits [] h = elim (Bool-cases (length digits == 6)) [
    | inl six ↦ rw (six, parse_from) (sym (read_digits-six digits six))
    | inr other ↦ rw (other, parse_from) (sym (read_digits-short digits other))
  ]
  parse_from_lem digits (c ∷ text) h = elim (Bool-cases (is_skipped is_whitespace c)) [
    | inl s ↦ rw (s, parse_from) (parse_from_lem digits text h)
    | inr s ↦ elim (Bool-cases (is_decimal c)) [
      | inr d ↦ rw (s, d, parse_from) (sym (read_digits-other digits c (kept text) d))
      | inl d ↦ elim (Bool-cases (length digits == 6)) [
        | inl full ↦
            rw (s, d, full, parse_from)
              (sym (read_digits-full digits c (kept text) ((==_iff (length digits) 6).0 full)))
        | inr short ↦
            let ih =
              parse_from_lem (digits ++ (c - 48) ∷ []) text (longer digits (c - 48) h short) in
            rw (s, d, short, parse_from) (ih ∙ read_digits-more digits c (kept text) d)
      ]
    ]
  ]

  -- What is typed is a code exactly if what is left without white space, dashes and underscores is six
  -- decimal digits, which then are the code.
  pub parse_lem :
      (text : List ℕ)
      → parse is_whitespace text ≡ (
          if all_of is_decimal (kept text) && length (kept text) == 6
          then ok (record { digits = map (λ c. c - 48) (kept text) })
          else err malformed_payload)
  unfolding parse read_digits
  parse_lem text = parse_from_lem [] text (omega arith) ∙ ground arith
