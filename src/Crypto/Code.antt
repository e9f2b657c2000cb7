-- ===== src/Crypto/Code.antt =====
-- crates/clipse-crypto/src/pairing.rs: the six digits of a pairing, and the hash of labelled parts.
-- BLAKE3 is a library's and is the parameter `digest`, from bytes to bytes; the random generator is the
-- list of the bytes that it gives; characters are their code points, and which of them are white
-- space is a parameter.
pub mod Reading
pub mod Display
use clipse.Prelude.{
  ℕ, zero, suc, ◌+◌, ◌-◌, ◌%◌, Bool, ◌||◌, ◌&&◌, List, [], ◌∷◌, ◌++◌, Option, none, some, leb, ltb,
  ◌==◌, length, take, replicate, true, false, ◌≡◌, ◌<◌, All,
}
use clipse.Prelude.Bytes.{Bytes, ascii, bytes_eq}
use clipse.Core.Hash.{length_prefixed}

-- The failures of crates/clipse-crypto/src/error.rs that pairing has.
pub data Error : Type 0 where
  pairing_failed pairing_expired malformed_payload : Error

pub data Result {ℓ} (A : Type ℓ) : Type ℓ where
  ok : A → Result A
  err : Error → Result A

abbrev pub max_lookup_attempts : ℕ
max_lookup_attempts = 8

-- The labels.
abbrev pub tag_label : Bytes
tag_label = ascii "clipse-pairing-tag-v2"

abbrev pub commit_label : Bytes
commit_label = ascii "clipse-pairing-commit-v2"

abbrev pub mac_a_label : Bytes
mac_a_label = ascii "clipse-pairing-mac-initiator-v2"

abbrev pub mac_b_label : Bytes
mac_b_label = ascii "clipse-pairing-mac-responder-v2"

-- What `transcript_hash` feeds the hasher.
unfoldable pub joined : List Bytes → Bytes
unfolding length_prefixed
joined [] = []
joined (part ∷ parts) = length_prefixed part ++ joined parts

-- `PairingCode`: six digits.
pub record PairingCode : Type 0 where
  pub digits : Bytes

abbrev pub IsCode : PairingCode → Type 0
IsCode code = (length code.digits ≡ 6) × All (λ d. d < 10) code.digits

-- The loop of `sample`, from the digits that are missing.
unfoldable pub sample_from : ℕ → Bytes → Option Bytes
sample_from zero source = some []
sample_from (suc n) [] = none
sample_from (suc n) (byte ∷ source) = elim (ltb byte 250) [
  | true ↦ elim (sample_from n source) [ none ↦ none | some digits ↦ some (byte % 10 ∷ digits) ]
  | false ↦ sample_from (suc n) source
]

-- `PairingCode::sample`; `none` while the source has not given enough.
unfoldable pub sample : Bytes → Option PairingCode
unfolding sample_from
sample source = elim (sample_from 6 source) [
  | none ↦ none
  | some digits ↦ some (record { digits = digits })
]

-- `char::to_digit(10)` is a digit.
unfoldable pub is_decimal : ℕ → Bool
is_decimal c = leb 48 c && leb c 57

module _ (is_whitespace : ℕ → Bool) where
  -- The characters that `parse` passes over.
  unfoldable pub is_skipped : ℕ → Bool
  is_skipped c = is_whitespace c || c == 45 || c == 95

  -- The loop of `parse`, from the digits read so far.
  unfoldable pub parse_from : Bytes → List ℕ → Result PairingCode
  unfolding is_skipped is_decimal
  parse_from digits [] = elim (length digits == 6) [
    | true ↦ ok (record { digits = digits })
    | false ↦ err malformed_payload
  ]
  parse_from digits (c ∷ text) = elim (is_skipped c) [
    | true ↦ parse_from digits text
    | false ↦ elim (is_decimal c) [
      | true ↦ elim (length digits == 6) [
        | true ↦ err malformed_payload
        | false ↦ parse_from (digits ++ (c - 48) ∷ []) text
      ]
      | false ↦ err malformed_payload
    ]
  ]

  -- `PairingCode::parse`.
  unfoldable pub parse : List ℕ → Result PairingCode
  unfolding parse_from
  parse text = parse_from [] text

-- `Display`, as characters.
unfoldable pub display : PairingCode → List ℕ
display code = elim code.digits [
  | a ∷ b ∷ c ∷ d ∷ e ∷ g ∷ [] ↦
      (a + 48) ∷ (b + 48) ∷ (c + 48) ∷ 32 ∷ (d + 48) ∷ (e + 48) ∷ (g + 48) ∷ []
  | _ ↦ []
]

module _ (digest : Bytes → Bytes) where
  unfoldable pub transcript_hash : List Bytes → Bytes
  unfolding joined
  transcript_hash parts = digest (joined parts)

  -- `PairingCode::tag`.
  unfoldable pub tag : PairingCode → Bytes
  unfolding transcript_hash
  tag code = take 16 (transcript_hash (tag_label ∷ code.digits ∷ []))

  -- `PairingCode::matches_tag`, with both sides filled up to 32 bytes.
  unfoldable pub matches_tag : PairingCode → Bytes → Bool
  unfolding tag
  matches_tag code candidate = bytes_eq (tag code ++ replicate 16 0) (candidate ++ replicate 16 0)
