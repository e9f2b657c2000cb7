-- ===== src/Clipboard/Secrets.antt =====
-- crates/clipse-clipboard/src/sensitive/secrets.rs: what looks like a secret. Text is its UTF-8 bytes.
-- The regular expressions and the UTF-8 check are library calls and are parameters: what each pattern
-- matches, and the matches of the JWT pattern in order.
pub mod Base64
pub mod Luhn
pub mod Cards
pub mod Detection
use mathlib.Core.List.{reverse}
use clipse.Prelude.{
  ℕ, ◌+◌, ◌-◌, ◌*◌, ◌/◌, ◌%◌, Bool, true, false, not, ◌&&◌, ◌||◌, List, [], ◌∷◌, ◌++◌, Option, none,
  some, leb, ltb, ◌==◌, if◌then◌else◌, length, keep_if, any_of,
}
use clipse.Prelude.Bytes.{Bytes, ascii}
use clipse.Clipboard.Apps.{contains, is_empty}

pub data SecretKind : Type 0 where
  jwt aws_access_key git_hub_token slack_token stripe_key open_ai_key google_api_key private_key_pem
        credit_card :
      SecretKind

-- `base64url_value`.
unfoldable pub base64url_value : ℕ → Option ℕ
base64url_value c =
    if leb 65 c && leb c 90
    then some (c - 65)
    else if leb 97 c && leb c 122
    then some (c - 97 + 26)
    else if leb 48 c && leb c 57
    then some (c - 48 + 52)
    else if c == 45
    then some 62
    else if c == 95
    then some 63
    else none

-- The first `chunk_len` entries of `chunk`.
pub data Chunk : Type 0 where
  no_symbols : Chunk
  one_symbol : ℕ → Chunk
  two_symbols : ℕ → ℕ → Chunk
  three_symbols : ℕ → ℕ → ℕ → Chunk

-- The bytes of the symbols, `<<` on `u8` and `|` of disjoint bits.
unfoldable pub byte_0 : ℕ → ℕ → ℕ
byte_0 a b = a * 4 % 256 + b / 16

unfoldable pub byte_1 : ℕ → ℕ → ℕ
byte_1 b c = b * 16 % 256 + c / 4

unfoldable pub byte_2 : ℕ → ℕ → ℕ
byte_2 c d = c * 64 % 256 + d

-- The chunk after one more symbol, and what is pushed when it is full.
unfoldable pub next_chunk : Chunk → ℕ → Chunk
next_chunk no_symbols v = one_symbol v
next_chunk (one_symbol a) v = two_symbols a v
next_chunk (two_symbols a b) v = three_symbols a b v
next_chunk (three_symbols a b c) v = no_symbols

unfoldable pub pushed : Chunk → ℕ → Bytes
unfolding byte_0 byte_1 byte_2
pushed (three_symbols a b c) v = byte_0 a b ∷ byte_1 b c ∷ byte_2 c v ∷ []
pushed _ v = []

-- The `match` on what is left over at the end.
unfoldable pub leftover : Chunk → Option Bytes
unfolding byte_0 byte_1
leftover no_symbols = some []
leftover (one_symbol a) = none
leftover (two_symbols a b) = some (byte_0 a b ∷ [])
leftover (three_symbols a b c) = some (byte_0 a b ∷ byte_1 b c ∷ [])

unfoldable pub decode_symbols : Chunk → Bytes → Option Bytes
unfolding base64url_value next_chunk pushed leftover
decode_symbols chunk [] = leftover chunk
decode_symbols chunk (b ∷ bs) = elim (base64url_value b) [
  | none ↦ none
  | some v ↦ elim (decode_symbols (next_chunk chunk v) bs) [
    | none ↦ none
    | some out ↦ some (pushed chunk v ++ out)
  ]
]

-- `base64url_decode`.
unfoldable pub base64url_decode : Bytes → Option Bytes
unfolding decode_symbols
base64url_decode s = decode_symbols no_symbols s

-- `split('.').next()`.
unfoldable pub first_segment : Bytes → Bytes
first_segment [] = []
first_segment (c ∷ s) = let rest = first_segment s in if c == 46 then [] else c ∷ rest

unfoldable pub is_digit : ℕ → Bool
is_digit c = leb 48 c && leb c 57

-- The number that leading digits stand for.
unfoldable pub leading_two : Bytes → ℕ
leading_two (a ∷ b ∷ _) = (a - 48) * 10 + (b - 48)
leading_two _ = 0

unfoldable pub leading_four : Bytes → ℕ
leading_four (a ∷ b ∷ c ∷ d ∷ _) = (a - 48) * 1000 + (b - 48) * 100 + (c - 48) * 10 + (d - 48)
leading_four _ = 0

unfoldable pub starts_with_four : Bytes → Bool
starts_with_four [] = false
starts_with_four (c ∷ s) = c == 52

-- `has_card_issuer_prefix`, on digits.
unfoldable pub has_card_issuer_prefix : Bytes → Bool
unfolding leading_two leading_four starts_with_four
has_card_issuer_prefix digits =
    let two : ℕ = leading_two digits in
    let four : ℕ = leading_four digits in
    starts_with_four digits
    || (leb 51 two && leb two 55)
    || (leb 2221 four && leb four 2720)
    || (two == 34 || two == 37)
    || (two == 65 || four == 6011)
    || (leb 644 (four / 10) && leb (four / 10) 649)
    || two == 62
    || two == 35
    || (two == 30 || two == 36 || two == 38)

-- What a digit adds to the sum at an index from the right.
unfoldable pub weight : ℕ → ℕ → ℕ
weight i d = if i % 2 == 1 then (if ltb 9 (d * 2) then d * 2 - 9 else d * 2) else d

unfoldable pub luhn_sum : ℕ → Bytes → ℕ
unfolding weight
luhn_sum i [] = 0
luhn_sum i (c ∷ cs) = weight i (c - 48) + luhn_sum (i + 1) cs

-- `luhn_valid`, on digits; the sum of at most 19 of them fits a `u32`.
unfoldable pub luhn_valid : Bytes → Bool
unfolding luhn_sum
luhn_valid digits = luhn_sum 0 (reverse digits) % 10 == 0

-- What `flush_and_check` answers for a run.
unfoldable pub is_card : Bytes → Bool
unfolding is_digit has_card_issuer_prefix luhn_valid
is_card run =
    let digits = keep_if is_digit run in
    (leb 13 (length digits) && leb (length digits) 19)
    && has_card_issuer_prefix digits
    && luhn_valid digits

unfoldable pub is_run_character : ℕ → Bool
unfolding is_digit
is_run_character c = is_digit c || c == 32 || c == 45

-- The loop over the characters, with the run so far.
unfoldable pub scan_runs : Bytes → Bytes → Bool
unfolding is_run_character is_card is_empty
scan_runs run [] = not (is_empty run) && is_card run
scan_runs run (c ∷ cs) =
    let longer = scan_runs (run ++ c ∷ []) cs in
    let fresh = scan_runs [] cs in
    if is_run_character c
    then longer
    else if is_empty run
    then scan_runs run cs
    else if is_card run
    then true
    else fresh

-- `contains_luhn_valid_card_number`.
unfoldable pub contains_luhn_valid_card_number : Bytes → Bool
unfolding scan_runs
contains_luhn_valid_card_number text = scan_runs [] text

-- The patterns, and `str::from_utf8`.
pub record Patterns : Type 0 where
  pub pem_header : Bytes → Bool
  pub aws_key : Bytes → Bool
  pub github_token : Bytes → Bool
  pub slack_token_pattern : Bytes → Bool
  pub stripe_key_pattern : Bytes → Bool
  pub openai_key : Bytes → Bool
  pub google_key : Bytes → Bool
  pub jwt_matches : Bytes → List Bytes
  pub is_utf8 : Bytes → Bool

-- The test of one match of the JWT pattern.
unfoldable pub is_jwt_header : Patterns → Bytes → Bool
unfolding base64url_decode first_segment contains
is_jwt_header p match_text = elim (base64url_decode (first_segment match_text)) [
  | none ↦ false
  | some decoded ↦ p.is_utf8 decoded && contains (ascii "\"alg\"") decoded
]

-- `looks_like_jwt`.
unfoldable pub looks_like_jwt : Patterns → Bytes → Bool
unfolding is_jwt_header
looks_like_jwt p text = any_of (is_jwt_header p) (p.jwt_matches text)

-- `detect_secret`.
unfoldable pub detect_secret : Patterns → Bytes → Option SecretKind
unfolding looks_like_jwt contains_luhn_valid_card_number
detect_secret p text =
    if p.pem_header text
    then some private_key_pem
    else if p.aws_key text
    then some aws_access_key
    else if p.github_token text
    then some git_hub_token
    else if p.slack_token_pattern text
    then some slack_token
    else if p.stripe_key_pattern text
    then some stripe_key
    else if p.openai_key text
    then some open_ai_key
    else if p.google_key text
    then some google_api_key
    else if looks_like_jwt p text
    then some jwt
    else if contains_luhn_valid_card_number text
    then some credit_card
    else none
