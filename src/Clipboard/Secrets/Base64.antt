-- ===== src/Clipboard/Secrets/Base64.antt =====
-- Decoding against the encoding of RFC 4648, section 5, without padding, three bytes at a time.
use clipse.Prelude.{
  ℕ, ◌+◌, ◌-◌, ◌*◌, ◌/◌, ◌%◌, ◌<◌, ◌≡◌, refl, ap, ◌∙◌, [], ◌∷◌, ◌++◌, some, arith, ltb, ◌==◌,
  if◌then◌else◌, All,
}
use clipse.Prelude.Bytes.{Bytes}
use clipse.Clipboard.Secrets.{
  Chunk, no_symbols, one_symbol, two_symbols, three_symbols, base64url_value, byte_0, byte_1,
  byte_2, next_chunk, pushed, leftover, decode_symbols, base64url_decode,
}

-- The alphabet.
unfoldable pub symbol : ℕ → ℕ
symbol v =
    if ltb v 26
    then v + 65
    else if ltb v 52
    then v + 71
    else if ltb v 62
    then v - 4
    else if v == 62
    then 45
    else 95

unfoldable pub base64url_encode : Bytes → Bytes
unfolding symbol
base64url_encode [] = []
base64url_encode (a ∷ []) = symbol (a / 4) ∷ symbol (a % 4 * 16) ∷ []
base64url_encode (a ∷ b ∷ []) =
    symbol (a / 4) ∷ symbol (a % 4 * 16 + b / 16) ∷ symbol (b % 16 * 4) ∷ []
base64url_encode (a ∷ b ∷ c ∷ s) =
    symbol (a / 4)
    ∷ symbol (a % 4 * 16 + b / 16)
    ∷ symbol (b % 16 * 4 + c / 64)
    ∷ symbol (c % 64)
    ∷ base64url_encode s

value-symbol : (v : ℕ) → v < 64 → base64url_value (symbol v) ≡ some v
unfolding base64url_value symbol
value-symbol v h = ground arith

decode-known :
    (chunk : Chunk) (b v : ℕ) (s out : Bytes)
    → base64url_value b ≡ some v
    → decode_symbols (next_chunk chunk v) s ≡ some out
    → decode_symbols chunk (b ∷ s) ≡ some (pushed chunk v ++ out)
unfolding decode_symbols
decode-known chunk b v s out h e = rw (h, e, decode_symbols)

-- One symbol in front.
decode-symbol :
    (chunk : Chunk) (v : ℕ) (s out : Bytes)
    → v < 64
    → decode_symbols (next_chunk chunk v) s ≡ some out
    → decode_symbols chunk (symbol v ∷ s) ≡ some (pushed chunk v ++ out)
decode-symbol chunk v s out h e = decode-known chunk (symbol v) v s out (value-symbol v h) e

byte_0_lem : (a b : ℕ) → a < 256 → b < 256 → byte_0 (a / 4) (a % 4 * 16 + b / 16) ≡ a
unfolding byte_0
byte_0_lem a b ha hb = omega arith

byte_1_lem :
    (a b c : ℕ)
    → a < 256
    → b < 256
    → c < 256
    → byte_1 (a % 4 * 16 + b / 16) (b % 16 * 4 + c / 64) ≡ b
unfolding byte_1
byte_1_lem a b c ha hb hc = omega arith

byte_2_lem : (b c : ℕ) → b < 256 → c < 256 → byte_2 (b % 16 * 4 + c / 64) (c % 64) ≡ c
unfolding byte_2
byte_2_lem b c hb hc = omega arith

byte_0_last : (a : ℕ) → a < 256 → byte_0 (a / 4) (a % 4 * 16) ≡ a
unfolding byte_0
byte_0_last a ha = omega arith

byte_1_last : (a b : ℕ) → a < 256 → b < 256 → byte_1 (a % 4 * 16 + b / 16) (b % 16 * 4) ≡ b
unfolding byte_1
byte_1_last a b ha hb = omega arith

decode-end : (chunk : Chunk) → decode_symbols chunk [] ≡ leftover chunk
unfolding decode_symbols
decode-end chunk = refl

decode-one :
    (a : ℕ)
    → a < 256
    → decode_symbols no_symbols (symbol (a / 4) ∷ symbol (a % 4 * 16) ∷ []) ≡ some (a ∷ [])
unfolding next_chunk pushed leftover
decode-one a ha =
    let last = decode-symbol (one_symbol (a / 4)) (a % 4 * 16) [] _ (omega arith) (decode-end _) in
    let all = decode-symbol no_symbols (a / 4) _ _ (omega arith) last in
    all ∙ ap (λ x. some (x ∷ [])) (byte_0_last a ha)

decode-two :
    (a b : ℕ)
    → a < 256
    → b < 256
    → decode_symbols no_symbols
        (symbol (a / 4) ∷ symbol (a % 4 * 16 + b / 16) ∷ symbol (b % 16 * 4) ∷ [])
      ≡ some (a ∷ b ∷ [])
unfolding next_chunk pushed leftover
decode-two a b ha hb =
    let x = a / 4 in
    let y = a % 4 * 16 + b / 16 in
    let last = decode-symbol (two_symbols x y) (b % 16 * 4) [] _ (omega arith) (decode-end _) in
    let middle = decode-symbol (one_symbol x) y _ _ (omega arith) last in
    let all = decode-symbol no_symbols x _ _ (omega arith) middle in
    all
    ∙ ap (λ n. some (n ∷ byte_1 y (b % 16 * 4) ∷ [])) (byte_0_lem a b ha hb)
    ∙ ap (λ n. some (a ∷ n ∷ [])) (byte_1_last a b ha hb)

decode-three :
    (a b c : ℕ) (s out : Bytes)
    → a < 256
    → b < 256
    → c < 256
    → decode_symbols no_symbols s ≡ some out
    → decode_symbols no_symbols (
        symbol (a / 4)
        ∷ symbol (a % 4 * 16 + b / 16)
        ∷ symbol (b % 16 * 4 + c / 64)
        ∷ symbol (c % 64)
        ∷ s)
      ≡ some (a ∷ b ∷ c ∷ out)
unfolding next_chunk pushed
decode-three a b c s out ha hb hc e =
    let x = a / 4 in
    let y = a % 4 * 16 + b / 16 in
    let z = b % 16 * 4 + c / 64 in
    let w = c % 64 in
    let last = decode-symbol (three_symbols x y z) w s out (omega arith) e in
    let third = decode-symbol (two_symbols x y) z _ _ (omega arith) last in
    let second = decode-symbol (one_symbol x) y _ _ (omega arith) third in
    let all = decode-symbol no_symbols x _ _ (omega arith) second in
    all
    ∙ ap (λ n. some (n ∷ byte_1 y z ∷ byte_2 z w ∷ out)) (byte_0_lem a b ha hb)
    ∙ ap (λ n. some (a ∷ n ∷ byte_2 z w ∷ out)) (byte_1_lem a b c ha hb hc)
    ∙ ap (λ n. some (a ∷ b ∷ n ∷ out)) (byte_2_lem b c hb hc)

decode-encode :
    (s : Bytes) → All (λ b. b < 256) s → decode_symbols no_symbols (base64url_encode s) ≡ some s
unfolding base64url_encode leftover
decode-encode [] h = decode-end no_symbols
decode-encode (a ∷ []) h = decode-one a h.0
decode-encode (a ∷ b ∷ []) h = decode-two a b h.0 h.1.0
decode-encode (a ∷ b ∷ c ∷ s) h =
    decode-three a b c (base64url_encode s) s h.0 h.1.0 h.1.1.0 (decode-encode s h.1.1.1)

-- Decoding gives back the bytes of an encoding, of any length.
pub base64url_decode-encode :
    (s : Bytes) → All (λ b. b < 256) s → base64url_decode (base64url_encode s) ≡ some s
unfolding base64url_decode
base64url_decode-encode s h = decode-encode s h
