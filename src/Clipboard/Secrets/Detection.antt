-- ===== src/Clipboard/Secrets/Detection.antt =====
-- What `detect_secret` never lets through.
use clipse.Prelude.{
  ℕ, ◌+◌, ◌*◌, ◌/◌, ◌%◌, ◌<◌, ◌≡◌, ◌≢◌, refl, ap, ◌∙◌, Bool, true, false, ◌||◌, List, [], ◌∷◌, ◌++◌,
  none, some, arith, ◌==◌, All, any_of, all_of,
}
use clipse.Prelude.Bytes.{Bytes, ascii}
use clipse.Clipboard.Apps.{contains}
use clipse.Clipboard.Secrets.{
  Patterns, base64url_decode, first_segment, is_jwt_header, looks_like_jwt, detect_secret,
  is_run_character, is_card, contains_luhn_valid_card_number,
}
use clipse.Clipboard.Secrets.Base64.{symbol, base64url_encode, base64url_decode-encode}
use clipse.Clipboard.Secrets.Cards.{Starts, Ends, contains-card}

symbol-no_dot : (v : ℕ) → (symbol v == 46) ≡ false
unfolding symbol
symbol-no_dot v = ground arith

first_segment-append :
    (s rest : Bytes) → All (λ c. (c == 46) ≡ false) s → first_segment (s ++ 46 ∷ rest) ≡ s
unfolding first_segment
first_segment-append [] rest h = refl
first_segment-append (c ∷ s) rest (h, hs) = ground (arith, first_segment-append s rest hs)

no_dot : (s : Bytes) → All (λ c. (c == 46) ≡ false) (base64url_encode s)
unfolding base64url_encode
no_dot [] = tt
no_dot (a ∷ []) = (symbol-no_dot (a / 4), (symbol-no_dot (a % 4 * 16), tt))
no_dot (a ∷ b ∷ []) =
    (symbol-no_dot (a / 4), (symbol-no_dot (a % 4 * 16 + b / 16), (symbol-no_dot (b % 16 * 4), tt)))
no_dot (a ∷ b ∷ c ∷ s) = (
  symbol-no_dot (a / 4),
  (
    symbol-no_dot (a % 4 * 16 + b / 16),
    (symbol-no_dot (b % 16 * 4 + c / 64), (symbol-no_dot (c % 64), no_dot s)),
  ),
)

any_of-middle :
    {A : Type 0} (test : A → Bool) (xs : List A) (y : A) (ys : List A)
    → test y ≡ true
    → any_of test (xs ++ y ∷ ys) ≡ true
any_of-middle test [] y ys h = rw (h) refl
any_of-middle test (x ∷ xs) y ys h = ground (arith, any_of-middle test xs y ys h)

looks_like_jwt-found :
    (p : Patterns) (text token : Bytes) (found more : List Bytes)
    → p.jwt_matches text ≡ found ++ token ∷ more
    → is_jwt_header p token ≡ true
    → looks_like_jwt p text ≡ true
unfolding looks_like_jwt
looks_like_jwt-found p text token found more m h =
    ap (any_of (is_jwt_header p)) m ∙ any_of-middle (is_jwt_header p) found token more h

is_jwt_header-known :
    (p : Patterns) (text decoded : Bytes)
    → base64url_decode (first_segment text) ≡ some decoded
    → p.is_utf8 decoded ≡ true
    → contains (ascii "\"alg\"") decoded ≡ true
    → is_jwt_header p text ≡ true
unfolding is_jwt_header
is_jwt_header-known p text decoded h u c = rw (h, u, c, is_jwt_header)

detect_secret-any :
    (p : Patterns) (text : Bytes)
    → (looks_like_jwt p text || contains_luhn_valid_card_number text) ≡ true
    → detect_secret p text ≢ none
unfolding detect_secret
detect_secret-any p text h = ground arith

-- A text in which the pattern of JSON Web Tokens finds a token is a secret whenever the token's first
-- part is the encoding of a header that is UTF-8 text and names an algorithm.
pub detect_secret-jwt :
    (p : Patterns) (text header rest : Bytes) (found more : List Bytes)
    → p.jwt_matches text ≡ found ++ (base64url_encode header ++ 46 ∷ rest) ∷ more
    → All (λ b. b < 256) header
    → p.is_utf8 header ≡ true
    → contains (ascii "\"alg\"") header ≡ true
    → detect_secret p text ≢ none
detect_secret-jwt p text header rest found more m b u a =
    let header_first = first_segment-append (base64url_encode header) rest (no_dot header) in
    let known = ap base64url_decode header_first ∙ base64url_decode-encode header b in
    let is_header = is_jwt_header-known p (base64url_encode header ++ 46 ∷ rest) header known u a in
    detect_secret-any p text (rw (looks_like_jwt-found p text _ found more m is_header) refl)

-- A text with a card number is a secret: if the digits of a run of digits, spaces and dashes are 13 to
-- 19, start like an issuer's numbers and pass the Luhn check, and the run does not go on before or
-- behind it, the text is not without a secret, whatever else it contains.
pub detect_secret-card :
    (p : Patterns) (before run after : Bytes)
    → Starts before
    → Ends after
    → all_of is_run_character run ≡ true
    → is_card run ≡ true
    → detect_secret p (before ++ (run ++ after)) ≢ none
detect_secret-card p before run after s e r c =
    detect_secret-any p (before ++ (run ++ after))
      (ground (arith, contains-card before run after s e r c))
