-- ===== src/Crypto/Ceremony/Transcripts.antt =====
-- What the lengths in front of the parts are for: a transcript's hash input stands for that transcript.
use mathlib.Core.List.{reverse, reverse-reverse, reverse-cons}
use clipse.Prelude.{
  ℕ, ◌^◌, ◌≤◌, ◌<◌, ◌≡◌, ◌≢◌, refl, sym, ap, ◌∙◌, false, List, [], ◌∷◌, length, length-append,
  arith, All, inl, inr, ◌⊎◌, Bool-cases,
}
use clipse.Prelude.Bytes.{Bytes, bytes_eq, bytes_eq_refl, bytes_eq→eq}
use clipse.Prelude.Words.{u64_max, le_bytes, of_le_bytes, length-le_bytes, of_le_bytes-le_bytes}
use clipse.Core.Hash.Injective.{length_prefixed_inj}
use clipse.Crypto.Code.{joined, transcript_hash}
use clipse.Crypto.Ceremony.{mac}
use clipse.Crypto.Wire.{Transcript, parts, device_bytes, key_bytes}

-- Two inputs with the same digest.
abbrev pub Collision : (Bytes → Bytes) → Type 0
Collision digest = (x : Bytes) × (y : Bytes) × (x ≢ y) × (digest x ≡ digest y)

le_bytes_inj : (w m n : ℕ) → m < 256 ^ w → n < 256 ^ w → le_bytes w m ≡ le_bytes w n → m ≡ n
le_bytes_inj w m n hm hn e =
    sym (of_le_bytes-le_bytes w m hm) ∙ ap of_le_bytes e ∙ of_le_bytes-le_bytes w n hn

key_bytes_inj : (m n : ℕ) → m < 256 ^ 32 → n < 256 ^ 32 → key_bytes m ≡ key_bytes n → m ≡ n
unfolding key_bytes
key_bytes_inj m n hm hn e = le_bytes_inj 32 m n hm hn e

device_bytes_inj : (m n : ℕ) → m < 256 ^ 16 → n < 256 ^ 16 → device_bytes m ≡ device_bytes n → m ≡ n
unfolding device_bytes
device_bytes_inj m n hm hn e =
    let same =
      sym (reverse-reverse (le_bytes 16 m)) ∙ ap reverse e ∙ reverse-reverse (le_bytes 16 n) in
    le_bytes_inj 16 m n hm hn same

-- Lists of as many parts.
pub joined_inj :
    (ps qs : List Bytes)
    → length ps ≡ length qs
    → All (λ p. length p ≤ u64_max) ps
    → All (λ q. length q ≤ u64_max) qs
    → joined ps ≡ joined qs
    → ps ≡ qs
unfolding joined
joined_inj [] [] n hp hq e = refl
joined_inj [] (q ∷ qs) n hp hq e = absurd (omega arith)
joined_inj (p ∷ ps) [] n hp hq e = absurd (omega arith)
joined_inj (p ∷ ps) (q ∷ qs) n (h, hp) (k, hq) e =
    let (same, rest) = length_prefixed_inj p q (joined ps) (joined qs) h k e in
    cc (same, joined_inj ps qs (omega arith) hp hq rest)

different : {x y : Bytes} → x ≡ y → bytes_eq x y ≡ false → ⊥
different {x} {y} q h = cc (ap (bytes_eq x) q, h, bytes_eq_refl x)

-- Two hashes that agree are those of the same input, unless the digest has a collision.
pub digest-or_Collision :
    (digest : Bytes → Bytes) (x y : Bytes) → digest x ≡ digest y → (x ≡ y) ⊎ Collision digest
digest-or_Collision digest x y e = elim (Bool-cases (bytes_eq x y)) [
  | inl h ↦ inl (bytes_eq→eq x y h)
  | inr h ↦ inr (x, y, (λ q. different q h), e)
]

-- The fields fit their fixed sizes, as the types of the source have it.
pub record IsTranscript (t : Transcript) : Type 0 where
  pub version_fits : t.version < 256 ^ 2
  pub initiator_fits : t.initiator < 256 ^ 16
  pub initiator_key_fits : t.initiator_key < 256 ^ 32
  pub responder_fits : t.responder < 256 ^ 16
  pub responder_key_fits : t.responder_key < 256 ^ 32
  pub nonce_a_fits : length t.nonce_a ≡ 32
  pub nonce_b_fits : length t.nonce_b ≡ 32
  pub code_fits : length t.code.digits ≡ 6

length-reverse : (s : Bytes) → length (reverse s) ≡ length s
length-reverse [] = refl
length-reverse (c ∷ s) =
    ap length (reverse-cons c s)
    ∙ omega (arith, length-append (reverse s) (c ∷ []), length-reverse s)

length-device_bytes : (id : ℕ) → length (device_bytes id) ≡ 16
unfolding device_bytes
length-device_bytes id = length-reverse (le_bytes 16 id) ∙ length-le_bytes 16 id

length-key_bytes : (key : ℕ) → length (key_bytes key) ≡ 32
unfolding key_bytes
length-key_bytes key = length-le_bytes 32 key

pub parts_fit :
    (label : Bytes) (t : Transcript)
    → IsTranscript t
    → length label ≤ u64_max
    → All (λ p. length p ≤ u64_max) (parts label t)
unfolding parts
parts_fit label t h l = (
  l,
  (
    omega (arith, length-le_bytes 2 t.version),
    (
      omega (arith, length-device_bytes t.initiator),
      (
        omega (arith, length-key_bytes t.initiator_key),
        (
          omega (arith, length-device_bytes t.responder),
          (
            omega (arith, length-key_bytes t.responder_key),
            (
              omega (arith, h.nonce_a_fits),
              (omega (arith, h.nonce_b_fits), (omega (arith, h.code_fits), tt)),
            ),
          ),
        ),
      ),
    ),
  ),
)

transcript_eq :
    (t u : Transcript)
    → t.version ≡ u.version
    → t.initiator ≡ u.initiator
    → t.initiator_key ≡ u.initiator_key
    → t.responder ≡ u.responder
    → t.responder_key ≡ u.responder_key
    → t.nonce_a ≡ u.nonce_a
    → t.nonce_b ≡ u.nonce_b
    → t.code.digits ≡ u.code.digits
    → t ≡ u
transcript_eq t u v i ik r rk na nb c = cc

parts_inj :
    (label : Bytes) (t u : Transcript)
    → IsTranscript t
    → IsTranscript u
    → parts label t ≡ parts label u
    → t ≡ u
unfolding parts
parts_inj label t u ht hu e =
    transcript_eq t u (le_bytes_inj 2 t.version u.version ht.version_fits hu.version_fits (cc e))
      (device_bytes_inj t.initiator u.initiator ht.initiator_fits hu.initiator_fits (cc e))
      (key_bytes_inj t.initiator_key u.initiator_key ht.initiator_key_fits hu.initiator_key_fits
        (cc e))
      (device_bytes_inj t.responder u.responder ht.responder_fits hu.responder_fits (cc e))
      (key_bytes_inj t.responder_key u.responder_key ht.responder_key_fits hu.responder_key_fits
        (cc e))
      (cc e) (cc e) (cc e)

pub nine : (label : Bytes) (t u : Transcript) → length (parts label t) ≡ length (parts label u)
unfolding parts
nine label t u = refl

-- Equal authentication codes are those of equal transcripts, unless the digest has a collision.
pub mac_inj :
    (digest : Bytes → Bytes) (label : Bytes) (t u : Transcript)
    → length label ≤ u64_max
    → IsTranscript t
    → IsTranscript u
    → mac digest label t ≡ mac digest label u
    → (t ≡ u) ⊎ Collision digest
unfolding mac transcript_hash
mac_inj digest label t u l ht hu e =
    elim (digest-or_Collision digest (joined (parts label t)) (joined (parts label u)) e) [
      | inr c ↦ inr c
      | inl same ↦ inl (
          parts_inj label t u ht hu (
            joined_inj (parts label t) (parts label u) (nine label t u) (parts_fit label t ht l)
              (parts_fit label u hu l) same))
    ]
