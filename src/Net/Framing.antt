-- ===== src/Net/Framing.antt =====
-- crates/clipse-net/src/framing.rs: a message as the frames of a session of Crypto/Sessions.antt, and back. The
-- calls of the Noise library and the serialiser are parameters.
pub mod Segments
pub mod Roundtrip
use clipse.Prelude.{
  ℕ, zero, suc, ◌+◌, ◌%◌, ◌^◌, Bool, true, false, List, [], ◌∷◌, ◌++◌, Option, none, some, ltb,
  if◌then◌else◌, length, take, drop,
}
use clipse.Prelude.Bytes.{Bytes}
use clipse.Prelude.Words.{le_bytes, of_le_bytes}
use clipse.Crypto.Sessions.{SessionError, Noise, Session, write_message, read_message}
use clipse.Crypto.Sessions as Sessions

abbrev pub segment_bytes : ℕ
segment_bytes = 60000

-- 32 MiB.
abbrev pub max_message_bytes : ℕ
max_message_bytes = 33554432

-- The errors of `LinkError` that framing raises.
pub data LinkError : Type 0 where
  crypto : SessionError → LinkError
  encode_failed decode_failed : LinkError
  too_large : ℕ → ℕ → LinkError

pub data Result {ℓ} (A : Type ℓ) : Type ℓ where
  ok : A → Result A
  err : LinkError → Result A

-- `slice::chunks`, on fuel: the length of the list is enough.
unfoldable pub chunks : ℕ → ℕ → Bytes → List Bytes
chunks zero n xs = []
chunks (suc fuel) n [] = []
chunks (suc fuel) n (x ∷ xs) = take n (x ∷ xs) ∷ chunks fuel n (drop n (x ∷ xs))

-- The length of a message, then the message.
unfoldable pub prefixed : Bytes → Bytes
prefixed body = le_bytes 4 (length body % 2 ^ 32) ++ body

-- `Decoder::expected_len`.
unfoldable pub expected_len : Bytes → Result (Option ℕ)
expected_len buffer =
    if ltb (length buffer) 4
    then ok none
    else let len : ℕ = of_le_bytes (take 4 buffer) in
      if ltb max_message_bytes len then err (too_large len max_message_bytes) else ok (some len)

module _ {Transport M : Type 0} (noise : Noise Transport) (serialize : M → Option Bytes)
    (deserialize : Bytes → Option M) where
  -- The segments encrypted in order; the first failure ends it.
  unfoldable pub seal : Session Transport → List Bytes → Result (Session Transport × List Bytes)
  unfolding write_message
  seal s [] = ok (s, [])
  seal s (segment ∷ rest) =
      let (s', sealed) = write_message noise s segment in
      let others = seal s' rest in
      elim sealed [
        | Sessions.err e ↦ err (crypto e)
        | Sessions.ok frame ↦ elim others [
          | err e ↦ err e
          | ok (s'', frames) ↦ ok (s'', frame ∷ frames)
        ]
      ]

  -- `encode`.
  unfoldable pub encode : Session Transport → M → Result (Session Transport × List Bytes)
  unfolding seal prefixed chunks
  encode s message = elim (serialize message) [
    | none ↦ err encode_failed
    | some body ↦
        if ltb max_message_bytes (length body)
        then err (too_large (length body) max_message_bytes)
        else let plaintext = prefixed body in
          seal s (chunks (length plaintext) segment_bytes plaintext)
  ]

  -- What `Decoder::accept` does once the buffer has grown: the buffer that is left, and the answer.
  unfoldable pub take_message : Bytes → Bytes × Result (Option M)
  unfolding expected_len
  take_message buffer = elim (expected_len buffer) [
    | err e ↦ (buffer, err e)
    | ok none ↦ (buffer, ok none)
    | ok (some len) ↦
        if ltb (length buffer) (4 + len)
        then (buffer, ok none)
        else elim (deserialize (take len (drop 4 buffer))) [
          | none ↦ (buffer, err decode_failed)
          | some m ↦ (drop (4 + len) buffer, ok (some m))
        ]
  ]

  -- `Decoder::accept`, on the session and the buffer.
  unfoldable pub accept_frame :
      Session Transport → Bytes → Bytes → (Session Transport × Bytes) × Result (Option M)
  unfolding take_message read_message
  accept_frame s buffer frame =
      let (s', opened) = read_message noise s frame in
      elim opened [
        | Sessions.err e ↦ ((s', buffer), err (crypto e))
        | Sessions.ok segment ↦
            let (left, answer) = take_message (buffer ++ segment) in ((s', left), answer)
      ]

  -- Frames accepted in order, with the messages that they complete; the first error ends it.
  unfoldable pub accept_all :
      Session Transport → Bytes → List Bytes → Result (Session Transport × Bytes × List M)
  unfolding accept_frame
  accept_all s buffer [] = ok (s, buffer, [])
  accept_all s buffer (frame ∷ rest) =
      let ((s', left), answer) = accept_frame s buffer frame in
      elim answer [
        | err e ↦ err e
        | ok none ↦ accept_all s' left rest
        | ok (some m) ↦ elim (accept_all s' left rest) [
          | err e ↦ err e
          | ok (s'', left', ms) ↦ ok (s'', left', m ∷ ms)
        ]
      ]
