-- ===== src/Net/Framing/Roundtrip.antt =====
-- A message that is encoded arrives.
use mathlib.Core.List.{append_assoc, append-nil}
use clipse.Prelude.{
  ℕ, ◌+◌, ◌≤◌, false, ◌≡◌, ◌≢◌, refl, sym, ap, ◌∙◌, List, [], ◌∷◌, ◌++◌, Option, none, some, arith,
  All, length, take, drop, length-append,
}
use clipse.Prelude.Bytes.{Bytes}
use clipse.Prelude.Words.{of_le_bytes}
use clipse.Crypto.Sessions.{
  Noise, Session, needs_rekey, used, write_message, read_message, rekey_after_messages,
  rekey_after_bytes,
}
use clipse.Crypto.Sessions as Sessions
use clipse.Net.Framing.{
  ok, segment_bytes, max_message_bytes, chunks, prefixed, expected_len, seal, encode, take_message,
  accept_frame, accept_all,
}
use clipse.Net.Framing.Segments.{
  joined, IsSegment, length-nonempty, joined-chunks, chunks-IsSegment, announced, length-prefixed,
  joined_cons, drop-prefixed, take_all, drop_all,
}

-- What the Noise library does for two ends of a channel: a segment that fits a Noise message is encrypted to
-- sixteen bytes more, the other end decrypts it, and both ends stay in step.
pub record IsChannel {Transport : Type 0} (noise : Noise Transport)
    (InStep : Transport → Transport → Type 0) : Type 0 where
  pub deliver :
      (a b : Transport) (segment : Bytes)
      → InStep a b
      → length segment ≤ 65519
      → (a' : Transport) × (b' : Transport) × (frame : Bytes) × (noise.encrypt a segment
          ≡ some (a', frame))
        × (noise.decrypt b frame ≡ some (b', segment))
        × (length frame ≡ length segment + 16)
        × InStep a' b'

-- The bytes that segments are encrypted to.
unfoldable pub sealed_bytes : List Bytes → ℕ
sealed_bytes [] = 0
sealed_bytes (segment ∷ rest) = length segment + 16 + sealed_bytes rest

-- A session whose key is not used up before these segments have passed.
abbrev pub HasRoom : {Transport : Type 0} → List Bytes → Session Transport → Type 0
HasRoom segments s =
    (s.messages_since_rekey + length segments ≤ rekey_after_messages)
    × (s.bytes_since_rekey + sealed_bytes segments ≤ rekey_after_bytes)

-- The segments of a message.
abbrev pub segments_of : Bytes → List Bytes
segments_of body = chunks (length (prefixed body)) segment_bytes (prefixed body)

module _ {Transport : Type 0} (noise : Noise Transport) (InStep : Transport → Transport → Type 0)
    (channel : IsChannel noise InStep) where
  abbrev IsReady : List Bytes → Session Transport → Session Transport → Type 0
  IsReady segments a b = InStep a.transport b.transport × HasRoom segments a × HasRoom segments b

  roomy :
      (segment : Bytes) (rest : List Bytes) (s : Session Transport)
      → HasRoom (segment ∷ rest) s
      → needs_rekey s ≡ false
  unfolding needs_rekey sealed_bytes
  roomy segment rest s h = ground arith

  used-HasRoom :
      (segment : Bytes) (rest : List Bytes) (s : Session Transport) (t : Transport) (n : ℕ)
      → n ≡ length segment + 16
      → HasRoom (segment ∷ rest) s
      → HasRoom rest (used s t n)
  unfolding used sealed_bytes
  used-HasRoom segment rest s t n e h = (omega (arith, h), omega (arith, e, h))

  write_message-room :
      (s : Session Transport) (segment frame : Bytes) (t : Transport)
      → needs_rekey s ≡ false
      → noise.encrypt s.transport segment ≡ some (t, frame)
      → write_message noise s segment ≡ (used s t (length frame), Sessions.ok frame)
  unfolding write_message
  write_message-room s segment frame t n e = rw (n, e, write_message) refl

  read_message-room :
      (s : Session Transport) (segment frame : Bytes) (t : Transport)
      → needs_rekey s ≡ false
      → noise.decrypt s.transport frame ≡ some (t, segment)
      → read_message noise s frame ≡ (used s t (length frame), Sessions.ok segment)
  unfolding read_message
  read_message-room s segment frame t n e = rw (n, e, read_message) refl

  -- One segment between two sessions that have room for it.
  deliver_segment :
      (a b : Session Transport) (segment : Bytes) (rest : List Bytes)
      → IsReady (segment ∷ rest) a b
      → length segment ≤ 65519
      → (a' : Session Transport) × (b' : Session Transport) × (frame : Bytes) × (write_message noise
            a segment
          ≡ (a', Sessions.ok frame))
        × (read_message noise b frame ≡ (b', Sessions.ok segment))
        × IsReady rest a' b'
  unfolding used
  deliver_segment a b segment rest (step, ra, rb) fit =
      let (ta, tb, frame, w, r, size, step') =
        channel.deliver a.transport b.transport segment step fit in
      (
        used a ta (length frame),
        used b tb (length frame),
        frame,
        write_message-room a segment frame ta (roomy segment rest a ra) w,
        read_message-room b segment frame tb (roomy segment rest b rb) r,
        (
          step',
          used-HasRoom segment rest a ta (length frame) size ra,
          used-HasRoom segment rest b tb (length frame) size rb,
        ),
      )

module _ {Transport M : Type 0} (noise : Noise Transport) (serialize : M → Option Bytes)
    (deserialize : Bytes → Option M) where
  -- The decoder waits while the message is not whole.
  take_message-partial :
      (body pre rest : Bytes)
      → length body ≤ max_message_bytes
      → pre ++ rest ≡ prefixed body
      → rest ≢ []
      → take_message noise serialize deserialize pre ≡ (pre, ok none)
  unfolding take_message expected_len
  take_message-partial body pre rest small e h = ground (
    arith,
    announced body pre rest small e,
    length-append pre rest,
    ap (λ (t : Bytes). length t) e,
    length-prefixed body,
    length-nonempty rest h,
  )

  -- A whole message is taken off the buffer.
  take_message-whole :
      (body : Bytes) (m : M)
      → length body ≤ max_message_bytes
      → deserialize body ≡ some m
      → take_message noise serialize deserialize (prefixed body) ≡ ([], ok (some m))
  unfolding take_message expected_len
  take_message-whole body m small d =
      let len =
        announced body (prefixed body) [] small (append-nil (prefixed body))
          (omega (arith, length-prefixed body)) in
      let taken : take (of_le_bytes (take 4 (prefixed body))) (drop 4 (prefixed body)) ≡ body =
        ap (λ n. take n (drop 4 (prefixed body))) len
        ∙ ap (take (length body)) (drop-prefixed body)
        ∙ take_all (length body) body (omega arith) in
      let gone : drop (4 + of_le_bytes (take 4 (prefixed body))) (prefixed body) ≡ [] =
        drop_all (4 + of_le_bytes (take 4 (prefixed body))) (prefixed body)
          (omega (arith, len, length-prefixed body)) in
      ground (arith, len, ap deserialize taken, gone, length-prefixed body)

  seal-cons :
      (a a' a'' : Session Transport) (segment frame : Bytes) (rest frames : List Bytes)
      → write_message noise a segment ≡ (a', Sessions.ok frame)
      → seal noise serialize deserialize a' rest ≡ ok (a'', frames)
      → seal noise serialize deserialize a (segment ∷ rest) ≡ ok (a'', frame ∷ frames)
  unfolding seal
  seal-cons a a' a'' segment frame rest frames w s = ground arith

  encode-seal :
      (m : M) (body : Bytes) (a a' : Session Transport) (frames : List Bytes)
      → serialize m ≡ some body
      → length body ≤ max_message_bytes
      → seal noise serialize deserialize a
          (chunks (length (prefixed body)) segment_bytes (prefixed body))
        ≡ ok (a', frames)
      → encode noise serialize deserialize a m ≡ ok (a', frames)
  unfolding encode
  encode-seal m body a a' frames s small h = ground arith

  accept_all-wait :
      (b b' b'' : Session Transport) (pre segment frame left : Bytes) (rest : List Bytes)
      (ms : List M)
      → read_message noise b frame ≡ (b', Sessions.ok segment)
      → take_message noise serialize deserialize (pre ++ segment) ≡ (pre ++ segment, ok none)
      → accept_all noise serialize deserialize b' (pre ++ segment) rest ≡ ok (b'', left, ms)
      → accept_all noise serialize deserialize b pre (frame ∷ rest) ≡ ok (b'', left, ms)
  unfolding accept_all accept_frame
  accept_all-wait b b' b'' pre segment frame left rest ms r t h = ground arith

  accept_all-last :
      (b b' : Session Transport) (pre segment frame : Bytes) (m : M)
      → read_message noise b frame ≡ (b', Sessions.ok segment)
      → take_message noise serialize deserialize (pre ++ segment) ≡ ([], ok (some m))
      → accept_all noise serialize deserialize b pre (frame ∷ []) ≡ ok (b', [], m ∷ [])
  unfolding accept_all accept_frame
  accept_all-last b b' pre segment frame m r t = ground arith

  module _ (InStep : Transport → Transport → Type 0) (channel : IsChannel noise InStep) where
    -- The segments of a message, after a first part that the decoder holds already.
    accept_all-seal :
        (body : Bytes) (m : M) (segment : Bytes) (segments : List Bytes) (pre : Bytes)
        (a b : Session Transport)
        → length body ≤ max_message_bytes
        → deserialize body ≡ some m
        → All IsSegment (segment ∷ segments)
        → pre ++ joined (segment ∷ segments) ≡ prefixed body
        → IsReady noise InStep channel (segment ∷ segments) a b
        → (a' : Session Transport) × (b' : Session Transport) × (frames : List Bytes) × (seal noise
              serialize deserialize a
              (segment ∷ segments)
            ≡ ok (a', frames))
          × (accept_all noise serialize deserialize b pre frames ≡ ok (b', [], m ∷ []))
          × IsReady noise InStep channel [] a' b'
    unfolding seal accept_all accept_frame
    accept_all-seal body m segment [] pre a b small d fit e r =
        let (a', b', frame, w, rd, r') =
          deliver_segment noise InStep channel a b segment [] r (omega (arith, fit.0.1)) in
        let whole : pre ++ segment ≡ prefixed body =
          ap (λ t. pre ++ t) (sym (append-nil segment)) ∙ e in
        let taken = take_message-whole body m small d in
        (
          a',
          b',
          frame ∷ [],
          seal-cons a a' a' segment frame [] [] w refl,
          accept_all-last b b' pre segment frame m rd (rw whole taken),
          r',
        )
    accept_all-seal body m segment (next ∷ segments) pre a b small d fit e r =
        let (a', b', frame, w, rd, r') =
          deliver_segment noise InStep channel a b segment (next ∷ segments) r
            (omega (arith, fit.0.1)) in
        let split : (pre ++ segment) ++ joined (next ∷ segments) ≡ prefixed body =
          append_assoc pre segment (joined (next ∷ segments)) ∙ e in
        let (a'', b'', frames, s, t, r'') =
          accept_all-seal body m next segments (pre ++ segment) a' b' small d fit.1 split r' in
        let wait =
          take_message-partial body (pre ++ segment) (joined (next ∷ segments)) small split
            (joined_cons next segments fit.1.0.0) in
        (
          a'',
          b'',
          frame ∷ frames,
          seal-cons a a' a'' segment frame (next ∷ segments) frames w s,
          accept_all-wait b b' b'' pre segment frame [] frames (m ∷ []) rd wait t,
          r'',
        )

    accept_all-segments :
        (body : Bytes) (m : M) (segments : List Bytes) (a b : Session Transport)
        → length body ≤ max_message_bytes
        → deserialize body ≡ some m
        → All IsSegment segments
        → joined segments ≡ prefixed body
        → IsReady noise InStep channel segments a b
        → (a' : Session Transport) × (b' : Session Transport) × (frames : List Bytes) × (seal noise
              serialize deserialize a segments
            ≡ ok (a', frames))
          × (accept_all noise serialize deserialize b [] frames ≡ ok (b', [], m ∷ []))
          × IsReady noise InStep channel [] a' b'
    accept_all-segments body m [] a b small d fit e r =
        absurd (omega (arith, length-prefixed body, ap (λ (t : Bytes). length t) e))
    accept_all-segments body m (s ∷ ss) a b small d fit e r =
        accept_all-seal body m s ss [] a b small d fit e r

    -- A message of at most 32 MiB that the serialiser reads back arrives, if both sessions have room for its
    -- segments before they need a new key: its frames are sent, the other end accepts all of them,
    -- they complete exactly this message, nothing is left in the buffer, and the two ends are in step again.
    pub accept_all-encode :
        (m : M) (body : Bytes) (a b : Session Transport)
        → serialize m ≡ some body
        → deserialize body ≡ some m
        → length body ≤ max_message_bytes
        → InStep a.transport b.transport
        → HasRoom (segments_of body) a
        → HasRoom (segments_of body) b
        → (a' : Session Transport) × (b' : Session Transport) × (frames : List Bytes) × (encode
              noise serialize deserialize a m
            ≡ ok (a', frames))
          × (accept_all noise serialize deserialize b [] frames ≡ ok (b', [], m ∷ []))
          × InStep a'.transport b'.transport
    accept_all-encode m body a b s d small step ra rb =
        let plaintext = prefixed body in
        let (a', b', frames, sealed, taken, r') =
          accept_all-segments body m (segments_of body) a b small d
            (chunks-IsSegment (length plaintext) plaintext)
            (joined-chunks (length plaintext) plaintext (omega arith)) (step, ra, rb) in
        (a', b', frames, encode-seal m body a a' frames s small sealed, taken, r'.0)
