-- ===== src/Ipc/Codec/Streams.antt =====
-- What is written on a stream is read from it, and a frame that is cut off is an error.
use mathlib.Core.List.{append_assoc, append-nil}
use clipse.Prelude.{
  ℕ, suc, ◌≤◌, ◌≡◌, ◌≢◌, refl, sym, ap, ◌∙◌, List, [], ◌∷◌, ◌++◌, Option, some, arith, ltb,
  if◌then◌else◌, length, take, drop, length-append, take_append, drop_append, length-drop,
  Option-cases, inl, inr, ◌⊎◌,
}
use clipse.Prelude.Bytes.{Bytes}
use clipse.Prelude.Words.{le_bytes, of_le_bytes, length-le_bytes, of_le_bytes-le_bytes}
use clipse.Net.Framing.Segments.{length-nonempty, take-prefix}
use clipse.Ipc.Codec.{
  FrameError, Result, ok, err, max_frame_bytes, unexpected_eof, closed, write_frame, read_frame,
  read_body, write_all, read_many,
}

-- The size of a body, then the body.
abbrev pub framed : Bytes → Bytes
framed body = le_bytes 4 (length body) ++ body

-- What is read does not depend on the bytes of the size beyond their value.
size_read :
    (n : ℕ) (bytes : Bytes) → n ≤ max_frame_bytes → of_le_bytes (take 4 (le_bytes 4 n ++ bytes)) ≡ n
unfolding le_bytes
size_read n bytes h = of_le_bytes-le_bytes 4 n (omega (arith, h))

size_dropped : (n : ℕ) (bytes : Bytes) → drop 4 (le_bytes 4 n ++ bytes) ≡ bytes
unfolding le_bytes
size_dropped n bytes = refl

answer-cases :
    (r : Bytes × Result (Unit {0}))
    → ((written : Bytes) × (x : FrameError) × (r ≡ (written, err x)))
      ⊎ ((written : Bytes) × (r ≡ (written, ok tt)))
answer-cases (written, err x) = inl (written, x, refl)
answer-cases (written, ok tt) = inr (written, refl)

module _ {Frame : Type 0} (serialize : Frame → Option Bytes)
    (deserialize : Bytes → Option Frame) where
  read_frame-sized :
      (n : ℕ) (bytes : Bytes)
      → n ≤ max_frame_bytes
      → read_frame serialize deserialize (le_bytes 4 n ++ bytes)
        ≡ read_body serialize deserialize n bytes
  unfolding read_frame
  read_frame-sized n bytes h =
      let long = length-append (le_bytes 4 n) bytes in
      let four = length-le_bytes 4 n in ground (arith, size_read n bytes h, size_dropped n bytes)

  read_frame-framed :
      (frame : Frame) (body rest : Bytes)
      → length body ≤ max_frame_bytes
      → deserialize body ≡ some frame
      → read_frame serialize deserialize (framed body ++ rest) ≡ (rest, ok frame)
  unfolding read_body
  read_frame-framed frame body rest h e =
      ap (read_frame serialize deserialize) (append_assoc (le_bytes 4 (length body)) body rest)
      ∙ read_frame-sized (length body) (body ++ rest) h
      ∙ ground (arith, length-append body rest, take_append body rest, drop_append body rest)

  write_frame-ok :
      (writer : Bytes) (frame : Frame) (written : Bytes)
      → write_frame serialize deserialize writer frame ≡ (written, ok tt)
      → (body : Bytes) × (serialize frame ≡ some body)
        × (length body ≤ max_frame_bytes)
        × (written ≡ writer ++ framed body)
  unfolding write_frame
  write_frame-ok writer frame written e = elim (Option-cases (serialize frame)) [
    | inl s ↦ ground arith
    | inr (body, s) ↦
        (body, s, ground arith, ground (arith, append_assoc writer (le_bytes 4 (length body)) body))
  ]

  -- What `write_all` has written when it succeeds is what is read, whatever follows on the stream.
  read_many-framed :
      (n : ℕ) (frame : Frame) (frames : List Frame) (body bytes rest : Bytes)
      → length body ≤ max_frame_bytes
      → deserialize body ≡ some frame
      → read_many serialize deserialize n (bytes ++ rest) ≡ (rest, ok frames)
      → read_many serialize deserialize (suc n) ((framed body ++ bytes) ++ rest)
        ≡ (rest, ok (frame ∷ frames))
  unfolding read_many
  read_many-framed n frame frames body bytes rest h e more =
      let one =
        ap (read_frame serialize deserialize) (append_assoc (framed body) bytes rest)
        ∙ read_frame-framed frame body (bytes ++ rest) h e in
      ap
        (λ r. elim r.1 [
          | err x ↦ (r.0, err x)
          | ok f ↦
              let (end, left) = read_many serialize deserialize n r.0 in
              elim left [ err x ↦ (end, err x) | ok fs ↦ (end, ok (f ∷ fs)) ]
        ])
        one
      ∙ ap (λ r. elim r.1 [ err x ↦ (r.0, err x) | ok fs ↦ (r.0, ok (frame ∷ fs)) ]) more

  -- Frames that are written one after the other without an error are read back, all of them and in their
  -- order, from what was added to the stream, and nothing of what follows it is touched; if the
  -- serialiser reads what it has written.
  pub read_many-write_all :
      (law : (f : Frame) (body : Bytes) → serialize f ≡ some body → deserialize body ≡ some f)
      (writer written : Bytes) (frames : List Frame)
      → write_all serialize deserialize writer frames ≡ (written, ok tt)
      → (added : Bytes) × (written ≡ writer ++ added)
        × ((rest : Bytes)
            → read_many serialize deserialize (length frames) (added ++ rest) ≡ (rest, ok frames))
  unfolding write_all read_many
  read_many-write_all law writer written [] e =
      ([], sym (ap (λ r. r.0) e) ∙ sym (append-nil writer), λ rest. refl)
  read_many-write_all law writer written (f ∷ fs) e =
      elim (answer-cases (write_frame serialize deserialize writer f)) [
        | inl (middle, x, w) ↦ ground arith
        | inr (middle, w) ↦
            let (body, s, small, at) = write_frame-ok writer f middle w in
            let (added, all, back) = read_many-write_all law middle written fs (
              ap
                (λ r. elim r.1 [
                  | err x ↦ (r.0, err x)
                  | ok _ ↦ write_all serialize deserialize r.0 fs
                ])
                (sym w)
              ∙ e) in
            (
              framed body ++ added,
              all ∙ ap (λ z. z ++ added) at ∙ append_assoc writer (framed body) added,
              λ rest.
                  read_many-framed (length fs) f fs body added rest small (law f body s)
                    (back rest),
            )
      ]

  -- A frame whose last bytes are missing is not read: the stream counts as closed where not even the size of the
  -- frame is whole, and as ended unexpectedly otherwise.
  pub read_frame-truncated :
      (body pre lost : Bytes)
      → length body ≤ max_frame_bytes
      → pre ++ lost ≡ framed body
      → lost ≢ []
      → read_frame serialize deserialize pre
        ≡ ([], err (if ltb (length pre) 4 then closed else unexpected_eof))
  unfolding read_frame read_body
  read_frame-truncated body pre lost h e l =
      let size : 4 ≤ length pre → of_le_bytes (take 4 pre) ≡ length body = λ long.
        sym (ap of_le_bytes (take-prefix 4 pre lost long))
        ∙ ap (λ z. of_le_bytes (take 4 z)) e
        ∙ size_read (length body) body h in
      let total = ap length e in
      ground (
        arith,
        size,
        total,
        length-append pre lost,
        length-append (le_bytes 4 (length body)) body,
        length-le_bytes 4 (length body),
        length-nonempty lost l,
        length-drop 4 pre,
      )
