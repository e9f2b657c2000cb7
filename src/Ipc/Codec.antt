-- ===== src/Ipc/Codec.antt =====
-- crates/clipse-ipc/src/codec.rs: frames on a stream of bytes. The serialiser is a parameter. A writer is what has
-- been written to it, a reader what is left until its end; other failures of a stream are not modelled.
pub mod Streams
use clipse.Prelude.{
  ℕ, zero, suc, ◌*◌, List, [], ◌∷◌, ◌++◌, Option, none, some, ltb, if◌then◌else◌, length, take,
  drop,
}
use clipse.Prelude.Bytes.{Bytes}
use clipse.Prelude.Words.{u32_max, le_bytes, of_le_bytes}

abbrev pub max_frame_bytes : ℕ
max_frame_bytes = 32 * 1024 * 1024

pub data FrameError : Type 0 where
  unexpected_eof decode_failed encode_failed closed : FrameError
  too_large : ℕ → FrameError

pub data Result {ℓ} (A : Type ℓ) : Type ℓ where
  ok : A → Result A
  err : FrameError → Result A

module _ {Frame : Type 0} (serialize : Frame → Option Bytes)
    (deserialize : Bytes → Option Frame) where
  -- `write_frame`.
  unfoldable pub write_frame : Bytes → Frame → Bytes × Result (Unit {0})
  write_frame writer frame = elim (serialize frame) [
    | none ↦ (writer, err encode_failed)
    | some body ↦
        if ltb u32_max (length body)
        then (writer, err (too_large u32_max))
        else if ltb max_frame_bytes (length body)
        then (writer, err (too_large (length body)))
        else ((writer ++ le_bytes 4 (length body)) ++ body, ok tt)
  ]

  -- The body of a frame of the given size, and what is read from it.
  unfoldable pub read_body : ℕ → Bytes → Bytes × Result Frame
  read_body size reader =
      if ltb (length reader) size
      then ([], err unexpected_eof)
      else elim (deserialize (take size reader)) [
        | none ↦ (drop size reader, err decode_failed)
        | some frame ↦ (drop size reader, ok frame)
      ]

  -- `read_frame`.
  unfoldable pub read_frame : Bytes → Bytes × Result Frame
  unfolding read_body
  read_frame reader =
      if ltb (length reader) 4
      then ([], err closed)
      else let size : ℕ = of_le_bytes (take 4 reader) in
        if ltb max_frame_bytes size
        then (drop 4 reader, err (too_large size))
        else read_body size (drop 4 reader)

  -- Frames written one after the other, up to the first failure.
  unfoldable pub write_all : Bytes → List Frame → Bytes × Result (Unit {0})
  unfolding write_frame
  write_all writer [] = (writer, ok tt)
  write_all writer (f ∷ fs) =
      let (written, answer) = write_frame writer f in
      elim answer [ err e ↦ (written, err e) | ok _ ↦ write_all written fs ]

  -- So many frames read one after the other, up to the first failure.
  unfoldable pub read_many : ℕ → Bytes → Bytes × Result (List Frame)
  unfolding read_frame
  read_many zero reader = (reader, ok [])
  read_many (suc n) reader =
      let (left, answer) = read_frame reader in
      elim answer [
        | err e ↦ (left, err e)
        | ok f ↦
            let (end, rest) = read_many n left in
            elim rest [ err e ↦ (end, err e) | ok fs ↦ (end, ok (f ∷ fs)) ]
      ]
