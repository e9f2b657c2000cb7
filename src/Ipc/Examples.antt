-- ===== src/Ipc/Examples.antt =====
-- Two frames on a stream, where a frame is its own bytes, and the theorems at concrete inputs.
use clipse.Prelude.{◌≡◌, refl, sym, List, [], ◌∷◌, ◌++◌, Option, some, arith}
use clipse.Prelude.Bytes.{Bytes}
use clipse.Prelude.Words.{le_bytes}
use clipse.Ipc.Codec.{ok, err, unexpected_eof, read_frame, write_frame, write_all, read_many}
use clipse.Ipc.Codec.Streams.{read_many-write_all, read_frame-truncated}

abbrev keep : Bytes → Option Bytes
keep bytes = some bytes

abbrev frames : List Bytes
frames = (1 ∷ 2 ∷ []) ∷ (3 ∷ []) ∷ []

abbrev stream : Bytes
stream = 9 ∷ 2 ∷ 0 ∷ 0 ∷ 0 ∷ 1 ∷ 2 ∷ 1 ∷ 0 ∷ 0 ∷ 0 ∷ 3 ∷ []

stream-written : write_all keep keep (9 ∷ []) frames ≡ (stream, ok tt)
unfolding write_all write_frame le_bytes
stream-written = refl

read_many-write_all_example :
    (added : Bytes) × (stream ≡ 9 ∷ [] ++ added)
    × ((rest : Bytes) → read_many keep keep 2 (added ++ rest) ≡ (rest, ok frames))
read_many-write_all_example =
    read_many-write_all keep keep (λ f body e. sym e) (9 ∷ []) stream frames stream-written

size-one : 1 ∷ 0 ∷ 0 ∷ 0 ∷ 3 ∷ [] ≡ le_bytes 4 1 ++ 3 ∷ []
unfolding le_bytes
size-one = refl

read_frame-truncated_example : read_frame keep keep (1 ∷ 0 ∷ 0 ∷ 0 ∷ []) ≡ ([], err unexpected_eof)
read_frame-truncated_example =
    read_frame-truncated keep keep (3 ∷ []) (1 ∷ 0 ∷ 0 ∷ 0 ∷ []) (3 ∷ []) (omega arith) size-one
      (λ e. cc)
