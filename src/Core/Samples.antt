-- ===== src/Core/Samples.antt =====
-- Concrete data for the runs of the components.
use clipse.Prelude.{ℕ, ◌+◌, [], ◌∷◌, Bool, none}
use clipse.Prelude.Bytes.{Bytes}
use clipse.Core.Id.{ContentHash}
use clipse.Core.Hlc.{Hlc}
use clipse.Core.Clip.Format.{other_kind}
use clipse.Core.Clip.{Clip}

-- A digest that is good enough to run: the sum of the bytes.
unfoldable pub sum : Bytes → ContentHash
sum [] = 0
sum (b ∷ bs) = b + sum bs

abbrev pub at_time : ℕ → Hlc
at_time n = record { wall_ms = n; counter = 0; device = 1 }

-- A clip without payloads, which has the hash 0 under `sum`.
abbrev pub copy : ℕ → ℕ → Bool → Bool → Clip
copy hash time pinned deleted = record {
  id = time;
  hash = hash;
  kind = other_kind;
  payloads = [];
  preview = [];
  source = record { device = 1; device_label = []; app = none };
  hlc = at_time time;
  created_at_ms = time;
  pinned = pinned;
  deleted = deleted;
}
