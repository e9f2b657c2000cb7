-- ===== src/Core/Examples.antt =====
-- Runs of crates/clipse-core, and its theorems at concrete inputs.
use mathlib.Core.List.{Permᴰ}
use clipse.Prelude.{◌≡◌, refl, List, [], ◌∷◌, true, false, none, arith, ==_iff}
use clipse.Prelude.Bytes.{Bytes, ascii}
use clipse.Prelude.Words.{le_bytes}
use clipse.Core.Samples.{sum}
use clipse.Core.Hlc.{Hlc, new_clock, now, observe}
use clipse.Core.Hlc.Order.{Before}
use clipse.Core.Hlc.Clock.{
  ClockEvent, local, remote, stamps, last, IsIncreasing, stamps-IsIncreasing,
}
use clipse.Core.Hlc.Drift.{observe_future, now-observe_saturated}
use clipse.Core.Clip.Format.{ClipFormat, ClipKind, label, display_rank}
use clipse.Core.Clip.{
  Payload, inline, blob, Clip, ClipSource, new_clip, hash_matches, compute_hash, headline_kind,
}
use clipse.Core.Clip.Identity.{HasDistinctLabels, new_clip_of_perm, hash_matches-parts, parts}

-- The clock stalls, goes back and hears from a peer that is ahead.
abbrev history : List ClockEvent
history =
    local 1000
    ∷ local 1000
    ∷ local 900
    ∷ remote 950 (record { wall_ms = 1500; counter = 7; device = 2 })
    ∷ local 1200
    ∷ local 2000
    ∷ []

stamps-history :
    stamps (new_clock 1) history
    ≡ record { wall_ms = 1000; counter = 0; device = 1 }
      ∷ record { wall_ms = 1000; counter = 1; device = 1 }
      ∷ record { wall_ms = 1000; counter = 2; device = 1 }
      ∷ record { wall_ms = 1500; counter = 8; device = 1 }
      ∷ record { wall_ms = 1500; counter = 9; device = 1 }
      ∷ record { wall_ms = 2000; counter = 0; device = 1 }
      ∷ []
unfolding stamps
stamps-history = refl

stamps-IsIncreasing_example : IsIncreasing (last (new_clock 1)) (stamps (new_clock 1) history)
unfolding stamps
stamps-IsIncreasing_example = stamps-IsIncreasing (new_clock 1) history (omega arith)

abbrev ahead : Hlc
ahead = record { wall_ms = 1500; counter = 7; device = 2 }

abbrev far_ahead : Hlc
far_ahead = record { wall_ms = 100000; counter = 4294967295; device = 2 }

observe_future_example :
    Before (observe 1000 far_ahead (new_clock 1)).1 far_ahead
    × Before (now 2000 (observe 1000 far_ahead (new_clock 1)).0).1 far_ahead
observe_future_example =
    observe_future 1000 2000 far_ahead (new_clock 1) (omega arith) (omega arith) (omega arith)
      (omega arith)

now-observe_saturated_example :
    ((observe 1000 far_ahead (new_clock 1)).1.wall_ms ≡ 1000)
    × ((observe 1000 far_ahead (new_clock 1)).1.counter ≡ 4294967295)
    × ((now 1000 (observe 1000 far_ahead (new_clock 1)).0).1
        ≡ (observe 1000 far_ahead (new_clock 1)).1)
now-observe_saturated_example =
    now-observe_saturated 1000 far_ahead (new_clock 1) (omega arith) (omega arith) refl
      (omega arith)

-- The pair that a hash without length prefixes would confuse.
abbrev two_parts : List (Bytes × Bytes)
two_parts = (ascii "ab", ascii "c") ∷ (ascii "d", ascii "") ∷ []

abbrev no_preview : List Payload → ClipKind → Bytes
no_preview ps k = []

abbrev here : ClipSource
here = record { device = 1; device_label = ascii "desk"; app = none }

abbrev plain : Payload
plain = record { format = ClipFormat.text; digest = 5; size = 2; body = inline (ascii "hi") }

abbrev rich : Payload
rich = record { format = ClipFormat.html; digest = 9; size = 4; body = inline (ascii "<hi>") }

abbrev picture : Payload
picture = record { format = ClipFormat.png; digest = 77; size = 90000; body = blob }

plain_and_rich : HasDistinctLabels (plain ∷ rich ∷ [])
unfolding label
plain_and_rich = (((λ e. ground arith), tt), (tt, tt))

new_clip_of_perm_example :
    new_clip sum no_preview 3 (plain ∷ rich ∷ []) here ahead
    ≡ new_clip sum no_preview 3 (rich ∷ plain ∷ []) here ahead
new_clip_of_perm_example =
    new_clip_of_perm sum no_preview 3 here ahead (plain ∷ rich ∷ []) (rich ∷ plain ∷ [])
      (Permᴰ.swap refl refl) plain_and_rich

abbrev received : Clip
received = record {
  id = 3;
  hash = compute_hash sum (rich ∷ plain ∷ []);
  kind = ClipKind.html_kind;
  payloads = rich ∷ plain ∷ [];
  preview = [];
  source = here;
  hlc = ahead;
  created_at_ms = 1500;
  pinned = false;
  deleted = false;
}

abbrev pinned_copy : Clip
pinned_copy = record {
  id = 8;
  hash = compute_hash sum (rich ∷ plain ∷ []);
  kind = ClipKind.html_kind;
  payloads = rich ∷ plain ∷ [];
  preview = [];
  source = here;
  hlc = far_ahead;
  created_at_ms = 0;
  pinned = true;
  deleted = false;
}

hash_matches-parts_example : parts received.payloads ≡ parts pinned_copy.payloads
unfolding hash_matches label le_bytes
hash_matches-parts_example =
    hash_matches-parts sum received pinned_copy (omega arith) (omega arith) (λ e. refl)
      ((==_iff _ _).1 refl) ((==_iff _ _).1 refl) refl

-- An image beats html and text.
headline : headline_kind (plain ∷ picture ∷ rich ∷ []) ≡ ClipKind.image_kind
unfolding headline_kind display_rank
headline = refl
