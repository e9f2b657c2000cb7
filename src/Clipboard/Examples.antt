-- ===== src/Clipboard/Examples.antt =====
-- Runs of crates/clipse-clipboard, and its theorems at concrete inputs.
use mathlib.Core.List.{Memᴰ}
use clipse.Prelude.{◌≡◌, refl, [], ◌∷◌, some, true, false}
use clipse.Prelude.Bytes.{ascii}
use clipse.Clipboard.OwnWrites.{OwnWriteGuard}
use clipse.Clipboard.Apps.{normalize, is_empty, new_blocklist, is_blocked, default_blocklist}
use clipse.Clipboard.Apps.Matching.{is_blocked_of_empty}

abbrev written : OwnWriteGuard
written = record { ttl = 750; pending = some (record { hash = 7; written_at = 100 }) }

is_blocked_of_empty_example :
    is_blocked (ascii "notepad.exe") (new_blocklist (ascii "--" ∷ [])) ≡ true
unfolding normalize is_empty
is_blocked_of_empty_example =
    is_blocked_of_empty (ascii "--" ∷ []) (ascii "--") (ascii "notepad.exe") (Memᴰ.head refl) refl
      refl

-- The documented cases.
one_password : is_blocked (ascii "1PASSWORD.EXE") default_blocklist ≡ true
unfolding is_blocked default_blocklist
one_password = refl

notepad : is_blocked (ascii "notepad.exe") default_blocklist ≡ false
unfolding is_blocked default_blocklist
notepad = refl
