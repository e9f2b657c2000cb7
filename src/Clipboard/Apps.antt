-- ===== src/Clipboard/Apps.antt =====
-- crates/clipse-clipboard/src/sensitive/apps.rs: the blocklist of applications. Names are their
-- UTF-8 bytes; only ASCII letters and digits survive normalisation, so the bytes of other characters
-- are dropped as the characters are.
pub mod Matching
use clipse.Prelude.{
  ℕ, ◌+◌, Bool, true, false, not, ◌&&◌, List, [], ◌∷◌, ◌++◌, map, leb, ◌==◌, if◌then◌else◌, keep_if,
  any_of,
}
use clipse.Prelude.Bytes.{Bytes, ascii}

-- `char::is_ascii_alphanumeric`.
unfoldable pub is_alphanumeric : ℕ → Bool
is_alphanumeric c =
    if leb 48 c && leb c 57
    then true
    else if leb 65 c && leb c 90
    then true
    else leb 97 c && leb c 122

-- `char::to_ascii_lowercase`.
unfoldable pub to_lowercase : ℕ → ℕ
to_lowercase c = if leb 65 c && leb c 90 then c + 32 else c

-- `normalize`.
unfoldable pub normalize : Bytes → Bytes
unfolding is_alphanumeric to_lowercase
normalize s = map to_lowercase (keep_if is_alphanumeric s)

-- `str::starts_with` and `str::contains`.
unfoldable pub starts_with : Bytes → Bytes → Bool
starts_with [] s = true
starts_with (p ∷ ps) [] = false
starts_with (p ∷ ps) (c ∷ s) = if p == c then starts_with ps s else false

unfoldable pub contains : Bytes → Bytes → Bool
unfolding starts_with
contains pattern_bytes [] = starts_with pattern_bytes []
contains pattern_bytes (c ∷ s) =
    if starts_with pattern_bytes (c ∷ s) then true else contains pattern_bytes s

pub record AppBlocklist : Type 0 where
  pub normalized : List Bytes

-- `AppBlocklist::new`.
unfoldable pub new_blocklist : List Bytes → AppBlocklist
unfolding normalize
new_blocklist entries = record { normalized = map normalize entries }

-- `with_extra`.
unfoldable pub with_extra : List Bytes → AppBlocklist → AppBlocklist
unfolding normalize
with_extra entries list = record { normalized = list.normalized ++ map normalize entries }

-- `String::is_empty`.
unfoldable pub is_empty : Bytes → Bool
is_empty [] = true
is_empty (c ∷ s) = false

-- `is_blocked`.
unfoldable pub is_blocked : Bytes → AppBlocklist → Bool
unfolding normalize contains is_empty
is_blocked app_name list =
    let app = normalize app_name in
    not (is_empty app) && any_of (λ entry. contains entry app) list.normalized

abbrev pub default_blocked_apps : List Bytes
default_blocked_apps =
    ascii "1Password"
    ∷ ascii "Bitwarden"
    ∷ ascii "KeePassXC"
    ∷ ascii "LastPass"
    ∷ ascii "Dashlane"
    ∷ ascii "Proton Pass"
    ∷ ascii "Keeper"
    ∷ ascii "Enpass"
    ∷ ascii "Keychain Access"
    ∷ []

-- `AppBlocklist::defaults`.
unfoldable pub default_blocklist : AppBlocklist
unfolding new_blocklist
default_blocklist = new_blocklist default_blocked_apps
