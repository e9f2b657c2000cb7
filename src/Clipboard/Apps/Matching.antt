-- ===== src/Clipboard/Apps/Matching.antt =====
-- Which names a blocklist catches.
use mathlib.Core.List.{Memᴰ}
use clipse.Prelude.{◌≡◌, ◌≢◌, refl, sym, Bool, true, false, List, [], ◌∷◌, ◌++◌, map, arith, any_of}
use clipse.Prelude.Bytes.{Bytes}
use clipse.Clipboard.Apps.{normalize, starts_with, contains, new_blocklist, is_empty, is_blocked}

normalize-append : (s t : Bytes) → normalize (s ++ t) ≡ normalize s ++ normalize t
unfolding normalize
normalize-append [] t = refl
normalize-append (c ∷ s) t = ground (arith, normalize-append s t)

starts_with-append : (p s : Bytes) → starts_with p (p ++ s) ≡ true
unfolding starts_with
starts_with-append [] s = refl
starts_with-append (c ∷ p) s = ground (arith, starts_with-append p s)

contains-prefix : (p s : Bytes) → contains p (p ++ s) ≡ true
unfolding contains
contains-prefix [] [] = refl
contains-prefix [] (c ∷ s) = refl
contains-prefix (c ∷ p) s = ground (arith, starts_with-append (c ∷ p) s)

contains-append : (before p s : Bytes) → contains p (before ++ (p ++ s)) ≡ true
unfolding contains
contains-append [] p s = contains-prefix p s
contains-append (c ∷ before) p s = ground (arith, contains-append before p s)

any_of-map :
    (f : Bytes → Bool) (e : Bytes) (es : List Bytes)
    → Memᴰ e es
    → f (normalize e) ≡ true
    → any_of f (map normalize es) ≡ true
any_of-map f e [] m h = elim m [ ]
any_of-map f e (x ∷ es) (Memᴰ.head q) h = rw (sym q, h) refl
any_of-map f e (x ∷ es) (Memᴰ.tail m) h = ground (arith, any_of-map f e es m h)

not_empty : (before e after : Bytes) → e ≢ [] → is_empty (before ++ (e ++ after)) ≡ false
unfolding is_empty
not_empty [] [] after h = absurd (h refl)
not_empty [] (c ∷ e) after h = refl
not_empty (b ∷ before) e after h = refl

-- An application is blocked if its name has that of an entry inside it, whatever stands around it,
-- if the entry has at least one ASCII letter or digit.
pub is_blocked-append :
    (entries : List Bytes) (before e after : Bytes)
    → Memᴰ e entries
    → normalize e ≢ []
    → is_blocked (before ++ (e ++ after)) (new_blocklist entries) ≡ true
unfolding is_blocked new_blocklist
is_blocked-append entries before e after m n =
    let whole = normalize-append before (e ++ after) in
    let inner = normalize-append e after in
    rw (whole, inner, not_empty (normalize before) (normalize e) (normalize after) n)
      (any_of-map (λ entry. contains entry (normalize before ++ (normalize e ++ normalize after))) e
        entries m (contains-append (normalize before) (normalize e) (normalize after)))

contains_empty : (s : Bytes) → contains [] s ≡ true
unfolding contains starts_with
contains_empty [] = refl
contains_empty (c ∷ s) = refl

-- An entry without an ASCII letter or digit blocks every application whose name has one.
pub is_blocked_of_empty :
    (entries : List Bytes) (e app : Bytes)
    → Memᴰ e entries
    → normalize e ≡ []
    → is_empty (normalize app) ≡ false
    → is_blocked app (new_blocklist entries) ≡ true
unfolding is_blocked new_blocklist
is_blocked_of_empty entries e app m n a = rw a (
    any_of-map (λ entry. contains entry (normalize app)) e entries m
      (rw n (contains_empty (normalize app))))
