-- ===== src/Clipboard/Secrets/Cards.antt =====
-- Card numbers are found wherever they stand, however they are grouped.
use mathlib.Core.List.{append_assoc, append-nil}
use clipse.Prelude.{ℕ, ◌≡◌, refl, true, false, [], ◌∷◌, ◌++◌, arith, all_of}
use clipse.Prelude.Bytes.{Bytes}
use clipse.Clipboard.Apps.{is_empty}
use clipse.Clipboard.Secrets.{is_run_character, is_card, scan_runs, contains_luhn_valid_card_number}

-- Where a run ends: at the end of the text or before a character of another kind.
abbrev pub Ends : Bytes → Type 0
Ends [] = Unit
Ends (c ∷ cs) = is_run_character c ≡ false

-- Where a run may start: at the start of the text or behind a character of another kind.
abbrev pub Starts : Bytes → Type 0
Starts [] = Unit
Starts (c ∷ []) = is_run_character c ≡ false
Starts (c ∷ d ∷ cs) = Starts (d ∷ cs)

is_empty-append : (run : Bytes) (c : ℕ) (rest : Bytes) → is_empty (run ++ (c ∷ rest)) ≡ false
unfolding is_empty
is_empty-append [] c rest = refl
is_empty-append (r ∷ run) c rest = refl

scan_flush :
    (run after : Bytes)
    → is_empty run ≡ false
    → is_card run ≡ true
    → Ends after
    → scan_runs run after ≡ true
unfolding scan_runs
scan_flush run [] e c h = ground arith
scan_flush run (a ∷ after) e c h = ground arith

scan-run :
    (run more after : Bytes)
    → all_of is_run_character more ≡ true
    → is_empty (run ++ more) ≡ false
    → is_card (run ++ more) ≡ true
    → Ends after
    → scan_runs run (more ++ after) ≡ true
unfolding scan_runs
scan-run run [] after m e c h =
    scan_flush run after (rw (append-nil run) at e) (rw (append-nil run) at c) h
scan-run run (x ∷ more) after m e c h =
    let same = append_assoc run (x ∷ []) more in
    let ih = scan-run (run ++ x ∷ []) more after (ground arith) (rw same e) (rw same c) h in
    ground (arith, ih)

-- One character in front of a text with a card number makes no difference.
scan_step :
    (run : Bytes) (c : ℕ) (rest : Bytes)
    → scan_runs [] rest ≡ true
    → scan_runs (run ++ c ∷ []) rest ≡ true
    → scan_runs run (c ∷ rest) ≡ true
unfolding scan_runs is_empty
scan_step [] c rest fresh longer = ground arith
scan_step (r ∷ run) c rest fresh longer = ground arith

scan_last :
    (run : Bytes) (c : ℕ) (rest : Bytes)
    → is_run_character c ≡ false
    → scan_runs [] rest ≡ true
    → scan_runs run (c ∷ rest) ≡ true
unfolding scan_runs is_empty
scan_last [] c rest h fresh = ground arith
scan_last (r ∷ run) c rest h fresh = ground arith

-- What stands before makes no difference if it ends a run.
scan-before :
    (run : Bytes) (c : ℕ) (before after : Bytes)
    → Starts (c ∷ before)
    → scan_runs [] after ≡ true
    → scan_runs run ((c ∷ before) ++ after) ≡ true
scan-before run c [] after s h = scan_last run c after s h
scan-before run c (d ∷ before) after s h =
    scan_step run c ((d ∷ before) ++ after) (scan-before [] d before after s h)
      (scan-before (run ++ c ∷ []) d before after s h)

card-is_empty : (run : Bytes) → is_card run ≡ true → is_empty run ≡ false
unfolding is_card is_empty
card-is_empty [] h = ground arith
card-is_empty (c ∷ run) h = refl

-- A card number in a text is found: if the digits of a run of digits, spaces and dashes are 13 to 19,
-- start like an issuer's numbers and pass the Luhn check, and the run does not go on before or behind
-- it, the text contains a card number, whatever else it contains.
pub contains-card :
    (before run after : Bytes)
    → Starts before
    → Ends after
    → all_of is_run_character run ≡ true
    → is_card run ≡ true
    → contains_luhn_valid_card_number (before ++ (run ++ after)) ≡ true
unfolding contains_luhn_valid_card_number
contains-card [] run after s e r c = scan-run [] run after r (card-is_empty run c) c e
contains-card (b ∷ before) run after s e r c =
    scan-before [] b before (run ++ after) s (scan-run [] run after r (card-is_empty run c) c e)
