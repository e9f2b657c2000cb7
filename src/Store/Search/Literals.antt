-- ===== src/Store/Search/Literals.antt =====
-- A query that is escaped consists of string literals only.
use mathlib.Core.List.{append_assoc, append-nil}
use clipse.Prelude.{
  ℕ, ◌≡◌, ◌≢◌, refl, sym, ap, ◌∙◌, Bool, false, List, [], ◌∷◌, ◌++◌, Option, none, some, arith,
  ◌==◌, if◌then◌else◌, map, All, keep_if, not, Bool-cases, inl, inr, ◌⊎◌,
}
use clipse.Store.Search.{
  Text, put_word, split_first, split_whitespace, doubled, quoted, joined, escape_query,
}

-- How the grammar of a query reads string literals with spaces between them: outside of a literal, inside
-- of one, and after a quote inside, which ends the literal or is the first of two. Anything else is none.
pub data Reading : Type 0 where
  outside : Reading
  inside after_quote : Text → Reading

unfoldable pub prepended : Text → Option (List Text) → Option (List Text)
prepended word none = none
prepended word (some words) = some (word ∷ words)

unfoldable pub literals : Reading → Text → Option (List Text)
unfolding prepended
literals outside [] = some []
literals (inside word) [] = none
literals (after_quote word) [] = some (word ∷ [])
literals outside (c ∷ cs) =
    let next = literals outside cs in
    let opened = literals (inside []) cs in
    if c == 34 then opened else if c == 32 then next else none
literals (inside word) (c ∷ cs) =
    let closed = literals (after_quote word) cs in
    let longer = literals (inside (word ++ c ∷ [])) cs in if c == 34 then closed else longer
literals (after_quote word) (c ∷ cs) =
    let longer = literals (inside (word ++ c ∷ [])) cs in
    let next = literals outside cs in
    if c == 34 then longer else if c == 32 then prepended word next else none

literals-doubled :
    (term word rest : Text)
    → literals (inside word) (doubled term ++ 34 ∷ rest)
      ≡ literals (after_quote (word ++ term)) rest
unfolding literals doubled
literals-doubled [] word rest = ap (λ w. literals (after_quote w) rest) (sym (append-nil word))
literals-doubled (c ∷ cs) word rest =
    let ih =
      literals-doubled cs (word ++ c ∷ []) rest
      ∙ ap (λ w. literals (after_quote w) rest) (append_assoc word (c ∷ []) cs) in
    ground (arith, ih)

literals-quoted :
    (term rest : Text) → literals outside (quoted term ++ rest) ≡ literals (after_quote term) rest
unfolding literals quoted
literals-quoted term rest =
    ap (literals (inside [])) (append_assoc (doubled term) (34 ∷ []) rest)
    ∙ literals-doubled term [] rest

literals-joined :
    (term : Text) (terms : List Text)
    → literals outside (joined (quoted term) (map quoted terms)) ≡ some (term ∷ terms)
unfolding joined literals prepended
literals-joined term [] =
    ap (literals outside) (sym (append-nil (quoted term))) ∙ literals-quoted term []
literals-joined term (next ∷ rest) =
    literals-quoted term (32 ∷ joined (quoted next) (map quoted rest))
    ∙ ap (prepended term) (literals-joined next rest)

abbrev pub IsWord : (ℕ → Bool) → Text → Type 0
IsWord is_space word = (word ≢ []) × All (λ c. is_space c ≡ false) word

put_word-IsWord :
    (is_space : ℕ → Bool) (word : Text) (words : List Text)
    → All (λ c. is_space c ≡ false) word
    → All (IsWord is_space) words
    → All (IsWord is_space) (put_word word words)
unfolding put_word
put_word-IsWord is_space [] words a b = b
put_word-IsWord is_space (c ∷ word) words a b = (((λ e. cc), a), b)

split_first-IsWord :
    (is_space : ℕ → Bool) (text : Text)
    → All (λ c. is_space c ≡ false) (split_first is_space text).0
      × All (IsWord is_space) (split_first is_space text).1
unfolding split_first
split_first-IsWord is_space [] = (tt, tt)
split_first-IsWord is_space (c ∷ cs) =
    let (word, words) = split_first-IsWord is_space cs in
    elim (Bool-cases (is_space c)) [
      | inl space ↦ rw (space) (tt, put_word-IsWord is_space _ _ word words)
      | inr black ↦ rw (black) ((black, word), words)
    ]

-- The characters of words.
unfoldable pub characters : List Text → Text
characters [] = []
characters (word ∷ words) = word ++ characters words

characters-put_word :
    (word : Text) (words : List Text) → characters (put_word word words) ≡ word ++ characters words
unfolding characters put_word
characters-put_word [] words = refl
characters-put_word (c ∷ word) words = refl

split_first-kept :
    (is_space : ℕ → Bool) (text : Text)
    → (split_first is_space text).0 ++ characters (split_first is_space text).1
      ≡ keep_if (λ c. not (is_space c)) text
unfolding split_first characters
split_first-kept is_space [] = refl
split_first-kept is_space (c ∷ cs) =
    let ih = split_first-kept is_space cs in
    elim (Bool-cases (is_space c)) [
      | inl space ↦
          rw (space)
            (characters-put_word (split_first is_space cs).0 (split_first is_space cs).1 ∙ ih)
      | inr black ↦ rw (black) (ap (◌∷◌ c) ih)
    ]

-- A search query that is escaped is read as string literals only, one for each word of the input and equal to
-- it, and an input has no expression exactly if it has no word. The words are not empty and hold no
-- white space, and together they are the characters of the input that are not white space.
pub escape_query-literals :
    (is_space : ℕ → Bool) (input : Text)
    → All (IsWord is_space) (split_whitespace is_space input)
      × (characters (split_whitespace is_space input) ≡ keep_if (λ c. not (is_space c)) input)
      × (((escape_query is_space input ≡ none) × (split_whitespace is_space input ≡ []))
          ⊎ ((query : Text) × (escape_query is_space input ≡ some query)
              × (split_whitespace is_space input ≢ [])
              × (literals outside query ≡ some (split_whitespace is_space input))))
unfolding escape_query split_whitespace
escape_query-literals is_space input =
    let (word, words) = split_first-IsWord is_space input in
    (
      put_word-IsWord is_space _ _ word words,
      characters-put_word (split_first is_space input).0 (split_first is_space input).1
          ∙ split_first-kept is_space input,
      escaped (split_whitespace is_space input) refl,
    )
  where
    escaped_terms : List Text → Option Text
    escaped_terms [] = none
    escaped_terms (t ∷ ts) = some (joined (quoted t) (map quoted ts))

    escaped :
        (terms : List Text)
        → split_whitespace is_space input ≡ terms
        → ((escape_query is_space input ≡ none) × (split_whitespace is_space input ≡ []))
          ⊎ ((query : Text) × (escape_query is_space input ≡ some query)
              × (split_whitespace is_space input ≢ [])
              × (literals outside query ≡ some (split_whitespace is_space input)))
    escaped [] e = inl (ap escaped_terms e, e)
    escaped (t ∷ ts) e = inr (
      joined (quoted t) (map quoted ts),
      ap escaped_terms e,
      (λ z. cc),
      literals-joined t ts ∙ ap some (sym e),
    )
