-- ===== src/Store/Search.antt =====
-- crates/clipse-store/src/fts.rs: a search query as an expression of string literals. A text is the list of its
-- characters; which of them are white space is a parameter.
pub mod Literals
use clipse.Prelude.{ℕ, Bool, List, [], ◌∷◌, ◌++◌, Option, none, some, ◌==◌, if◌then◌else◌, map}

abbrev pub Text : Type 0
Text = List ℕ

-- `str::split_whitespace`: the first word, when it is not empty, before the others.
unfoldable pub put_word : Text → List Text → List Text
put_word [] words = words
put_word (c ∷ word) words = (c ∷ word) ∷ words

module _ (is_space : ℕ → Bool) where
  -- The characters before the first white space, and the words after it.
  unfoldable pub split_first : Text → Text × List Text
  unfolding put_word
  split_first [] = ([], [])
  split_first (c ∷ cs) =
      let (word, words) = split_first cs in
      if is_space c then ([], put_word word words) else (c ∷ word, words)

  unfoldable pub split_whitespace : Text → List Text
  unfolding split_first put_word
  split_whitespace text = put_word (split_first text).0 (split_first text).1

-- `term.replace('"', "\"\"")`.
unfoldable pub doubled : Text → Text
doubled [] = []
doubled (c ∷ cs) = let rest = doubled cs in if c == 34 then 34 ∷ 34 ∷ rest else c ∷ rest

unfoldable pub quoted : Text → Text
unfolding doubled
quoted term = 34 ∷ (doubled term ++ 34 ∷ [])

-- `join(" ")`.
unfoldable pub joined : Text → List Text → Text
joined term [] = term
joined term (next ∷ rest) = term ++ 32 ∷ joined next rest

-- `escape_query`.
unfoldable pub escape_query : (ℕ → Bool) → Text → Option Text
unfolding split_whitespace quoted joined
escape_query is_space input = elim (split_whitespace is_space input) [
  | [] ↦ none
  | term ∷ terms ↦ some (joined (quoted term) (map quoted terms))
]
