-- ===== src/Store/SearchExamples.antt =====
-- A query with an operator, a quote and more than one space, and the theorem about it.
use clipse.Prelude.{ℕ, ◌≡◌, ◌≢◌, refl, Bool, not, [], some, none, ◌==◌, All, keep_if, ◌⊎◌}
use clipse.Prelude.Bytes.{ascii}
use clipse.Store.Search.{
  Text, split_whitespace, escape_query, split_first, put_word, quoted, doubled, joined,
}
use clipse.Store.Search.Literals.{IsWord, characters, literals, outside, escape_query-literals}

abbrev is_space : ℕ → Bool
is_space c = c == 32

abbrev query : Text
query = ascii " NOT  a\"b*"

query-escaped : escape_query is_space query ≡ some (ascii "\"NOT\" \"a\"\"b*\"")
unfolding escape_query split_whitespace split_first put_word quoted doubled joined
query-escaped = refl

escape_query-literals_example :
    All (IsWord is_space) (split_whitespace is_space query)
    × (characters (split_whitespace is_space query) ≡ keep_if (λ c. not (is_space c)) query)
    × (((escape_query is_space query ≡ none) × (split_whitespace is_space query ≡ []))
        ⊎ ((expression : Text) × (escape_query is_space query ≡ some expression)
            × (split_whitespace is_space query ≢ [])
            × (literals outside expression ≡ some (split_whitespace is_space query))))
escape_query-literals_example = escape_query-literals is_space query
