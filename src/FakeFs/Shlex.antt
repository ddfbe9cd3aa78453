-- ===== src/FakeFs/Shlex.antt =====
-- `shlex.split` as src/infra/fake_fs_data_handler.py calls it: POSIX rules, white space between the
-- words, no comments. `none` is the ValueError on an open quote or a last backslash.
use honey_mind.Prelude.{
  ℕ, Text, codes, words, path_name, Bool, true, false, ◌||◌, ◌==◌, List, [], ◌∷◌, ◌++◌,
  if◌then◌else◌, Option, none, some, ◌≡◌, refl,
}

-- the states of the reader; `escaped` holds the quote that it returns to
pub data Mode : Type 0 where
  between in_word : Mode
  quoted : ℕ → Mode
  escaped : Option ℕ → Mode

is_blank : ℕ → Bool
is_blank c = (c == 32) || (c == 9) || (c == 13) || (c == 10)

is_quote : ℕ → Bool
is_quote c = (c == b'\'') || (c == b'"')

back_to : Option ℕ → Mode
back_to none = in_word
back_to (some q) = quoted q

-- what an escaped character adds: inside quotes only the quote and the backslash lose theirs
unescaped : Option ℕ → ℕ → Text
unescaped none c = c ∷ []
unescaped (some q) c = if (c == b'\\') || (c == q) then c ∷ [] else b'\\' ∷ c ∷ []

push_word : Text → Option (List Text) → Option (List Text)
push_word word none = none
push_word word (some ws) = some (word ∷ ws)

read_words : Mode → Text → Text → Option (List Text)
unfolding is_blank is_quote back_to unescaped push_word
read_words between word [] = some []
read_words in_word word [] = some (word ∷ [])
read_words (quoted q) word [] = none
read_words (escaped from) word [] = none
read_words between word (c ∷ s) = elim (is_blank c) [
  | true ↦ read_words between [] s
  | false ↦ elim (c == b'\\') [
    | true ↦ read_words (escaped none) [] s
    | false ↦ elim (is_quote c) [
      | true ↦ read_words (quoted c) [] s
      | false ↦ read_words in_word (c ∷ []) s
    ]
  ]
]
read_words in_word word (c ∷ s) = elim (is_blank c) [
  | true ↦ push_word word (read_words between [] s)
  | false ↦ elim (is_quote c) [
    | true ↦ read_words (quoted c) word s
    | false ↦ elim (c == b'\\') [
      | true ↦ read_words (escaped none) word s
      | false ↦ read_words in_word (word ++ c ∷ []) s
    ]
  ]
]
read_words (quoted q) word (c ∷ s) = elim (c == q) [
  | true ↦ read_words in_word word s
  | false ↦ elim (c == b'\\') [
    | true ↦ elim (q == b'"') [
      | true ↦ read_words (escaped (some q)) word s
      | false ↦ read_words (quoted q) (word ++ c ∷ []) s
    ]
    | false ↦ read_words (quoted q) (word ++ c ∷ []) s
  ]
]
read_words (escaped from) word (c ∷ s) = read_words (back_to from) (word ++ unescaped from c) s

unfoldable pub shlex_split : Text → Option (List Text)
unfolding read_words
shlex_split s = read_words between [] s

-- the words of a query, split at white space where the quotes do not close
unfoldable pub parts_of : Text → List Text
unfolding shlex_split words
parts_of query = elim (shlex_split query) [ none ↦ words query | some parts ↦ parts ]

first_name : Option (List Text) → Text
first_name none = []
first_name (some []) = []
first_name (some (command ∷ parts)) = path_name command

-- `_primary_command_name`
unfoldable pub primary_command_name : Text → Text
unfolding shlex_split first_name path_name
primary_command_name query = first_name (shlex_split query)

quoted_words :
    shlex_split (codes "grep -r 'a b' \"c \\\" d\" e\\ f ''")
    ≡ some (codes "grep" ∷ codes "-r" ∷ codes "a b" ∷ codes "c \" d" ∷ codes "e f" ∷ codes "" ∷ [])
unfolding shlex_split
quoted_words = refl

open_quote : shlex_split (codes "echo 'a") ≡ none
unfolding shlex_split
open_quote = refl
