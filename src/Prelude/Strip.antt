-- ===== src/Prelude/Strip.antt =====
-- `str.strip` and its relatives, and the tokens between white space.
use Prim.Native.Nat.{ℕ}
use mathlib.Core.Bool.{Bool, true, false}
use mathlib.Core.List.{List, [], ◌∷◌, ◌++◌}
use honey_mind.Prelude.Tests.{◌==◌, if◌then◌else◌}
use honey_mind.Prelude.Texts.{Text, is_space}

unfoldable pub drop_while : (ℕ → Bool) → Text → Text
drop_while p [] = []
drop_while p (c ∷ s) = elim (p c) [ true ↦ drop_while p s | false ↦ c ∷ s ]

-- `s.lstrip`, `s.rstrip` and `s.strip` for the code points of a class
unfoldable pub rstrip_cons : (ℕ → Bool) → ℕ → Text → Text
rstrip_cons p c [] = if p c then [] else c ∷ []
rstrip_cons p c (d ∷ t) = c ∷ d ∷ t

unfoldable pub rstrip_by : (ℕ → Bool) → Text → Text
unfolding rstrip_cons
rstrip_by p [] = []
rstrip_by p (c ∷ s) = rstrip_cons p c (rstrip_by p s)

unfoldable pub strip_by : (ℕ → Bool) → Text → Text
unfolding drop_while rstrip_by
strip_by p s = rstrip_by p (drop_while p s)

unfoldable pub strip : Text → Text
unfolding strip_by is_space
strip = strip_by is_space

-- `s.strip(c)`, `s.rstrip(c)` for one character
unfoldable pub strip_char : ℕ → Text → Text
unfolding strip_by
strip_char c = strip_by (λ d. d == c)

unfoldable pub rstrip_char : ℕ → Text → Text
unfolding rstrip_by
rstrip_char c = rstrip_by (λ d. d == c)

-- `s.split()`
flush_word : Text → List Text → List Text
flush_word [] ws = ws
flush_word (c ∷ s) ws = (c ∷ s) ∷ ws

words_from : Text → Text → List Text
words_from [] word = flush_word word []
words_from (c ∷ s) word = elim (is_space c) [
  | true ↦ flush_word word (words_from s [])
  | false ↦ words_from s (word ++ c ∷ [])
]

unfoldable pub words : Text → List Text
unfolding words_from flush_word is_space
words s = words_from s []
