-- ===== src/Normalizer/Tokens.antt =====
-- `_tokenize_shell_like` of src/core/input_normalizer.py: the index into the text is the text that
-- is left. The laws stand in the children.
pub mod Step
pub mod Content
pub mod NonEmpty
use honey_mind.Prelude.{
  ℕ, zero, suc, Text, codes, eqb, starts_with, is_space, length, drop, first_of?, Bool, true, false,
  ◌||◌, ◌&&◌, List, [], ◌∷◌, ◌++◌, ◌==◌, if◌then◌else◌, Option, none, some, ◌≡◌, refl,
}

abbrev pub shell_operators : List Text
shell_operators =
    codes "2>>"
    ∷ codes "2>"
    ∷ codes "&&"
    ∷ codes "||"
    ∷ codes ">>"
    ∷ codes ";"
    ∷ codes "|"
    ∷ codes ">"
    ∷ codes "<"
    ∷ codes "&"
    ∷ []

abbrev pub backslash : ℕ
backslash = b'\\'

abbrev pub double_quote : ℕ
double_quote = b'"'

abbrev pub single_quote : ℕ
single_quote = b'\''

unfoldable pub match_shell_operator : Text → Option Text
match_shell_operator value = first_of? (λ o. starts_with value o) shell_operators

unfoldable pub flush_token : List Text → Text → List Text
flush_token tokens [] = tokens
flush_token tokens (c ∷ token) = tokens ++ (c ∷ token) ∷ []

-- the variables of the loop; `rest` is `value[index:]`
pub record Scan : Type 0 where
  pub rest : Text
  pub quote : Option ℕ
  pub token : Text
  pub tokens : List Text

-- a round inside a quotation opened by `q`, at the character `c`
unfoldable pub step_quoted : ℕ → ℕ → Text → Scan → Scan
step_quoted q c [] s = record s {
  rest = [];
  token = s.token ++ c ∷ [];
  quote = if c == q then none else some q;
}
step_quoted q c (d ∷ v) s =
    if (c == backslash) && (q == double_quote)
    then record s { rest = v; token = s.token ++ c ∷ d ∷ []; quote = some q }
    else record s {
      rest = d ∷ v;
      token = s.token ++ c ∷ [];
      quote = if c == q then none else some q;
    }

unfoldable pub step_backslash : Text → Scan → Scan
step_backslash [] s = record s { rest = []; token = s.token ++ backslash ∷ [] }
step_backslash (d ∷ v) s = record s { rest = v; token = s.token ++ backslash ∷ d ∷ [] }

-- the end of a round outside quotations: an operator, or an ordinary character
unfoldable pub step_operator : Option Text → ℕ → Text → Scan → Scan
step_operator (some o) c v s = record s {
  rest = drop (length o) (c ∷ v);
  token = [];
  tokens = flush_token s.tokens s.token ++ o ∷ [];
}
step_operator none c v s = record s { rest = v; token = s.token ++ c ∷ [] }

unfoldable pub step_plain : ℕ → Text → Scan → Scan
unfolding step_backslash
step_plain c v s =
    if (c == single_quote) || (c == double_quote)
    then record s { rest = v; token = s.token ++ c ∷ []; quote = some c }
    else if c == backslash
    then step_backslash v s
    else if is_space c
    then record s { rest = v; token = []; tokens = flush_token s.tokens s.token }
    else step_operator (match_shell_operator (c ∷ v)) c v s

-- one round of `while index < len(value)`
unfoldable pub step : Option ℕ → ℕ → Text → Scan → Scan
step (some q) c v s = step_quoted q c v s
step none c v s = step_plain c v s

unfoldable pub scan : ℕ → Text → Scan → Scan
scan zero v s = s
scan (suc fuel) [] s = s
scan (suc fuel) (c ∷ v) s = let s' = step s.quote c v s in scan fuel s'.rest s'

abbrev pub start : Text → Scan
start value = record { rest = value; quote = none; token = []; tokens = [] }

-- Each round reads at least one character, so the length of the text is enough fuel.
unfoldable pub tokenize_shell_like : Text → List Text
tokenize_shell_like value =
    let s = scan (length value) value (start value) in flush_token s.tokens s.token

program : Unit {0}
unfolding tokenize_shell_like scan step step_quoted step_plain step_operator flush_token
    match_shell_operator starts_with is_space
program = tt

tokens_of_pipe :
    tokenize_shell_like (codes "cat  'a b' x2>>/dev/null&&ls")
    ≡ codes "cat"
      ∷ codes "'a b'"
      ∷ codes "x"
      ∷ codes "2>>"
      ∷ codes "/dev/null"
      ∷ codes "&&"
      ∷ codes "ls"
      ∷ []
unfolding program
tokens_of_pipe = refl
