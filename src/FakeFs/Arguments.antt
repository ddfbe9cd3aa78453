-- ===== src/FakeFs/Arguments.antt =====
-- The arguments of the simulated commands (src/infra/fake_fs_data_handler.py): redirections, paths,
-- line counts, the options of `find`, `grep` and `uname`. The tokens are those that `shlex` gives.
pub mod Clean
pub mod Uname
use honey_mind.Prelude.{
  ℕ, zero, suc, ◌+◌, ◌-◌, ◌*◌, Text, codes, eqb, member, starts_with, any_of, all_of, drop, length,
  is_digit, Bool, true, false, not, ltb, ◌&&◌, ◌||◌, List, [], ◌∷◌, ◌++◌, if◌then◌else◌, Option,
  none, some, get_or,
}

unfoldable pub is_redirection_token : Text → Bool
is_redirection_token token =
    member token (codes ">" ∷ codes ">>" ∷ codes "2>" ∷ codes "2>>" ∷ codes "<" ∷ [])
    || (starts_with token (codes ">") || starts_with token (codes "2>"))

unfoldable pub is_option : Text → Bool
is_option token = starts_with token (codes "-")

-- `token in ("-n", "--lines")`
unfoldable pub is_lines_option : Text → Bool
is_lines_option token = member token (codes "-n" ∷ codes "--lines" ∷ [])

unfoldable pub is_pager : Text → Bool
is_pager command = member command (codes "head" ∷ codes "tail" ∷ [])

-- the loop of `_command_paths`; the first argument is `skip_next`
unfoldable pub command_paths_from : Bool → Text → List Text → List Text
command_paths_from skip command [] = []
command_paths_from true command (token ∷ tokens) = command_paths_from false command tokens
command_paths_from false command (token ∷ tokens) =
    elim (is_redirection_token token || (is_pager command && is_lines_option token)) [
      | true ↦ command_paths_from true command tokens
      | false ↦ elim (is_option token) [
        | true ↦ command_paths_from false command tokens
        | false ↦ token ∷ command_paths_from false command tokens
      ]
    ]

-- `_command_paths`, on the tokens behind the command
unfoldable pub command_paths : Text → List Text → List Text
unfolding command_paths_from
command_paths command tokens = command_paths_from false command tokens

-- `abs(int(s))`: an optional sign and decimal digits, without the white space and the underscores
-- that `int` also reads; `none` where it raises
unfoldable pub number_from : ℕ → Text → Option ℕ
number_from n [] = some n
number_from n (c ∷ s) = if is_digit c then number_from (n * 10 + (c - b'0')) s else none

unfoldable pub natural : Text → Option ℕ
unfolding number_from
natural [] = none
natural (c ∷ s) = number_from 0 (c ∷ s)

unfoldable pub magnitude : Text → Option ℕ
unfolding natural
magnitude s =
    if starts_with s (codes "-") || starts_with s (codes "+") then natural (drop 1 s) else natural s

-- the loop of `_line_count`; ten lines where no option gives a number
unfoldable pub line_count : Text → List Text → ℕ
line_count command [] = 10
line_count command (token ∷ []) =
    if starts_with token (codes "-n") && ltb 2 (length token)
    then get_or (magnitude (drop 2 token)) 10
    else if is_pager command && is_option token
    then get_or (natural (drop 1 token)) 10
    else 10
line_count command (token ∷ next ∷ tokens) =
    let rest = line_count command (next ∷ tokens) in
    if is_lines_option token
    then get_or (magnitude next) 10
    else if starts_with token (codes "-n") && ltb 2 (length token)
    then get_or (magnitude (drop 2 token)) 10
    else if is_pager command && is_option token
    then get_or (natural (drop 1 token)) rest
    else rest

-- the options of `find`
pub record FindOptions : Type 0 where
  pub name_pattern : Option Text
  pub type_filter : Option Text

-- the loop of `_handle_find`; an option's value is read only where there is one
unfoldable pub find_options : List Text → FindOptions → FindOptions
find_options [] o = o
find_options (token ∷ []) o = o
find_options (token ∷ value ∷ tokens) o = elim (is_redirection_token token) [
  | true ↦ find_options tokens o
  | false ↦ elim (eqb token (codes "-name")) [
    | true ↦ find_options tokens (record o { name_pattern = some value })
    | false ↦ elim (eqb token (codes "-type")) [
      | true ↦ find_options tokens (record o { type_filter = some value })
      | false ↦ find_options (value ∷ tokens) o
    ]
  ]
]

-- the start path and the options, of the tokens behind `find`
unfoldable pub find_arguments : List Text → Text × FindOptions
unfolding find_options
find_arguments [] = (codes "/", record { name_pattern = none; type_filter = none })
find_arguments (token ∷ tokens) =
    if is_option token
    then (
      codes "/",
      find_options (token ∷ tokens) (record { name_pattern = none; type_filter = none }),
    )
    else (token, find_options tokens (record { name_pattern = none; type_filter = none }))

-- `any(part in ("-R", "-r", "--recursive") …)`
unfoldable pub is_recursive : List Text → Bool
is_recursive tokens =
    any_of (λ t. member t (codes "-R" ∷ codes "-r" ∷ codes "--recursive" ∷ [])) tokens

-- the loop of `_handle_grep`: the words that are no option and no redirection
unfoldable pub grep_words : List Text → List Text
grep_words [] = []
grep_words (token ∷ []) = if is_redirection_token token || is_option token then [] else token ∷ []
grep_words (token ∷ next ∷ tokens) = elim (is_redirection_token token) [
  | true ↦ grep_words tokens
  | false ↦ elim (is_option token) [
    | true ↦ grep_words (next ∷ tokens)
    | false ↦ token ∷ grep_words (next ∷ tokens)
  ]
]

-- the pattern and the paths, `none` where the command is not handled
unfoldable pub grep_selected : List Text → Option (Text × List Text)
grep_selected [] = none
grep_selected ([] ∷ paths) = none
grep_selected ((c ∷ pattern') ∷ []) = none
grep_selected ((c ∷ pattern') ∷ path ∷ paths) = some (c ∷ pattern', path ∷ paths)

unfoldable pub grep_arguments : List Text → Option (Text × List Text)
unfolding grep_words grep_selected
grep_arguments tokens = if is_recursive tokens then grep_selected (grep_words tokens) else none
