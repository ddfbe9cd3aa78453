-- ===== src/Ssh/Prompt.antt =====
-- The prompt of a shell: `render_prompt` of src/infra/prompt_utils.py, and the templates between
-- which `handle_shell` of src/honeypots/ssh_honeypot.py chooses.
use honey_mind.Prelude.{
  ℕ, zero, suc, ◌-◌, Text, codes, starts_with, length, true, false, ◌==◌, All, [], ◌∷◌, ◌++◌,
  Option, none, some, get_or, ◌≡◌, refl, ap, ◌∙◌,
}

-- `s.replace(pattern, by)`; the first number counts the characters that a match still covers
unfoldable pub replace_from : Text → Text → ℕ → Text → Text
replace_from pattern by n [] = []
replace_from pattern by (suc n) (c ∷ s) = replace_from pattern by n s
replace_from pattern by zero (c ∷ s) = elim (starts_with (c ∷ s) pattern) [
  | true ↦ by ++ replace_from pattern by (length pattern - 1) s
  | false ↦ c ∷ replace_from pattern by 0 s
]

-- `render_prompt`, on the entries of a session that are there
unfoldable pub render_prompt : Text → Option Text → Option Text → Text
render_prompt template cwd username =
    replace_from (codes "{{username}}") (get_or username (codes "user")) 0
      (replace_from (codes "{{cwd}}") (get_or cwd (codes "/")) 0 template)

-- `x or y` on a text of the configuration
or_text : Option Text → Text → Text
or_text none other = other
or_text (some []) other = other
or_text (some (c ∷ t)) other = c ∷ t

-- the template: of the configuration, or with the user and the working directory at the start
unfoldable pub prompt_template : Option Text → Option Text → Text → Text → Text
unfolding or_text
prompt_template configured shell_prompt username cwd =
    or_text configured (or_text shell_prompt (username ++ codes "@SSHServer:" ++ cwd ++ codes "$ "))

abbrev pub NoBrace : Text → Type 0
NoBrace = All (λ c. (c == b'{') ≡ false)

replace_from-NoBrace : (pattern by s : Text) → NoBrace s → replace_from (b'{' ∷ pattern) by 0 s ≡ s
unfolding replace_from starts_with
replace_from-NoBrace pattern by [] h = refl
replace_from-NoBrace pattern by (c ∷ s) (hc, h) =
    rw (hc, replace_from) (ap (◌∷◌ c) (replace_from-NoBrace pattern by s h))

-- A template without a brace is its own prompt, whatever the session holds.
pub render_prompt-fixed :
    (template : Text) (cwd username : Option Text)
    → NoBrace template
    → render_prompt template cwd username ≡ template
unfolding render_prompt
render_prompt-fixed template cwd username h =
    ap (replace_from (codes "{{username}}") (get_or username (codes "user")) 0)
      (replace_from-NoBrace (codes "{cwd}}") (get_or cwd (codes "/")) template h)
    ∙ replace_from-NoBrace (codes "{username}}") (get_or username (codes "user")) template h

program : Unit {0}
unfolding render_prompt replace_from starts_with
program = tt

rendered :
    render_prompt (codes "{{username}}@web:{{cwd}}# ") (some (codes "/tmp")) (some (codes "root"))
    ≡ codes "root@web:/tmp# "
unfolding program
rendered = refl
