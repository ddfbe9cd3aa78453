-- ===== src/EnvFile.antt =====
-- `_load_env_file` of src/core/honeypot_utils.py: the lines of a file, read into the environment.
use honey_mind.Prelude.{
  Text, codes, eqb, starts_with, strip, Dict, insert, ◌||◌, ◌==◌, List, [], ◌∷◌, if◌then◌else◌,
  Option, none, some, ◌≡◌, refl,
}

-- `line.split("=", 1)`, where there is an equals sign
unfoldable pub split_assignment : Text → Option (Text × Text)
split_assignment [] = none
split_assignment (c ∷ line) =
    let rest = split_assignment line in
    if c == b'='
    then some ([], line)
    else elim rest [ none ↦ none | some (key, value) ↦ some (c ∷ key, value) ]

-- a line without an equals sign or with an empty key is ignored
unfoldable pub assign : Dict Text → Option (Text × Text) → Dict Text
assign environ none = environ
assign environ (some (key, value)) =
    if eqb (strip key) [] then environ else insert (strip key) (strip value) environ

unfoldable pub load_env_line : Dict Text → Text → Dict Text
unfolding assign split_assignment
load_env_line environ raw =
    let line = strip raw in
    if eqb line [] || starts_with line (codes "#")
    then environ
    else assign environ (split_assignment line)

unfoldable pub load_env_file : Dict Text → List Text → Dict Text
load_env_file environ [] = environ
load_env_file environ (line ∷ lines) = load_env_file (load_env_line environ line) lines

-- two assignments, the later of which wins, between lines that are ignored
later_wins :
    load_env_file [] (codes "# keys" ∷ codes "A = 1" ∷ codes "no assignment" ∷ codes "A=b=c" ∷ [])
    ≡ (codes "A", codes "b=c") ∷ []
unfolding load_env_file load_env_line assign split_assignment strip eqb starts_with insert
later_wins = refl
