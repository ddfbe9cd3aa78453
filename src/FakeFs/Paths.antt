-- ===== src/FakeFs/Paths.antt =====
-- Paths of the simulated file system: `normalize_path` (src/infra/fake_fs/commands.py). The laws
-- stand in the child.
pub mod Split
pub mod Canonical
use honey_mind.Prelude.{
  ℕ, Text, codes, eqb, split, split_from, join, strip_char, starts_with, keep, reverse, Bool, true,
  false, not, ◌||◌, List, [], ◌∷◌, ◌++◌, if◌then◌else◌, ◌≡◌, refl,
}

abbrev pub slash : ℕ
slash = b'/'

abbrev pub root : Text
root = slash ∷ []

-- `base.pop()` if there is something
unfoldable pub pop : List Text → List Text
pop [] = []
pop (p ∷ []) = []
pop (p ∷ q ∷ ps) = p ∷ pop (q ∷ ps)

-- one round of `for part in parts`
unfoldable pub walk_part : List Text → Text → List Text
unfolding pop
walk_part base part =
    if eqb part [] || eqb part (codes ".")
    then base
    else if eqb part (codes "..")
    then pop base
    else base ++ part ∷ []

unfoldable pub walk : List Text → List Text → List Text
walk base [] = base
walk base (part ∷ parts) = walk (walk_part base part) parts

-- `[p for p in cwd.strip("/").split("/") if p]`
unfoldable pub components : Text → List Text
components cwd = keep (λ p. not (eqb p [])) (split slash (strip_char slash cwd))

unfoldable pub base_of : Text → Text → List Text
unfolding components
base_of path cwd = if starts_with path root then [] else components cwd

unfoldable pub absolute : List Text → Text
absolute base = slash ∷ join root base

unfoldable pub normalize_path : Text → Text → Text
unfolding walk base_of absolute
normalize_path path cwd = absolute (walk (base_of path cwd) (split slash (strip_char slash path)))

program : Unit {0}
unfolding normalize_path walk_part split strip_char starts_with join eqb
program = tt

up_and_down : normalize_path (codes "../b/./c//") (codes "/a/x") ≡ codes "/a/b/c"
unfolding program
up_and_down = refl

above_root : normalize_path (codes "../../etc") (codes "/a") ≡ codes "/etc"
unfolding program
above_root = refl
