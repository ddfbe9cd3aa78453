-- ===== src/Prelude/Pathlib.antt =====
-- The parts of Python's `pathlib` and `os.path` for POSIX paths that the program calls.
use mathlib.Core.Bool.{not, ◌||◌}
use mathlib.Core.List.{List}
use honey_mind.Prelude.Tests.{get_or}
use honey_mind.Prelude.Lists.{keep, last?}
use honey_mind.Prelude.Texts.{Text, codes, eqb, split}

-- the components that a `Path` keeps: neither empty nor a single dot
unfoldable pub path_parts : Text → List Text
path_parts path = keep (λ p. not (eqb p (codes "") || eqb p (codes "."))) (split b'/' path)

-- `Path(path).name`
unfoldable pub path_name : Text → Text
unfolding path_parts
path_name path = get_or (last? (path_parts path)) (codes "")
