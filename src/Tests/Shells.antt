-- ===== src/Tests/Shells.antt =====
-- Runs of the fake file system and its commands (src/infra/fake_fs,
-- src/infra/fake_fs_data_handler.py).
use honey_mind.Prelude.{
  show, ℕ, ◌<◌, ◌-◌, length, Text, codes, eqb, is_some, if◌then◌else◌, strip, map, lookup, Bool,
  true, false, List, [], ◌∷◌, ◌++◌, All, Option, some, none, ◌⊎◌, ◌≡◌, refl, arith,
}
use honey_mind.FakeFs.Paths.{root, normalize_path}
use honey_mind.FakeFs.Paths.Canonical.{
  IsCanonical, normalize_path-IsCanonical, normalize_path-canonical,
}
use honey_mind.FakeFs.Nodes.{Table, PathLibrary, get_node, mkdir, write_file, file_node, dir_node}
use honey_mind.FakeFs.Commands.{Shell, handle_cd, handle_mkdir, split_or}
use honey_mind.FakeFs.Navigation.{
  KeepsCanonical, Moved, handle_cd-Moved, handle_mkdir-silent, cd-mkdir,
}
use honey_mind.FakeFs.Arguments.Uname.{Machine}

-- the definitions that the runs below compute with
program : Unit {0}
unfolding honey_mind.FakeFs.Paths.pop honey_mind.FakeFs.Paths.walk_part honey_mind.FakeFs.Paths.walk
    honey_mind.FakeFs.Paths.components honey_mind.FakeFs.Paths.base_of
    honey_mind.FakeFs.Paths.absolute honey_mind.FakeFs.Paths.normalize_path
    honey_mind.FakeFs.Nodes.basename honey_mind.FakeFs.Nodes.dirname_head
    honey_mind.FakeFs.Nodes.dirname honey_mind.FakeFs.Nodes.or_root
    honey_mind.FakeFs.Nodes.parent_of honey_mind.FakeFs.Nodes.get_node
    honey_mind.FakeFs.Nodes.has_parent honey_mind.FakeFs.Nodes.list_dir
    honey_mind.FakeFs.Nodes.list_subtree honey_mind.FakeFs.Nodes.replace
    honey_mind.FakeFs.Nodes.node_size honey_mind.FakeFs.Nodes.upsert_node
    honey_mind.FakeFs.Nodes.dir_node honey_mind.FakeFs.Nodes.mkdir honey_mind.FakeFs.Nodes.file_node
    honey_mind.FakeFs.Nodes.write_file honey_mind.FakeFs.Nodes.with_root
    honey_mind.FakeFs.Nodes.expected honey_mind.FakeFs.Nodes.resolve_path
    honey_mind.FakeFs.Commands.has_ls_flag honey_mind.FakeFs.Commands.text_le
    honey_mind.FakeFs.Commands.insert_by_name honey_mind.FakeFs.Commands.sort_by_name
    honey_mind.FakeFs.Commands.cd_candidates honey_mind.FakeFs.Commands.split_or
    honey_mind.FakeFs.Commands.handle_cd honey_mind.FakeFs.Commands.mkdir_error
    honey_mind.FakeFs.Commands.parent_is_dir honey_mind.FakeFs.Commands.made
    honey_mind.FakeFs.Commands.handle_mkdir honey_mind.FakeFs.Commands.ls_children
    honey_mind.FakeFs.Commands.ls_target honey_mind.FakeFs.Commands.named
    honey_mind.FakeFs.Commands.handle_ls honey_mind.FakeFs.Commands.download_name
    honey_mind.FakeFs.Commands.record_download honey_mind.Prelude.eqb honey_mind.Prelude.starts_with
    honey_mind.Prelude.ends_with honey_mind.Prelude.contains honey_mind.Prelude.is_space
    honey_mind.Prelude.to_lower honey_mind.Prelude.to_upper honey_mind.Prelude.lower
    honey_mind.Prelude.upper honey_mind.Prelude.join honey_mind.Prelude.split_from
    honey_mind.Prelude.split honey_mind.Prelude.show honey_mind.Prelude.is_line_break
    honey_mind.Prelude.split_lines honey_mind.Prelude.drop_while honey_mind.Prelude.rstrip_cons
    honey_mind.Prelude.rstrip_by honey_mind.Prelude.strip_by honey_mind.Prelude.strip
    honey_mind.Prelude.strip_char honey_mind.Prelude.rstrip_char honey_mind.Prelude.words
    honey_mind.Prelude.lookup honey_mind.Prelude.insert honey_mind.Prelude.remove
program = tt

-- a library that normalises as the program does
abbrev lib : PathLibrary
lib = record { norm_join = λ cwd path. normalize_path path cwd }

lib-KeepsCanonical : KeepsCanonical lib
lib-KeepsCanonical = record { kept = λ path c. normalize_path-canonical path root c }

abbrev tmp : Text
tmp = codes "/tmp"

tmp-IsCanonical : IsCanonical tmp
unfolding program
tmp-IsCanonical = record {
  parts = codes "tmp" ∷ [];
  named = ((refl, refl, refl, (refl, (refl, (refl, tt)))), tt);
  spelled = refl;
}

abbrev nodes : Table
nodes = dir_node tmp 100 ∷ []

abbrev shell : Shell
shell = record { cwd = tmp; nodes = nodes; downloads = [] }

normalize_path-IsCanonical_example : IsCanonical (normalize_path (codes "../../etc//./passwd") tmp)
normalize_path-IsCanonical_example =
    normalize_path-IsCanonical (codes "../../etc//./passwd") tmp tmp-IsCanonical

handle_cd-Moved_example : Moved lib shell (codes "../tmp") (handle_cd lib shell (codes "../tmp"))
handle_cd-Moved_example = handle_cd-Moved lib shell (codes "../tmp") tmp-IsCanonical

-- the shell after `mkdir d`
abbrev made_shell : Shell
made_shell = record shell { nodes = nodes ++ dir_node (codes "/tmp/d") 7 ∷ [] }

made_silently : handle_mkdir lib shell (codes "d") 7 ≡ some (made_shell, [])
unfolding program
made_silently = refl

one_alternative : map strip (split_or lib (codes "d") []) ≡ codes "d" ∷ []
unfolding program
one_alternative = refl

handle_mkdir-silent_example :
    (made_shell.cwd ≡ shell.cwd)
    × (get_node shell.nodes (normalize_path (codes "d") shell.cwd) ≡ none)
    × ((p : Text)
        → get_node made_shell.nodes p ≡ (
            if eqb (normalize_path (codes "d") shell.cwd) p
            then some (dir_node (normalize_path (codes "d") shell.cwd) 7)
            else get_node shell.nodes p))
handle_mkdir-silent_example =
    handle_mkdir-silent lib shell made_shell (codes "d") 7 lib-KeepsCanonical tmp-IsCanonical
      made_silently

cd-mkdir_example : handle_cd lib made_shell (codes "d") ≡ (
  record made_shell { cwd = normalize_path (codes "d") shell.cwd },
  normalize_path (codes "d") shell.cwd,
)
cd-mkdir_example =
    cd-mkdir lib shell made_shell (codes "d") 7 lib-KeepsCanonical tmp-IsCanonical one_alternative
      made_silently

abbrev tail_tokens : List Text
tail_tokens = codes "-n" ∷ codes "5" ∷ codes "/etc/passwd" ∷ codes "2>/dev/null" ∷ []

abbrev machine : Machine
machine = record { field_value = λ f. f ∷ [] }

abbrev three_lines : List Text
three_lines = codes "a" ∷ codes "b" ∷ codes "c" ∷ []
