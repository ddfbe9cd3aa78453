-- ===== src/FakeFs/Search.antt =====
-- The search of `_handle_find` and `_handle_grep` (src/infra/fake_fs_data_handler.py) over the
-- nodes below a path. SQLite's pattern test and `fnmatch` are parameters.
use honey_mind.Prelude.{
  Text, codes, eqb, contains, join, keep, map, is_some, get_or, split_lines, newline, Bool, true,
  not, ◌&&◌, List, [], ◌∷◌, ◌++◌, if◌then◌else◌, Option, none, some,
}
use honey_mind.FakeFs.Paths.{normalize_path}
use honey_mind.FakeFs.Nodes.{Node, PathLibrary, list_subtree}
use honey_mind.FakeFs.Commands.{Shell, resolve, text_le}
use honey_mind.FakeFs.Arguments.{FindOptions, find_arguments, grep_arguments}

-- `sorted` on texts
unfoldable pub insert_text : Text → List Text → List Text
insert_text t [] = t ∷ []
insert_text t (u ∷ us) = if text_le t u then t ∷ u ∷ us else u ∷ insert_text t us

unfoldable pub sort_texts : List Text → List Text
unfolding insert_text
sort_texts [] = []
sort_texts (t ∷ ts) = insert_text t (sort_texts ts)

-- the lines of an output, each with its end
unfoldable pub output_lines : List Text → Text
output_lines [] = []
output_lines (line ∷ lines) = join (newline ∷ []) (line ∷ lines) ++ newline ∷ []

module _ (fnmatch : Text → Text → Bool) where
  type_kept : Option Text → Node → Bool
  type_kept none node = true
  type_kept (some t) node =
      not (eqb t (codes "f") && node.is_dir) && not (eqb t (codes "d") && not node.is_dir)

  name_kept : Option Text → Node → Bool
  name_kept none node = true
  name_kept (some []) node = true
  name_kept (some (c ∷ name_pattern)) node = fnmatch node.name (c ∷ name_pattern)

  -- a node that `find` prints
  unfoldable pub is_found : FindOptions → Node → Bool
  unfolding type_kept name_kept
  is_found o node = type_kept o.type_filter node && name_kept o.name_pattern node

module _ (lib : PathLibrary) (like fnmatch : Text → Text → Bool) where
  -- the nodes below a path, where it is there
  unfoldable pub subtree_at : Shell → Text → Option (List Node)
  subtree_at s path =
      let root = normalize_path path s.cwd in
      if is_some (resolve lib s.nodes root) then some (list_subtree like s.nodes root) else none

  -- `_handle_find`, on the tokens behind the command
  unfoldable pub handle_find : Shell → List Text → Option Text
  handle_find s tokens =
      let (start_path, o) = find_arguments tokens in
      elim (subtree_at s start_path) [
        | none ↦ none
        | some nodes ↦ some (
            output_lines
              (sort_texts (map (λ (n : Node). n.path) (keep (is_found fnmatch o) nodes))))
      ]

  matching_lines : Text → Node → List Text
  matching_lines searched node =
      if node.is_dir
      then []
      else map (λ line. node.path ++ codes ":" ++ line)
          (keep (λ line. contains line searched) (split_lines (get_or node.content [])))

  nodes_lines : Text → List Node → List Text
  unfolding matching_lines
  nodes_lines searched [] = []
  nodes_lines searched (node ∷ nodes) = matching_lines searched node ++ nodes_lines searched nodes

  paths_lines : Shell → Text → List Text → List Text
  unfolding nodes_lines
  paths_lines s searched [] = []
  paths_lines s searched (path ∷ paths) =
      nodes_lines searched (get_or (subtree_at s path) []) ++ paths_lines s searched paths

  -- `_handle_grep`, on the tokens behind the command
  unfoldable pub handle_grep : Shell → List Text → Option Text
  unfolding paths_lines
  handle_grep s tokens = elim (grep_arguments tokens) [
    | none ↦ none
    | some (searched, paths) ↦ some (output_lines (paths_lines s searched paths))
  ]
