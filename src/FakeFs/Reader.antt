-- ===== src/FakeFs/Reader.antt =====
-- `_handle_file_reader`, `_render_stat`, `_render_file_type` and `_handle_id` of
-- src/infra/fake_fs_data_handler.py. The tokens are those behind the command; `none` is an answer
-- that is left to the next handler.
pub mod Stat
use honey_mind.Prelude.{
  pad_to, ℕ, zero, suc, ◌+◌, ◌-◌, Text, codes, eqb, lower, starts_with, ends_with, contains, join,
  show, length, take, drop, last?, map, newline, space, split_lines, get_or, leb, Bool, true, false,
  ◌||◌, ◌==◌, List, [], ◌∷◌, ◌++◌, if◌then◌else◌, Option, none, some,
}
use honey_mind.FakeFs.Paths.{normalize_path}
use honey_mind.FakeFs.Nodes.{Node, Modified, never, at_text, PathLibrary}
use honey_mind.FakeFs.Commands.{Shell, resolve}
use honey_mind.FakeFs.Arguments.{command_paths, line_count}

-- `node.get("modified_at") or …`, with its `replace`
unfoldable pub modified_text : Modified → Text
modified_text never = codes "2026-01-15 09:24:00"
modified_text (at_text []) = codes "2026-01-15 09:24:00"
modified_text (at_text (c ∷ s)) = map (λ d. if d == b'T' then space else d) (c ∷ s)

unfoldable pub stat_text : Text → Node → Text → Text
stat_text requested_path node modified = join (newline ∷ []) (
    (codes "  File: " ++ requested_path)
    ∷ (codes "  Size: "
        ++ pad_to 10 (show node.size)
        ++ codes " Blocks: 8          IO Block: 4096   "
        ++ (if node.is_dir then codes "directory" else codes "regular file"))
    ∷ codes "Device: 802h/2050d    Inode: 1048577     Links: 1"
    ∷ (codes "Access: ("
        ++ node.permissions
        ++ codes ")  Uid: (    0/    root)   Gid: (    0/    root)")
    ∷ (codes "Modify: " ++ modified ++ codes " +0000")
    ∷ []
    ∷ [])

-- `_render_stat`
unfoldable pub render_stat : Text → Node → Text
unfolding modified_text stat_text
render_stat requested_path node = stat_text requested_path node (modified_text node.modified_at)

file_kind : Text → Text → Text
file_kind name content =
    if ends_with name (codes ".gz")
    then codes "gzip compressed data"
    else if ends_with name (codes ".php")
    then codes "PHP script, ASCII text"
    else if ends_with name (codes ".yaml") || ends_with name (codes ".yml")
    then codes "YAML configuration, ASCII text"
    else if ends_with name (codes ".json")
    then codes "JSON data"
    else if ends_with name (codes ".sql")
    then codes "ASCII text"
    else if starts_with content (codes "#!/")
    then codes "POSIX shell script, ASCII text executable"
    else if contains (lower content) (codes "<html")
    then codes "HTML document, ASCII text"
    else codes "ASCII text"

-- `_render_file_type`
unfoldable pub render_file_type : Text → Node → Text
unfolding file_kind
render_file_type requested_path node =
    requested_path
    ++ (if node.is_dir
        then codes ": directory"
        else codes ": " ++ file_kind node.name (get_or node.content []))
    ++ newline ∷ []

-- `lines[:count]` and `lines[-count:]`, where `-0` is the start of the list
unfoldable pub selected_lines : Text → ℕ → List Text → List Text
selected_lines command count lines =
    if eqb command (codes "head")
    then take count lines
    else if count == 0
    then lines
    else drop (length lines - count) lines

with_newlines : List Text → Text
with_newlines [] = []
with_newlines (line ∷ lines) = join (newline ∷ []) (line ∷ lines) ++ newline ∷ []

-- the branches behind `cat`, on the node of the last path
unfoldable pub read_node : Text → List Text → Text → Node → Text
unfolding with_newlines selected_lines
read_node command tokens path node =
    if eqb command (codes "stat")
    then render_stat path node
    else if eqb command (codes "file")
    then render_file_type path node
    else if node.is_dir
    then command ++ codes ": error reading '" ++ path ++ codes "': Is a directory\n"
    else with_newlines
        (selected_lines command (line_count command tokens) (split_lines (get_or node.content [])))

content_of : Text → Node → Text
content_of path node =
    if node.is_dir
    then codes "cat: " ++ path ++ codes ": Is a directory\n"
    else get_or node.content []

module _ (lib : PathLibrary) where
  -- `_path_node`
  abbrev pub path_node : Shell → Text → Option Node
  path_node s path = resolve lib s.nodes (normalize_path path s.cwd)

  -- `_content_for_path`, without the node
  unfoldable pub content_for_path : Shell → Text → Option Text
  unfolding content_of
  content_for_path s path = elim (path_node s path) [
    | none ↦ none
    | some node ↦ some (content_of path node)
  ]

  unfoldable pub cat_paths : Shell → List Text → Option Text
  cat_paths s [] = some []
  cat_paths s (path ∷ paths) =
      let rest = cat_paths s paths in
      elim (content_for_path s path) [
        | none ↦ none
        | some content ↦ elim rest [ none ↦ none | some contents ↦ some (content ++ contents) ]
      ]

  -- the last path of `paths`, and what is read there
  read_last : Shell → Text → List Text → Option Text → Option Text
  read_last s command tokens none = none
  read_last s command tokens (some path) = elim (path_node s path) [
    | none ↦ none
    | some node ↦ some (read_node command tokens path node)
  ]

  -- `_handle_file_reader`
  unfoldable pub handle_file_reader : Shell → Text → List Text → Option Text
  unfolding read_last
  handle_file_reader s command tokens = elim (command_paths command tokens) [
    | [] ↦ none
    | path ∷ paths ↦
        if eqb command (codes "cat")
        then cat_paths s (path ∷ paths)
        else read_last s command tokens (last? (path ∷ paths))
  ]

-- the user that `id` shows
pub record User : Type 0 where
  pub uid : Text
  pub username : Text
  pub gid : Text
  pub group : Text

unfoldable pub render_id : User → Text
render_id u =
    codes "uid="
    ++ u.uid
    ++ codes "("
    ++ u.username
    ++ codes ") gid="
    ++ u.gid
    ++ codes "("
    ++ u.group
    ++ codes ") groups="
    ++ u.gid
    ++ codes "("
    ++ u.group
    ++ codes ")\n"

-- `_handle_id`, on the words behind the command; `none` where `shlex.split` raises
unfoldable pub handle_id : User → Option (List Text) → Text
handle_id u (some (option ∷ [])) =
    if eqb option (codes "-u") || eqb option (codes "--user")
    then u.uid ++ newline ∷ []
    else if eqb option (codes "-g") || eqb option (codes "--group")
    then u.gid ++ newline ∷ []
    else if eqb option (codes "-un") || eqb option (codes "-nu") || eqb option (codes "--name")
    then u.username ++ newline ∷ []
    else if eqb option (codes "-gn") || eqb option (codes "-ng")
    then u.group ++ newline ∷ []
    else render_id u
handle_id u words = render_id u
