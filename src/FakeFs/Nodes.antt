-- ===== src/FakeFs/Nodes.antt =====
-- The table of nodes: `FakeFSDataStore` (src/infra/fake_fs_datastore.py) and `FakeFileSystem`
-- (src/infra/fake_fs/filesystem.py). The rows stand in the order in which SQLite returns them, and
-- the clock is an argument. `os.path.normpath` and `join` are parameters.
pub mod Writes
use honey_mind.Prelude.{
  ℕ, Text, codes, eqb, length, keep, first_of?, rstrip_char, reverse, span, Bool, true, false, not,
  ◌==◌, ◌&&◌, ◌||◌, starts_with, List, [], ◌∷◌, ◌++◌, if◌then◌else◌, Option, none, some, get_or,
  is_some, show, ◌≡◌, refl,
}
use honey_mind.FakeFs.Paths.{slash, root}

-- `modified_at`: the column that src/infra/fake_fs/fs_utils.py makes of a file system, whose times
-- are texts or missing, is a text; a number that is bound to it is read back as its text
pub data Modified : Type 0 where
  never : Modified
  at_text : Text → Modified

pub record Node : Type 0 where
  pub path : Text
  pub parent_path : Option Text
  pub name : Text
  pub is_dir : Bool
  pub permissions : Text
  pub owner : Text
  pub size : ℕ
  pub modified_at : Modified
  pub content : Option Text

-- the part of a path behind its last slash, and what stands before it
unfoldable pub basename : Text → Text
unfolding span
basename path = let (last, _) = span (λ c. not (c == slash)) (reverse path) in reverse last

-- `os.path.dirname`: the head without its trailing slashes, unless it is all slashes
unfoldable pub dirname_head : Text → Text → Text
dirname_head head [] = head
dirname_head head (c ∷ stripped) = c ∷ stripped

unfoldable pub dirname : Text → Text
unfolding span dirname_head rstrip_char
dirname path =
    let (_, rest) = span (λ c. not (c == slash)) (reverse path) in
    let head = reverse rest in dirname_head head (rstrip_char slash head)

-- `os.path.dirname(path.rstrip("/")) or "/"`
unfoldable pub or_root : Text → Text
or_root [] = root
or_root (c ∷ t) = c ∷ t

unfoldable pub parent_of : Text → Text
unfolding or_root dirname rstrip_char
parent_of path = or_root (dirname (rstrip_char slash path))

abbrev pub Table : Type 0
Table = List Node

unfoldable pub get_node : Table → Text → Option Node
get_node nodes path = first_of? (λ n. eqb n.path path) nodes

unfoldable pub has_parent : Text → Node → Bool
has_parent parent n = elim n.parent_path [ none ↦ false | some p ↦ eqb p parent ]

unfoldable pub list_dir : Table → Text → List Node
unfolding has_parent
list_dir nodes parent = keep (has_parent parent) nodes

-- `list_subtree`; `like` is SQLite's pattern test
unfoldable pub list_subtree : (Text → Text → Bool) → Table → Text → List Node
unfolding rstrip_char
list_subtree like nodes root_path =
    if eqb root_path root
    then nodes
    else keep (λ n. eqb n.path root_path || like n.path (rstrip_char slash root_path ++ codes "/%"))
        nodes

-- `INSERT OR REPLACE`: the row of that path goes, the new one is the last
unfoldable pub replace : Table → Node → Table
replace nodes node = keep (λ n. not (eqb n.path node.path)) nodes ++ node ∷ []

-- the size that `upsert_node` writes
unfoldable pub node_size : Option ℕ → Bool → Option Text → ℕ
node_size (some n) is_dir content = n
node_size none true content = 0
node_size none false content = length (get_or content [])

unfoldable pub upsert_node :
    Table → Text → Bool → Text → Text → Option ℕ → Modified → Option Text → Table
unfolding parent_of basename node_size replace
upsert_node nodes path is_dir permissions owner size modified_at content = replace nodes (record {
  path = path;
  parent_path = if eqb path root then none else some (parent_of path);
  name = if eqb path root then root else basename path;
  is_dir = is_dir;
  permissions = permissions;
  owner = owner;
  size = node_size size is_dir content;
  modified_at = modified_at;
  content = content;
})

-- the row that `mkdir` inserts
unfoldable pub dir_node : Text → ℕ → Node
unfolding parent_of basename
dir_node path now = record {
  path = path;
  parent_path = some (parent_of path);
  name = basename path;
  is_dir = true;
  permissions = codes "drwxr-xr-x";
  owner = codes "root";
  size = 0;
  modified_at = at_text (show now);
  content = none;
}

-- `mkdir`: a plain `INSERT`, which raises where the path is there
unfoldable pub mkdir : Table → Text → ℕ → Option Table
unfolding dir_node
mkdir nodes path now =
    if is_some (get_node nodes path) then none else some (nodes ++ dir_node path now ∷ [])

unfoldable pub file_node : Text → Text → ℕ → Node
unfolding parent_of basename
file_node path content now = record {
  path = path;
  parent_path = some (parent_of path);
  name = basename path;
  is_dir = false;
  permissions = codes "-rw-r--r--";
  owner = codes "root";
  size = length content;
  modified_at = at_text (show now);
  content = some content;
}

unfoldable pub write_file : Table → Text → Text → ℕ → Table
unfolding file_node replace
write_file nodes path content now = replace nodes (file_node path content now)

-- `os.path.normpath(os.path.join(cwd, path))`
pub record PathLibrary : Type 0 where
  pub norm_join : Text → Text → Text

unfoldable pub with_root : Text → Text
with_root path = if starts_with path root then path else slash ∷ path

-- `if expect_dir and node and not node["is_dir"]: return None`
unfoldable pub expected : Bool → Option Node → Option Node
expected expect_dir none = none
expected expect_dir (some n) = if expect_dir && not n.is_dir then none else some n

-- `FakeFileSystem.resolve_path`; the last argument is `expect_dir`
unfoldable pub resolve_path : PathLibrary → Table → Text → Text → Bool → Option Node
unfolding with_root
resolve_path lib nodes path cwd expect_dir =
    expected expect_dir (get_node nodes (with_root (lib.norm_join cwd path)))

program : Unit {0}
unfolding parent_of basename eqb
program = tt

parent_of_file : (parent_of (codes "/a/b") ≡ codes "/a") × (parent_of (codes "/a") ≡ root)
unfolding program
parent_of_file = (refl, refl)
