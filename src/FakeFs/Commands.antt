-- ===== src/FakeFs/Commands.antt =====
-- The shell commands `ls`, `cd` and `mkdir` over the simulated file system, and the file that a
-- download leaves (src/infra/fake_fs/commands.py). The session holds the working directory; the
-- row of `ls -l` is a parameter, since it prints a date.
use honey_mind.Prelude.{
  ℕ, Text, codes, ltb, keep, map, join, words, strip, split, drop, last?, starts_with, contains,
  any_of, is_some, Bool, true, false, not, ◌&&◌, ◌||◌, ◌==◌, List, [], ◌∷◌, ◌++◌, if◌then◌else◌,
  Option, none, some, get_or,
}
use honey_mind.FakeFs.Paths.{slash, root, normalize_path}
use honey_mind.FakeFs.Nodes.{
  Node, Table, PathLibrary, list_dir, mkdir, write_file, resolve_path, dirname,
}

pub record Shell : Type 0 where
  pub cwd : Text
  pub nodes : Table
  pub downloads : List (Text × Text)

-- `flag in token[1:]` for one of the tokens that is a short option
unfoldable pub has_ls_flag : Text → Text → Bool
unfolding words
has_ls_flag flags flag =
    any_of
      (λ token.
        not (starts_with token (codes "--"))
        && (starts_with token (codes "-") && contains (drop 1 token) flag))
      (words flags)

-- `sorted` by name: insertion, stable
unfoldable pub text_le : Text → Text → Bool
text_le [] t = true
text_le (c ∷ s) [] = false
text_le (c ∷ s) (d ∷ t) = ltb c d || ((c == d) && text_le s t)

unfoldable pub insert_by_name : Node → List Node → List Node
unfolding text_le
insert_by_name n [] = n ∷ []
insert_by_name n (m ∷ ms) = if text_le n.name m.name then n ∷ m ∷ ms else m ∷ insert_by_name n ms

unfoldable pub sort_by_name : List Node → List Node
unfolding insert_by_name
sort_by_name [] = []
sort_by_name (n ∷ ns) = insert_by_name n (sort_by_name ns)

module _ (lib : PathLibrary) where
  abbrev pub resolve : Table → Text → Option Node
  resolve nodes path = resolve_path lib nodes path root false

  -- `handle_cd`: the first candidate that is a folder
  unfoldable pub cd_candidates : Shell → Text → List Text → Shell × Text
  cd_candidates s path [] = (s, codes "cd: no such file or directory: " ++ path)
  cd_candidates s path (candidate ∷ candidates) =
      let new_path = normalize_path candidate s.cwd in
      let other = cd_candidates s path candidates in
      elim (resolve s.nodes new_path) [
        | none ↦ other
        | some node ↦ if node.is_dir then (record s { cwd = new_path }, new_path) else other
      ]

  -- `path.split("||")`, each candidate stripped
  unfoldable pub split_or : Text → Text → List Text
  split_or [] part = part ∷ []
  split_or (c ∷ []) part = (part ++ c ∷ []) ∷ []
  split_or (c ∷ d ∷ s) part = elim ((c == b'|') && (d == b'|')) [
    | true ↦ part ∷ split_or s []
    | false ↦ split_or (d ∷ s) (part ++ c ∷ [])
  ]

  unfoldable pub handle_cd : Shell → Text → Shell × Text
  handle_cd s path = cd_candidates s path (map strip (split_or path []))

  unfoldable pub mkdir_error : Text → Text → Text
  mkdir_error path reason =
      codes "mkdir: cannot create directory '" ++ (path ++ (codes "': " ++ reason))

  -- the parent exists and is a folder
  unfoldable pub parent_is_dir : Table → Text → Bool
  parent_is_dir nodes full_path = elim (resolve nodes (dirname full_path)) [
    | none ↦ false
    | some parent ↦ parent.is_dir
  ]

  -- `none` where the insertion raises
  unfoldable pub made : Shell → Option Table → Option (Shell × Text)
  made s none = none
  made s (some nodes) = some (record s { nodes = nodes }, [])

  unfoldable pub handle_mkdir : Shell → Text → ℕ → Option (Shell × Text)
  unfolding made mkdir_error parent_is_dir
  handle_mkdir s path now =
      let full_path = normalize_path path s.cwd in
      if is_some (resolve s.nodes full_path)
      then some (s, mkdir_error path (codes "File exists"))
      else if parent_is_dir s.nodes full_path
      then made s (mkdir s.nodes full_path now)
      else some (s, mkdir_error path (codes "No such file or directory"))

  -- the lines of `ls -l`
  module _ (format_ls_l : Node → Text) where
    unfoldable pub ls_children : Text → List Node → Text
    ls_children flags children =
        let shown =
          if has_ls_flag flags (codes "a")
          then children
          else keep (λ c. not (starts_with c.name (codes "."))) children in
        if has_ls_flag flags (codes "l")
        then join (codes "\r\n") (map format_ls_l (sort_by_name shown))
        else join (codes "  ") (map (λ (n : Node). n.name) (sort_by_name shown))

    unfoldable pub ls_target : Shell → Text → Option Text → Text
    ls_target s cwd none = cwd
    ls_target s cwd (some []) = cwd
    ls_target s cwd (some (c ∷ path)) = normalize_path (c ∷ path) cwd

    unfoldable pub named : Option Text → Text → Text
    named none target = target
    named (some []) target = target
    named (some (c ∷ path)) target = c ∷ path

    unfoldable pub handle_ls : Shell → Text → Option Text → Text
    unfolding ls_children ls_target named
    handle_ls s flags path =
        let target = ls_target s s.cwd path in
        elim (resolve s.nodes target) [
          | none ↦
              codes "ls: cannot access '"
              ++ (named path target ++ codes "': No such file or directory")
          | some node ↦
              if node.is_dir
              then ls_children flags (list_dir s.nodes target)
              else if contains flags (codes "-l")
              then format_ls_l node
              else node.name
        ]

-- `url.strip().split("/")[-1]`
unfoldable pub download_name : Text → Text
download_name url = get_or (last? (split slash (strip url))) []

-- what `handle_download` leaves in the session and in the simulated file system
unfoldable pub record_download : Shell → Text → ℕ → Shell
unfolding download_name
record_download s url now =
    let virtual_path = normalize_path (download_name url) s.cwd in
    record s {
      nodes = write_file s.nodes virtual_path (codes "# downloaded from " ++ url) now;
      downloads = s.downloads ++ (url, virtual_path) ∷ [];
    }
