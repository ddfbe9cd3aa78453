-- ===== src/FakeFs/Query/Keeps.antt =====
-- What a query changes in a session, and what any number of queries keep
-- (src/infra/fake_fs_data_handler.py).
use honey_mind.Prelude.{
  ℕ, Text, codes, length, leb, words, join, last?, get_or, space, true, Bool-cases, is_some, List,
  [], ◌∷◌, ◌++◌, Option-cases, some, ◌≡◌, arith, inl, inr,
}
use honey_mind.Normalizer.{normalize_command_input}
use honey_mind.FakeFs.Paths.{normalize_path}
use honey_mind.FakeFs.Paths.Canonical.{IsCanonical}
use honey_mind.FakeFs.Nodes.{PathLibrary, Table, get_node, mkdir}
use honey_mind.FakeFs.Nodes.Writes.{
  DistinctPaths, writes-DistinctPaths, get_node-mkdir, write_file-get_node,
}
use honey_mind.FakeFs.Commands.{
  Shell, handle_cd, handle_mkdir, record_download, download_name, resolve, parent_is_dir, made,
}
use honey_mind.FakeFs.Navigation.{handle_cd-Moved}
use honey_mind.FakeFs.Shlex.{parts_of}
use honey_mind.FakeFs.Artifacts.{handle_system_artifacts}
use honey_mind.FakeFs.Query.{
  Env, Clock, Command, ls, cd, mkdir_of, find, grep, download, none_of, read, query,
  query_normalized, run_parts, run_command, run_download, in_mkdir, handle_download, file_answer,
  command_of,
}

-- what a query may do to a session
pub data Effect (env : Env) (s : Shell) : Shell → Type 0 where
  unchanged : Effect env s s
  moved : (path : Text) → Effect env s (handle_cd env.lib s path).0
  made_folder :
      (path : Text) (now : ℕ) → Effect env s (in_mkdir s (handle_mkdir env.lib s path now)).0
  downloaded : (url : Text) (now : ℕ) → Effect env s (record_download s url now)

module _ (env : Env) (clock : Clock) (s : Shell) where
  run_download-Effect : (tokens : List Text) → Effect env s (run_download env clock s tokens).0
  unfolding run_download handle_download
  run_download-Effect tokens = elim (Bool-cases (leb 2 (length tokens))) [
    | inl h ↦ rw h (downloaded (get_or (last? tokens) []) clock.seconds)
    | inr h ↦ rw h unchanged
  ]

  run_command-Effect :
      (line : Text) (command : Command) (tokens : List Text)
      → Effect env s (run_command env clock s line command tokens).0
  unfolding run_command
  run_command-Effect line ls tokens = unchanged
  run_command-Effect line cd [] = unchanged
  run_command-Effect line cd (token ∷ tokens) = moved (join (space ∷ []) (token ∷ tokens))
  run_command-Effect line mkdir_of [] = unchanged
  run_command-Effect line mkdir_of (token ∷ tokens) = made_folder token clock.seconds
  run_command-Effect line (read command) tokens = unchanged
  run_command-Effect line find tokens = unchanged
  run_command-Effect line grep tokens = unchanged
  run_command-Effect line download tokens = run_download-Effect (words line)
  run_command-Effect line none_of tokens = unchanged

  run_parts-Effect :
      (line : Text) (parts : List Text) → Effect env s (run_parts env clock s line parts).0
  unfolding run_parts
  run_parts-Effect line [] = unchanged
  run_parts-Effect line (command ∷ tokens) =
      run_command-Effect line (command_of line command) tokens

  query_normalized-Effect : (line : Text) → Effect env s (query_normalized env clock s line).0
  unfolding query_normalized
  query_normalized-Effect line = elim (Option-cases (file_answer env line)) [
    | inr (response, e) ↦ rw (e, query_normalized) unchanged
    | inl e ↦ elim (Option-cases (handle_system_artifacts env.system s.cwd line)) [
      | inr (response, a) ↦ rw (e, query_normalized) (rw a unchanged)
      | inl a ↦ rw (e, query_normalized) (rw a (run_parts-Effect line (parts_of line)))
    ]
  ]

-- Every query leaves the session as it was, or changes it by one `cd`, by one `mkdir`, or by the
-- record of one download.
pub query-Effect :
    (env : Env) (clock : Clock) (s : Shell) (raw : Text) → Effect env s (query env clock s raw).0
unfolding query
query-Effect env clock s raw = query_normalized-Effect env clock s (normalize_command_input raw)

-- a session that the program can have: the working directory is an absolute path of names, and no
-- two nodes have one path
pub record IsValid (s : Shell) : Type 0 where
  pub canonical : IsCanonical s.cwd
  pub distinct : DistinctPaths s.nodes

-- every path that had a node has one
abbrev pub StillThere : Table → Table → Type 0
StillThere nodes nodes' =
    (p : Text) → is_some (get_node nodes p) ≡ true → is_some (get_node nodes' p) ≡ true

Keeps : Shell → Shell → Type 0
Keeps s s' = IsValid s' × StillThere s.nodes s'.nodes

module _ (lib : PathLibrary) (s : Shell) (v : IsValid s) where
  stays : Keeps s s
  unfolding Keeps
  stays = (v, λ p h. h)

  handle_cd-Keeps : (path : Text) → Keeps s (handle_cd lib s path).0
  unfolding Keeps
  handle_cd-Keeps path = elim (handle_cd-Moved lib s path v.canonical) [
    | inl (same, _) ↦ rw same (v, λ p h. h)
    | inr (node, _, _, c, same) ↦
        rw same (record { canonical = c; distinct = v.distinct }, λ p h. h)
  ]

  StillThere-mkdir :
      (nodes' : Table) (path : Text) (now : ℕ)
      → mkdir s.nodes path now ≡ some nodes'
      → StillThere s.nodes nodes'
  StillThere-mkdir nodes' path now ok p h = elim (get_node-mkdir s.nodes path now p) [
    | inl (failed, _) ↦ absurd (ground arith)
    | inr (made_nodes, ok', _, there) ↦
        let same : nodes' ≡ made_nodes = ground arith in rw (same, there) (ground arith)
  ]

  made-Keeps :
      (path : Text) (now : ℕ) → Keeps s (in_mkdir s (made lib s (mkdir s.nodes path now))).0
  unfolding in_mkdir made Keeps
  made-Keeps path now = elim (Option-cases (mkdir s.nodes path now)) [
    | inl e ↦ rw e (v, λ p h. h)
    | inr (nodes', e) ↦ rw e (
      record {
        canonical = v.canonical;
        distinct = (writes-DistinctPaths s.nodes path [] now v.distinct).1 nodes' e;
      },
      StillThere-mkdir nodes' path now e,
    )
  ]

  handle_mkdir-Keeps :
      (path : Text) (now : ℕ) → Keeps s (in_mkdir s (handle_mkdir lib s path now)).0
  unfolding handle_mkdir in_mkdir
  handle_mkdir-Keeps path now =
      let full = normalize_path path s.cwd in
      elim (Bool-cases (is_some (resolve lib s.nodes full))) [
        | inl e ↦ rw e stays
        | inr e ↦ elim (Bool-cases (parent_is_dir lib s.nodes full)) [
          | inr d ↦ rw (e, d) stays
          | inl d ↦ rw (e, d) (made-Keeps full now)
        ]
      ]

  record_download-Keeps : (url : Text) (now : ℕ) → Keeps s (record_download s url now)
  unfolding record_download Keeps
  record_download-Keeps url now =
      let path = normalize_path (download_name url) s.cwd in
      let content = codes "# downloaded from " ++ url in
      (
        record {
          canonical = v.canonical;
          distinct = (writes-DistinctPaths s.nodes path content now v.distinct).0;
        },
        λ p h. rw (write_file-get_node s.nodes path content now p) (ground arith),
      )

Effect-Keeps : (env : Env) (s s' : Shell) → Effect env s s' → IsValid s → Keeps s s'
Effect-Keeps env s _ unchanged v = stays env.lib s v
Effect-Keeps env s _ (moved path) v = handle_cd-Keeps env.lib s v path
Effect-Keeps env s _ (made_folder path now) v = handle_mkdir-Keeps env.lib s v path now
Effect-Keeps env s _ (downloaded url now) v = record_download-Keeps env.lib s v url now

-- the sessions that queries lead to
pub data Reached (env : Env) (s : Shell) : Shell → Type 0 where
  start : Reached env s s
  asked :
      {s' : Shell}
      → Reached env s s'
      → (clock : Clock) (raw : Text) → Reached env s (query env clock s' raw).0

-- Whatever is asked, and however often, of a session whose working directory is an absolute path of
-- names and whose nodes have distinct paths: both still hold, and no path has lost its node.
pub Reached-Keeps :
    (env : Env) (s s' : Shell)
    → IsValid s
    → Reached env s s'
    → IsValid s' × StillThere s.nodes s'.nodes
unfolding Keeps
Reached-Keeps env s _ v start = (v, λ p h. h)
Reached-Keeps env s _ v (asked {s'} before clock raw) =
    let (v', there) = Reached-Keeps env s s' v before in
    let (v'', there') =
      Effect-Keeps env s' (query env clock s' raw).0 (query-Effect env clock s' raw) v' in
    (v'', λ p h. there' p (there p h))
