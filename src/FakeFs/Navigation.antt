-- ===== src/FakeFs/Navigation.antt =====
-- Where `cd` leads and what `mkdir` makes (src/infra/fake_fs/commands.py). `os.path` is a
-- parameter; the laws rely on its leaving a canonical absolute path as it is.
use honey_mind.Prelude.{
  ℕ, Text, codes, eqb, eqb_refl, starts_with, map, strip, is_some, true, false, Bool-cases, List,
  [], ◌∷◌, ◌++◌, if◌then◌else◌, Option, Option-cases, none, some, ◌≡◌, ◌≢◌, refl, arith, ◌⊎◌, inl,
  inr, ap, ◌∙◌,
}
use honey_mind.FakeFs.Paths.{root, absolute, normalize_path}
use honey_mind.FakeFs.Paths.Canonical.{IsCanonical, normalize_path-IsCanonical}
use honey_mind.FakeFs.Nodes.{
  Node, Table, PathLibrary, get_node, mkdir, resolve_path, expected, dir_node, with_root,
}
use honey_mind.FakeFs.Nodes.Writes.{get_node-mkdir}
use honey_mind.FakeFs.Commands.{
  Shell, resolve, cd_candidates, split_or, handle_cd, mkdir_error, parent_is_dir, made,
  handle_mkdir,
}

-- `os.path.normpath(os.path.join("/", path))` is the path, for an absolute path of names.
pub record KeepsCanonical (lib : PathLibrary) : Type 0 where
  pub kept : (path : Text) → IsCanonical path → lib.norm_join root path ≡ path

module _ (lib : PathLibrary) where
  -- where a `cd` ended: the working directory is as before, or a folder with a canonical path
  abbrev pub Moved : Shell → Text → Shell × Text → Type 0
  Moved s path (s', output) =
      ((s' ≡ s) × (output ≡ codes "cd: no such file or directory: " ++ path))
      ⊎ ((node : Node) × (resolve lib s.nodes output ≡ some node)
          × (node.is_dir ≡ true)
          × IsCanonical output
          × (s' ≡ record s { cwd = output }))

  cd_candidates-Moved :
      (s : Shell) (path : Text) (candidates : List Text)
      → IsCanonical s.cwd
      → Moved s path (cd_candidates lib s path candidates)
  unfolding cd_candidates
  cd_candidates-Moved s path [] h = inl (refl, refl)
  cd_candidates-Moved s path (c ∷ cs) h =
      elim (Option-cases (resolve lib s.nodes (normalize_path c s.cwd))) [
        | inl e ↦ rw (e, cd_candidates) (cd_candidates-Moved s path cs h)
        | inr (node, e) ↦ elim (Bool-cases node.is_dir) [
          | inl d ↦
              rw (e, cd_candidates)
                (rw d (inr (node, e, d, normalize_path-IsCanonical c s.cwd h, refl)))
          | inr d ↦ rw (e, cd_candidates) (rw d (cd_candidates-Moved s path cs h))
        ]
      ]

  -- From a canonical working directory, `cd` with any argument either fails with the message and
  -- changes nothing, or moves to a folder that is there, whose canonical path it returns.
  pub handle_cd-Moved :
      (s : Shell) (path : Text) → IsCanonical s.cwd → Moved s path (handle_cd lib s path)
  unfolding handle_cd
  handle_cd-Moved s path h = cd_candidates-Moved s path (map strip (split_or lib path [])) h

  starts-root : (parts : List Text) → starts_with (absolute parts) root ≡ true
  unfolding absolute starts_with
  starts-root parts = refl

  expected-false : (o : Option Node) → expected false o ≡ o
  unfolding expected
  expected-false none = refl
  expected-false (some n) = refl

  resolve-canonical :
      (nodes : Table) (path : Text)
      → KeepsCanonical lib
      → IsCanonical path
      → resolve lib nodes path ≡ get_node nodes path
  unfolding resolve_path with_root
  resolve-canonical nodes path k c = rw (k.kept path c) (
      rw (ap (λ p. starts_with p root) c.spelled ∙ starts-root c.parts)
        (expected-false (get_node nodes path)))

  mkdir_error-ne : (path reason : Text) → mkdir_error lib path reason ≢ []
  unfolding mkdir_error
  mkdir_error-ne path reason e = cc e

  made-silent :
      (s s' : Shell) (o : Option Table)
      → made lib s o ≡ some (s', [])
      → (nodes : Table) × (o ≡ some nodes) × (s' ≡ record s { nodes = nodes })
  unfolding made
  made-silent s s' none h = cc
  made-silent s s' (some nodes) h = (nodes, refl, ground arith)

  complained :
      {P : Type 0} (s s' : Shell) (path reason : Text)
      → ◌≡◌ {A = Option (Shell × Text)} (some (s, mkdir_error lib path reason)) (some (s', []))
      → P
  complained s s' path reason h =
      let e : mkdir_error lib path reason ≡ [] = cc in absurd (mkdir_error-ne path reason e)

  free :
      (nodes nodes' : Table) (path : Text) (now : ℕ)
      → mkdir nodes path now ≡ some nodes'
      → get_node nodes path ≡ none
  free nodes nodes' path now ok = elim (get_node-mkdir nodes path now path) [
    | inl (failed, _) ↦ absurd (ground arith)
    | inr (made_nodes, _, absent, _) ↦ absent
  ]

  placed :
      (nodes nodes' : Table) (path : Text) (now : ℕ) (p : Text)
      → mkdir nodes path now ≡ some nodes'
      → get_node nodes' p ≡ (if eqb path p then some (dir_node path now) else get_node nodes p)
  placed nodes nodes' path now p ok = elim (get_node-mkdir nodes path now p) [
    | inl (failed, _) ↦ absurd (ground arith)
    | inr (made_nodes, ok', _, there) ↦
        let same : nodes' ≡ made_nodes = ground arith in rw same there
  ]

  -- What a silent `mkdir` did, from a canonical working directory and where the path library
  -- leaves canonical paths as they are: the path was free, and it has a folder now; no other path
  -- changed.
  pub handle_mkdir-silent :
      (s s' : Shell) (path : Text) (now : ℕ)
      → KeepsCanonical lib
      → IsCanonical s.cwd
      → handle_mkdir lib s path now ≡ some (s', [])
      → (s'.cwd ≡ s.cwd)
        × (get_node s.nodes (normalize_path path s.cwd) ≡ none)
        × ((p : Text)
            → get_node s'.nodes p ≡ (
                if eqb (normalize_path path s.cwd) p
                then some (dir_node (normalize_path path s.cwd) now)
                else get_node s.nodes p))
  unfolding handle_mkdir
  handle_mkdir-silent s s' path now k c h =
      let full = normalize_path path s.cwd in
      let canonical = normalize_path-IsCanonical path s.cwd c in
      elim (Bool-cases (is_some (resolve lib s.nodes full))) [
        | inl e ↦ complained s s' path (codes "File exists") (rw e at h)
        | inr e ↦ elim (Bool-cases (parent_is_dir lib s.nodes full)) [
          | inr d ↦ complained s s' path (codes "No such file or directory") (rw (e, d) at h)
          | inl d ↦
              let made_it = rw (e, d) at h in
              let (nodes, ok, same) = made-silent s s' (mkdir s.nodes full now) made_it in
              (
                ap (λ (t : Shell). t.cwd) same,
                free s.nodes nodes full now ok,
                λ p.
                    ap (λ (t : Shell). get_node t.nodes p) same
                    ∙ placed s.nodes nodes full now p ok,
              )
        ]
      ]

  -- the new folder, as the commands find it
  pub made-resolved :
      (s s' : Shell) (path : Text) (now : ℕ)
      → KeepsCanonical lib
      → IsCanonical s.cwd
      → handle_mkdir lib s path now ≡ some (s', [])
      → resolve lib s'.nodes (normalize_path path s'.cwd)
        ≡ some (dir_node (normalize_path path s.cwd) now)
  made-resolved s s' path now k c h =
      let full = normalize_path path s.cwd in
      let (same_cwd, _, there) = handle_mkdir-silent s s' path now k c h in
      ap (λ d. resolve lib s'.nodes (normalize_path path d)) same_cwd
      ∙ resolve-canonical s'.nodes full k (normalize_path-IsCanonical path s.cwd c)
      ∙ there full
      ∙ rw eqb_refl refl

  -- After a silent `mkdir`, a `cd` to the same argument moves into the new folder, where the
  -- argument has no alternatives and no white space around it, the working directory is canonical,
  -- and the path library leaves canonical paths as they are.
  pub cd-mkdir :
      (s s' : Shell) (path : Text) (now : ℕ)
      → KeepsCanonical lib
      → IsCanonical s.cwd
      → map strip (split_or lib path []) ≡ path ∷ []
      → handle_mkdir lib s path now ≡ some (s', [])
      → handle_cd lib s' path
        ≡ (record s' { cwd = normalize_path path s.cwd }, normalize_path path s.cwd)
  unfolding handle_cd cd_candidates
  cd-mkdir s s' path now k c single h =
      let full = normalize_path path s.cwd in
      let (same_cwd, _, there) = handle_mkdir-silent s s' path now k c h in
      let found : resolve lib s'.nodes full ≡ some (dir_node full now) =
        resolve-canonical s'.nodes full k (normalize_path-IsCanonical path s.cwd c)
        ∙ there full
        ∙ rw eqb_refl refl in
      rw (single) (rw (same_cwd) (rw (found, cd_candidates) (unfold dir_node in refl)))
