-- ===== src/FakeFs/Query/Download.antt =====
-- What `handle_download` (src/infra/fake_fs/commands.py) does to the session where the URL has no
-- file name, or no host.
use honey_mind.Prelude.{
  ℕ, Text, codes, eqb, eqb_refl, Bool-cases, ◌++◌, [], ◌∷◌, none, some, ◌≡◌, refl, subst, ap, ◌∙◌,
  inl, inr, strip_char, split, split_from, starts_with,
}
use honey_mind.FakeFs.Paths.{slash, base_of, absolute, walk, walk_part, normalize_path}
use honey_mind.FakeFs.Paths.Canonical.{IsCanonical, components-absolute}
use honey_mind.FakeFs.Nodes.{get_node, file_node}
use honey_mind.FakeFs.Nodes.Writes.{write_file-get_node}
use honey_mind.FakeFs.Commands.{Shell, download_name, record_download}
use honey_mind.FakeFs.Query.{Env, Clock, raised, url_host, handle_download, download_reply}

split-nothing : split slash (strip_char slash []) ≡ [] ∷ []
unfolding split split_from strip_char
split-nothing = refl

normalize_nothing : (cwd : Text) → IsCanonical cwd → normalize_path [] cwd ≡ cwd
unfolding normalize_path walk walk_part base_of starts_with eqb split
normalize_nothing cwd c =
    rw split-nothing (rw c.spelled (ap absolute (components-absolute c.parts c.named)))

-- the file that a download leaves
pub record_download-get_node :
    (s : Shell) (url : Text) (now : ℕ)
    → get_node (record_download s url now).nodes (normalize_path (download_name url) s.cwd)
      ≡ some (
          file_node
            (normalize_path (download_name url) s.cwd)
            (codes "# downloaded from " ++ url)
            now)
unfolding record_download
record_download-get_node s url now =
    let path = normalize_path (download_name url) s.cwd in
    write_file-get_node s.nodes path (codes "# downloaded from " ++ url) now path ∙ rw eqb_refl refl

-- A download from a URL that ends in a slash, in a working directory that is an absolute path of
-- names, replaces the working directory itself by a file.
pub download_over_folder :
    (env : Env) (clock : Clock) (s : Shell) (url : Text)
    → IsCanonical s.cwd
    → download_name url ≡ []
    → get_node (handle_download env clock s url).0.nodes s.cwd
      ≡ some (file_node s.cwd (codes "# downloaded from " ++ url) clock.seconds)
unfolding handle_download
download_over_folder env clock s url c nameless =
    let here : normalize_path (download_name url) s.cwd ≡ s.cwd =
      ap (λ name. normalize_path name s.cwd) nameless ∙ normalize_nothing s.cwd c in
    subst
      (λ (path : Text).
        get_node (record_download s url clock.seconds).nodes path
        ≡ some (file_node path (codes "# downloaded from " ++ url) clock.seconds))
      here (record_download-get_node s url clock.seconds)

-- A download from a URL with fewer than two slashes raises, on every machine, and leaves its file
-- in the file system all the same.
pub download_without_host :
    (env : Env) (clock : Clock) (s : Shell) (url : Text)
    → url_host url ≡ none
    → ((handle_download env clock s url).1 ≡ raised)
      × (get_node
            (handle_download env clock s url).0.nodes
            (normalize_path (download_name url) s.cwd)
          ≡ some (
              file_node
                (normalize_path (download_name url) s.cwd)
                (codes "# downloaded from " ++ url)
                clock.seconds))
unfolding handle_download download_reply
download_without_host env clock s url h = (
  elim (Bool-cases (env.takes_file (download_name url))) [
    | inl e ↦ rw (e, h) refl
    | inr e ↦ rw e refl
  ],
  record_download-get_node s url clock.seconds,
)
