-- ===== src/Ssh/Files.antt =====
-- `HoneypotSFTPServerInterface` of src/honeypots/ssh_honeypot.py: the operations on uploaded files.
-- A path of the server is the list of its parts; the file system behind it is a parameter.
use honey_mind.Prelude.{
  ℕ, ◌/◌, ◌%◌, Text, codes, eqb, path_name, Bool, not, ◌||◌, ◌==◌, List, [], ◌∷◌, ◌++◌,
  if◌then◌else◌, Option, none, some, ◌≡◌, ◌⊎◌, inl, inr, refl, Bool-cases,
}

abbrev pub PathParts : Type 0
PathParts = List Text

pub data OpenMode : Type 0 where
  append_binary update_binary write_binary : OpenMode

-- what an operation of the system does: it changes the disk, or raises an OSError with its number
pub data Outcome (D : Type 0) : Type 0 where
  done : D → Outcome D
  os_error : ℕ → Outcome D

pub record Disk (D : Type 0) : Type 0 where
  pub exists : D → PathParts → Bool
  pub is_dir : D → PathParts → Bool
  pub children : D → PathParts → List Text
  pub open_file : D → OpenMode → PathParts → Outcome D
  pub unlink : D → PathParts → Outcome D
  pub replace : D → PathParts → PathParts → Outcome D
  pub make_dirs : D → PathParts → Outcome D
  pub rmdir : D → PathParts → Outcome D

-- the codes of SFTP; `failed` is the code for an error number, and `raised` an exception
pub data Status : Type 0 where
  ok no_such_file permission_denied raised : Status
  failed : ℕ → Status

-- `_remote_path`
unfoldable pub remote_path : PathParts → Text → PathParts
remote_path upload_dir path =
    if eqb path [] || eqb path (codes "/") || eqb (path_name path) []
    then upload_dir
    else upload_dir ++ path_name path ∷ []

-- one bit of the flags
abbrev pub has_flag : ℕ → ℕ → Bool
has_flag flags bit = not (flags / bit % 2 == 0)

abbrev pub o_wronly : ℕ
o_wronly = 1

abbrev pub o_rdwr : ℕ
o_rdwr = 2

abbrev pub o_creat : ℕ
o_creat = 64

abbrev pub o_trunc : ℕ
o_trunc = 512

abbrev pub o_append : ℕ
o_append = 1024

unfoldable pub is_write : ℕ → Bool
is_write flags =
    has_flag flags o_wronly
    || has_flag flags o_rdwr
    || has_flag flags o_creat
    || has_flag flags o_trunc
    || has_flag flags o_append

unfoldable pub open_mode : ℕ → OpenMode
open_mode flags =
    if has_flag flags o_append
    then append_binary
    else if has_flag flags o_rdwr
    then update_binary
    else write_binary

unfoldable pub canonicalize : Text → Text
canonicalize [] = codes "/"
canonicalize (c ∷ path) = c ∷ path

module _ {D : Type 0} (disk : Disk D) (upload_dir : PathParts) where
  -- an operation within `try`
  tried : D → Outcome D → D × Status
  tried d (done d') = (d', ok)
  tried d (os_error errno) = (d, failed errno)

  unfoldable pub stat : D → Text → Status
  stat d path = if disk.exists d (remote_path upload_dir path) then ok else no_such_file

  unfoldable pub list_folder : D → Text → Option (List Text)
  list_folder d path =
      let local_path = remote_path upload_dir path in
      if not (disk.exists d local_path) || not (disk.is_dir d local_path)
      then none
      else some (disk.children d local_path)

  -- the folder of a remote path
  parent_of : Text → PathParts → PathParts
  parent_of path above =
      if eqb path [] || eqb path (codes "/") || eqb (path_name path) [] then above else upload_dir

  -- behind the creation of the folder
  behind_folder : D → Outcome D → (D → D × Status) → D × Status
  behind_folder d (os_error errno) next = (d, raised)
  behind_folder d (done d') next = next d'

  -- `open`; the folder above the upload folder is an argument
  unfoldable pub open_path : PathParts → D → Text → ℕ → D × Status
  unfolding tried parent_of behind_folder
  open_path above d path flags =
      if not (is_write flags)
      then (d, permission_denied)
      else behind_folder d (disk.make_dirs d (parent_of path above))
          (λ d'. tried d' (disk.open_file d' (open_mode flags) (remote_path upload_dir path)))

  unfoldable pub remove : D → Text → D × Status
  unfolding tried
  remove d path =
      let local_path = remote_path upload_dir path in
      if disk.exists d local_path then tried d (disk.unlink d local_path) else (d, no_such_file)

  unfoldable pub rename : PathParts → D → Text → Text → D × Status
  unfolding tried parent_of behind_folder
  rename above d oldpath newpath =
      if disk.exists d (remote_path upload_dir oldpath)
      then behind_folder d (disk.make_dirs d (parent_of newpath above)) (λ d'.
        tried d'
          (disk.replace d' (remote_path upload_dir oldpath) (remote_path upload_dir newpath)))
      else (d, no_such_file)

  unfoldable pub mkdir : D → Text → D × Status
  unfolding tried
  mkdir d path = tried d (disk.make_dirs d (remote_path upload_dir path))

  unfoldable pub rmdir : D → Text → D × Status
  unfolding tried
  rmdir d path =
      let local_path = remote_path upload_dir path in
      if disk.exists d local_path then tried d (disk.rmdir d local_path) else (d, no_such_file)

  -- Whatever path an operation is given, it works on the upload folder or on one name in it.
  pub remote_path-Inside :
      (path : Text)
      → (remote_path upload_dir path ≡ upload_dir)
        ⊎ (remote_path upload_dir path ≡ upload_dir ++ path_name path ∷ [])
  unfolding remote_path
  remote_path-Inside path =
      elim (Bool-cases (eqb path [] || eqb path (codes "/") || eqb (path_name path) [])) [
        | inl e ↦ rw e (inl refl)
        | inr e ↦ rw e (inr refl)
      ]
