-- ===== src/Ssh/Upload/Inside.antt =====
-- Where an upload is saved (src/honeypots/ssh_honeypot.py): whatever the client names, inside the
-- upload folder.
use honey_mind.Prelude.{
  ℕ, Text, reverse, reverse-cons, span, not, false, ◌==◌, Bool-cases, Option-cases, All-append,
  List, [], ◌∷◌, Option, none, some, ◌≡◌, refl, sym, subst, inl, inr,
}
use honey_mind.FakeFs.Paths.{slash}
use honey_mind.FakeFs.Paths.Split.{NoSlash}
use honey_mind.FakeFs.Nodes.{basename}
use honey_mind.Ssh.Upload.{
  Channel, Header, copy, invalid, undecodable, read_header, parse_header, receive, path_in, size_of,
  handle_scp_upload, received, store_upload, after_header, ended,
}

reverse-NoSlash : (s : Text) → NoSlash s → NoSlash (reverse s)
reverse-NoSlash [] h = tt
reverse-NoSlash (c ∷ s) (hc, h) =
    subst NoSlash (sym (reverse-cons c s))
      (All-append (λ d. (d == slash) ≡ false) (reverse s) (c ∷ []) (reverse-NoSlash s h) (hc, tt))

span-NoSlash : (s : Text) → NoSlash (span (λ c. not (c == slash)) s).0
unfolding span
span-NoSlash [] = tt
span-NoSlash (c ∷ s) = elim (Bool-cases (c == slash)) [
  | inl e ↦ rw (e, span) tt
  | inr e ↦ rw (e, span) (e, span-NoSlash s)
]

basename-NoSlash : (path : Text) → NoSlash (basename path)
unfolding basename
basename-NoSlash path =
    reverse-NoSlash (span (λ c. not (c == slash)) (reverse path)).0 (span-NoSlash (reverse path))

-- a save that was made is under a plain name of the folder
abbrev pub IsInside : Channel → Option (Text × Text) → Type 0
IsInside ch none = Unit
IsInside ch (some (path, file_bytes)) =
    (name : Text) × (path ≡ path_in ch.upload_dir name) × NoSlash name

store_upload-IsInside :
    (ch : Channel) (filename file_bytes : Text)
    → IsInside ch (store_upload ch filename file_bytes).saved
unfolding store_upload ended
store_upload-IsInside ch filename file_bytes =
    elim (Bool-cases (ch.takes_file (path_in ch.upload_dir (basename filename)))) [
      | inl e ↦ rw e (basename filename, refl, basename-NoSlash filename)
      | inr e ↦ rw e tt
    ]

received-IsInside :
    (ch : Channel) (filename : Text) (o : Option (Text × List ℕ))
    → IsInside ch (received ch filename o).saved
unfolding received ended
received-IsInside ch filename none = tt
received-IsInside ch filename (some (file_bytes, rest)) =
    store_upload-IsInside ch filename file_bytes

after_header-IsInside :
    (ch : Channel) (header : Header) (bytes : List ℕ)
    → IsInside ch (after_header ch header bytes).saved
unfolding after_header ended
after_header-IsInside ch invalid bytes = tt
after_header-IsInside ch undecodable bytes = tt
after_header-IsInside ch (copy size filename) bytes =
    received-IsInside ch filename (receive (size_of size) ch (size_of size) bytes)

-- Whatever bytes a client sends, what is saved of them is saved under a name without a slash in the
-- upload folder.
pub scp_upload-IsInside :
    (ch : Channel) (bytes : List ℕ) → IsInside ch (handle_scp_upload ch bytes).saved
unfolding handle_scp_upload ended
scp_upload-IsInside ch bytes = elim (Option-cases (read_header bytes [])) [
  | inl e ↦ rw (e, handle_scp_upload) tt
  | inr ((header, rest), e) ↦
      rw (e, handle_scp_upload) (after_header-IsInside ch (parse_header ch header) rest)
]
