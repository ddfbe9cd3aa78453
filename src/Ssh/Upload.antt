-- ===== src/Ssh/Upload.antt =====
-- `handle_scp_upload` of src/honeypots/ssh_honeypot.py: the file that `scp -t` sends, read from the
-- bytes of a channel. A client that stalls until a time-out is left out.
pub mod Received
pub mod Inside
use honey_mind.Prelude.{
  ℕ, zero, suc, ◌-◌, min, Text, codes, eqb, length, take, drop, split, starts_with, ends_with,
  strip_by, leb, ltb, Bool, true, false, not, ◌||◌, ◌==◌, List, [], ◌∷◌, ◌++◌, if◌then◌else◌,
  Option, none, some,
}
use honey_mind.Redis.Integers.{ℤ, pos, negsuc, int}
use honey_mind.FakeFs.Paths.{slash, root}
use honey_mind.FakeFs.Nodes.{basename}

-- How many bytes a `recv` delivers of those that are to come, the decoder of UTF-8, the upload
-- folder, and whether a path in it can be written.
pub record Channel : Type 0 where
  pub delivers : List ℕ → ℕ → ℕ
  pub decode : Text → Option Text
  pub upload_dir : Text
  pub takes_file : Text → Bool
  pub has_session : Bool

-- how an upload ends: by a return, an exception, the answer to an OSError, or in full
pub data Ending : Type 0 where
  aborted raised refused uploaded : Ending

pub record Transfer : Type 0 where
  pub sent : List ℕ
  pub saved : Option (Text × Text)
  pub logged : List Text
  pub ending : Ending

-- bytes up to and with the first line feed, and those behind it
unfoldable pub read_header : List ℕ → Text → Option (Text × List ℕ)
read_header [] header = none
read_header (byte ∷ bytes) header = elim (byte == 10) [
  | true ↦ some (header ++ byte ∷ [], bytes)
  | false ↦ read_header bytes (header ++ byte ∷ [])
]

-- `bytes.strip`
abbrev is_byte_space : ℕ → Bool
is_byte_space c = (c == 32) || (c == 9) || (c == 10) || (c == 11) || (c == 12) || (c == 13)

-- what the header says
pub data Header : Type 0 where
  invalid undecodable : Header
  copy : ℤ → Text → Header

copy_of : Option Text → Option ℤ → Option Text → Header
copy_of (some mode) (some size) (some filename) = copy size filename
copy_of none size filename = undecodable
copy_of (some mode) none filename = undecodable
copy_of (some mode) (some size) none = undecodable

header_of : Channel → List Text → Header
unfolding copy_of is_byte_space
header_of ch (mode ∷ size ∷ filename ∷ []) =
    copy_of (ch.decode mode) (int (strip_by is_byte_space size)) (ch.decode filename)
header_of ch [] = invalid
header_of ch (a ∷ []) = invalid
header_of ch (a ∷ b ∷ []) = invalid
header_of ch (a ∷ b ∷ c ∷ d ∷ parts) = invalid

unfoldable pub parse_header : Channel → Text → Header
unfolding header_of is_byte_space
parse_header ch header =
    if starts_with header (codes "C")
    then header_of ch (split 32 (strip_by is_byte_space header))
    else invalid

-- nothing received: the client has closed
pub with_chunk : Text → Option (Text × List ℕ) → Option (Text × List ℕ)
with_chunk [] more = none
with_chunk (c ∷ chunk) none = none
with_chunk (c ∷ chunk) (some (more, bytes)) = some ((c ∷ chunk) ++ more, bytes)

-- The loop over the file's bytes, on the number that is missing; `none` where the client closes
-- before. A round reads a byte at least, so fuel for every missing byte is enough.
unfoldable pub receive : ℕ → Channel → ℕ → List ℕ → Option (Text × List ℕ)
unfolding with_chunk
receive fuel ch zero bytes = some ([], bytes)
receive zero ch (suc missing) bytes = none
receive (suc fuel) ch (suc missing) bytes =
    let n = ch.delivers bytes (min 4096 (suc missing)) in
    with_chunk (take n bytes) (receive fuel ch (suc missing - length (take n bytes)) (drop n bytes))

-- `os.path.join` with a name
unfoldable pub path_in : Text → Text → Text
path_in folder name =
    if eqb folder [] || ends_with folder root then folder ++ name else folder ++ slash ∷ name

-- an upload that ended early, behind as many acknowledgements
pub ended : List ℕ → Ending → Transfer
ended sent ending = record { sent = sent; saved = none; logged = []; ending = ending }

-- the end, with the whole file: an OSError is answered
pub store_upload : Channel → Text → Text → Transfer
unfolding ended
store_upload ch filename data_bytes =
    let path = path_in ch.upload_dir (basename filename) in
    if ch.takes_file path
    then record {
      sent = 0 ∷ 0 ∷ 0 ∷ [];
      saved = some (path, data_bytes);
      logged = if ch.has_session then filename ∷ [] else [];
      ending = uploaded;
    }
    else ended (0 ∷ 0 ∷ 1 ∷ []) refused

-- a negative size is reached at once
abbrev pub size_of : ℤ → ℕ
size_of (pos n) = n
size_of (negsuc n) = 0

pub received : Channel → Text → Option (Text × List ℕ) → Transfer
unfolding ended store_upload
received ch filename none = ended (0 ∷ 0 ∷ []) aborted
received ch filename (some (data_bytes, rest)) = store_upload ch filename data_bytes

-- behind the header
pub after_header : Channel → Header → List ℕ → Transfer
unfolding ended received
after_header ch invalid bytes = ended (0 ∷ []) aborted
after_header ch undecodable bytes = ended (0 ∷ []) raised
after_header ch (copy size filename) bytes =
    received ch filename (receive (size_of size) ch (size_of size) bytes)

unfoldable pub handle_scp_upload : Channel → List ℕ → Transfer
unfolding after_header ended
handle_scp_upload ch bytes = elim (read_header bytes []) [
  | none ↦ ended (0 ∷ []) aborted
  | some (header, rest) ↦ after_header ch (parse_header ch header) rest
]
