-- ===== src/Ssh/Upload/Received.antt =====
-- What an upload over `scp` stores (src/honeypots/ssh_honeypot.py), however its bytes are
-- delivered.
use honey_mind.Prelude.{
  ℕ, zero, suc, ◌+◌, ◌-◌, ◌≤◌, ◌<◌, min, Text, length, take, drop, length-take, length-drop,
  take-add, drop-add, take-none, length-append, take-length, ltb, true, false, ◌==◌, Bool-cases,
  All, List, [], ◌∷◌, ◌++◌, append_assoc, append-nil, if◌then◌else◌, Option, none, some, ◌≡◌, refl,
  sym, ap, ◌∙◌, inl, inr, arith,
}
use honey_mind.Redis.Integers.{ℤ}
use honey_mind.FakeFs.Nodes.{basename}
use honey_mind.Ssh.Upload.{
  Channel, copy, uploaded, aborted, read_header, parse_header, receive, path_in, size_of,
  handle_scp_upload, with_chunk, received, store_upload, after_header, ended,
}

-- `recv` delivers a byte at least, and no more than it is asked for.
pub record Delivers (ch : Channel) : Type 0 where
  pub some_byte : (bytes : List ℕ) (n : ℕ) → 0 < n → 0 < ch.delivers bytes n
  pub at_most : (bytes : List ℕ) (n : ℕ) → ch.delivers bytes n ≤ n

with_chunk-none : (chunk : Text) → with_chunk chunk none ≡ none
unfolding with_chunk
with_chunk-none [] = refl
with_chunk-none (c ∷ chunk) = refl

with_chunk-some :
    (chunk more : Text) (bytes : List ℕ)
    → 0 < length chunk
    → with_chunk chunk (some (more, bytes)) ≡ some (chunk ++ more, bytes)
unfolding with_chunk
with_chunk-some [] more bytes h = absurd (omega arith)
with_chunk-some (c ∷ chunk) more bytes h = refl

-- what is there to be read of a number of bytes
abbrev available : ℕ → List ℕ → Option (Text × List ℕ)
available n bytes = if ltb (length bytes) n then none else some (take n bytes, drop n bytes)

available-short : (n : ℕ) (bytes : List ℕ) → length bytes < n → available n bytes ≡ none
available-short n bytes h = ground arith

available-all :
    (n : ℕ) (bytes : List ℕ)
    → n ≤ length bytes
    → available n bytes ≡ some (take n bytes, drop n bytes)
available-all n bytes h = ground arith

-- one chunk, and then what is there of the rest
chunk-available :
    (n m : ℕ) (bytes : List ℕ)
    → 0 < n
    → n ≤ m
    → 0 < length bytes
    → with_chunk (take n bytes) (available (m - length (take n bytes)) (drop n bytes))
      ≡ available m bytes
chunk-available n m bytes pos_n le pos_b =
    let l = length-take n bytes in
    let d = length-drop n bytes in
    elim (Bool-cases (ltb (length bytes) m)) [
      | inl short ↦
          let lt : length bytes < m = ground arith in
          ap (with_chunk (take n bytes))
            (available-short (m - length (take n bytes)) (drop n bytes) (omega (arith, l, d)))
          ∙ with_chunk-none (take n bytes)
          ∙ sym (available-short m bytes lt)
      | inr long ↦
          let ge : m ≤ length bytes = ground arith in
          let all : n + (m - n) ≡ m = omega arith in
          let k : m - length (take n bytes) ≡ m - n = omega (arith, l) in
          ap (with_chunk (take n bytes)) (
            ap (λ j. available j (drop n bytes)) k
            ∙ available-all (m - n) (drop n bytes) (omega (arith, d)))
          ∙ with_chunk-some (take n bytes) (take (m - n) (drop n bytes))
              (drop (m - n) (drop n bytes)) (omega (arith, l))
          ∙ ap (λ t. some (t, drop (m - n) (drop n bytes)))
              (take-add n (m - n) bytes ∙ ap (λ j. take j bytes) all)
          ∙ ap (λ t. some (take m bytes, t)) (drop-add n (m - n) bytes ∙ ap (λ j. drop j bytes) all)
          ∙ sym (available-all m bytes ge)
    ]

-- On a channel whose `recv` delivers a byte at least and no more than it is asked for, and with
-- fuel for every missing byte, the loop ends, and with exactly the bytes that it is to read,
-- whatever the sizes of the deliveries; it fails exactly where fewer bytes come.
pub receive-exact :
    (fuel : ℕ) (ch : Channel) (missing : ℕ) (bytes : List ℕ)
    → Delivers ch
    → missing ≤ fuel
    → receive fuel ch missing bytes
      ≡ (if ltb (length bytes) missing then none else some (take missing bytes, drop missing bytes))
unfolding receive
receive-exact fuel ch zero bytes d h = sym (available-all 0 bytes (omega arith))
receive-exact zero ch (suc missing) bytes d h = absurd (omega arith)
receive-exact (suc fuel) ch (suc missing) [] d h =
    ap
      (λ (chunk : Text). with_chunk chunk (
        receive fuel ch
          (suc missing - length (take {A = ℕ} (ch.delivers [] (min 4096 (suc missing))) []))
          (drop (ch.delivers [] (min 4096 (suc missing))) [])))
      (take-none (ch.delivers [] (min 4096 (suc missing))))
    ∙ unfold with_chunk in sym (available-short (suc missing) [] (omega arith))
receive-exact (suc fuel) ch (suc missing) (b ∷ bytes) d h =
    let asked = min 4096 (suc missing) in
    let n = ch.delivers (b ∷ bytes) asked in
    let pos_n : 0 < n = d.some_byte (b ∷ bytes) asked (omega arith) in
    let le : n ≤ suc missing = omega (arith, d.at_most (b ∷ bytes) asked) in
    let l = length-take n (b ∷ bytes) in
    ap (with_chunk (take n (b ∷ bytes))) (
      receive-exact fuel ch (suc missing - length (take n (b ∷ bytes))) (drop n (b ∷ bytes)) d
        (omega (arith, l)))
    ∙ chunk-available n (suc missing) (b ∷ bytes) pos_n le (omega arith)

abbrev pub NoFeed : Text → Type 0
NoFeed = All (λ c. (c == 10) ≡ false)

read_header-line :
    (h seen : Text) (rest : List ℕ)
    → NoFeed h
    → read_header (h ++ 10 ∷ rest) seen ≡ some ((seen ++ h) ++ 10 ∷ [], rest)
unfolding read_header
read_header-line [] seen rest n = ap (λ t. some (t ++ 10 ∷ [], rest)) (sym (append-nil seen))
read_header-line (c ∷ h) seen rest (nc, n) =
    rw (nc, read_header)
      (read_header-line h (seen ++ c ∷ []) rest n
        ∙ ap (λ t. some (t ++ 10 ∷ [], rest)) (append_assoc seen (c ∷ []) h))

handle_scp_upload-received :
    (ch : Channel) (h : Text) (size : ℤ) (filename : Text) (bytes : List ℕ)
    → NoFeed h
    → parse_header ch (h ++ 10 ∷ []) ≡ copy size filename
    → handle_scp_upload ch (h ++ 10 ∷ bytes)
      ≡ received ch filename (receive (size_of size) ch (size_of size) bytes)
unfolding handle_scp_upload after_header
handle_scp_upload-received ch h size filename bytes n parsed =
    rw (read_header-line h [] bytes n, handle_scp_upload) (rw (parsed, after_header) refl)

-- Where the first line is a header that names a size and a file, as many bytes follow, the file can
-- be written, and `recv` delivers a byte at least and no more than it is asked for: exactly these
-- bytes are saved under the file's name in the upload folder, and three steps are acknowledged.
pub scp_upload_saved :
    (ch : Channel) (h : Text) (size : ℤ) (filename file_bytes : Text) (rest : List ℕ)
    → Delivers ch
    → NoFeed h
    → parse_header ch (h ++ 10 ∷ []) ≡ copy size filename
    → length file_bytes ≡ size_of size
    → ch.takes_file (path_in ch.upload_dir (basename filename)) ≡ true
    → handle_scp_upload ch (h ++ 10 ∷ (file_bytes ++ rest)) ≡ record {
      sent = 0 ∷ 0 ∷ 0 ∷ [];
      saved = some (path_in ch.upload_dir (basename filename), file_bytes);
      logged = if ch.has_session then filename ∷ [] else [];
      ending = uploaded;
    }
unfolding received store_upload
scp_upload_saved ch h size filename file_bytes rest d n parsed len takes =
    let all = length-append file_bytes rest in
    let n' = size_of size in
    handle_scp_upload-received ch h size filename (file_bytes ++ rest) n parsed
    ∙ ap (received ch filename) (
        receive-exact n' ch n' (file_bytes ++ rest) d (omega arith)
        ∙ available-all n' (file_bytes ++ rest) (omega (arith, all, len)))
    ∙ rw takes (
        ap
          (λ t. record {
            sent = 0 ∷ 0 ∷ 0 ∷ [];
            saved = some (path_in ch.upload_dir (basename filename), t);
            logged = if ch.has_session then filename ∷ [] else [];
            ending = uploaded;
          })
          (ap (λ k. take k (file_bytes ++ rest)) (sym len) ∙ take-length file_bytes rest))

-- Where fewer bytes follow than the header names, nothing is saved, and the header is the last
-- thing that is acknowledged; `recv` delivers a byte at least and no more than it is asked for.
pub scp_upload_cut_short :
    (ch : Channel) (h : Text) (size : ℤ) (filename : Text) (bytes : List ℕ)
    → Delivers ch
    → NoFeed h
    → parse_header ch (h ++ 10 ∷ []) ≡ copy size filename
    → length bytes < size_of size
    → handle_scp_upload ch (h ++ 10 ∷ bytes)
      ≡ record { sent = 0 ∷ 0 ∷ []; saved = none; logged = []; ending = aborted }
unfolding received ended
scp_upload_cut_short ch h size filename bytes d n parsed short =
    let n' = size_of size in
    handle_scp_upload-received ch h size filename bytes n parsed
    ∙ ap (received ch filename)
        (receive-exact n' ch n' bytes d (omega arith) ∙ available-short n' bytes short)
