-- ===== src/FakeFs/Query.antt =====
-- `FakeFSDataHandler.query` and `_handle_filesystem_command` of src/infra/fake_fs_data_handler.py,
-- with the whole of `handle_download` (src/infra/fake_fs/commands.py).
pub mod Keeps
pub mod Download
use honey_mind.Prelude.{
  ℕ, Text, codes, eqb, member, contains, lower, join, keep, last?, drop, length, leb, words, strip,
  split, get_elem?, get_or, starts_with, space, Bool, true, false, not, ◌||◌, ◌&&◌, List, [], ◌∷◌,
  ◌++◌, if◌then◌else◌, Option, none, some, rstrip_by, ◌==◌,
}
use honey_mind.Normalizer.{normalize_command_input}
use honey_mind.FakeFs.Paths.{slash, normalize_path}
use honey_mind.FakeFs.Nodes.{Node, Table, PathLibrary}
use honey_mind.FakeFs.Commands.{
  Shell, handle_ls, handle_cd, handle_mkdir, download_name, record_download,
}
use honey_mind.FakeFs.Arguments.{is_redirection_token, is_option}
use honey_mind.FakeFs.Reader.{handle_file_reader}
use honey_mind.FakeFs.Search.{handle_find, handle_grep}
use honey_mind.FakeFs.Shlex.{parts_of, primary_command_name}
use honey_mind.FakeFs.System.{System}
use honey_mind.FakeFs.Artifacts.{handle_system_artifacts}

-- a decoded line of the data file
pub record Entry : Type 0 where
  pub command : Option Text
  pub input : Option Text
  pub response : Option Text

-- What the handler is given: the machine, the data file where it exists, libraries, and whether the
-- download folder takes a file of a name.
pub record Env : Type 0 where
  pub system : System
  pub data_file : Option (List Entry)
  pub lib : PathLibrary
  pub like : Text → Text → Bool
  pub fnmatch : Text → Text → Bool
  pub format_ls_l : Node → Text
  pub takes_file : Text → Bool

-- the time of a query, in seconds and as text
pub record Clock : Type 0 where
  pub seconds : ℕ
  pub spelled : Text

-- `session["_last_parser_action"]`
pub data ParserAction : Type 0 where
  hardcoded filesystem builtin blocked unhandled : ParserAction

-- what a handler does: it raises, leaves the query to the next handler, or replies
pub data Reply : Type 0 where
  raised : Reply
  left : Reply
  replied : ParserAction → Text → Reply

is_named : Text → Option Text → Bool
is_named input none = false
is_named input (some t) = eqb t input

-- `query_from_file`
unfoldable pub query_from_file : Text → List Entry → Option Text
unfolding is_named
query_from_file input_str [] = none
query_from_file input_str (entry ∷ entries) =
    if is_named input_str entry.command || is_named input_str entry.input
    then some (get_or entry.response [])
    else query_from_file input_str entries

-- `url.split("/")[2]`, where there is one
unfoldable pub url_host : Text → Option Text
url_host url = get_elem? (split slash url) 2

pub download_text : Clock → Text → Text → Text → Text
download_text clock url host filename =
    codes "--"
    ++ clock.spelled
    ++ codes "--  "
    ++ url
    ++ codes "\n"
    ++ codes "Resolving "
    ++ host
    ++ codes "... done.\r\n"
    ++ codes "Connecting to "
    ++ host
    ++ codes "|192.0.2.1|:80... connected.\r\n"
    ++ codes "HTTP request sent, awaiting response... 200 OK\r\n"
    ++ codes "Length: 1234 [text/x-shellscript]\r\n"
    ++ codes "Saving to: ‘"
    ++ filename
    ++ codes "’\r\n\n"
    ++ filename
    ++ codes "              100%[1234/1234]   1.21K/s   in 0.01s\r\n\n"
    ++ clock.spelled
    ++ codes " (1.21 KB/s) - ‘"
    ++ filename
    ++ codes "’ saved [1234/1234]"

-- the end of `handle_download`: a folder that does not take the file, or a URL without a host,
-- raises
unfoldable pub download_reply : Env → Clock → Text → Reply
unfolding download_text
download_reply env clock url =
    if env.takes_file (download_name url)
    then elim (url_host url) [
      | none ↦ raised
      | some host ↦ replied builtin (download_text clock url host (download_name url))
    ]
    else raised

unfoldable pub handle_download : Env → Clock → Shell → Text → Shell × Reply
unfolding download_reply
handle_download env clock s url =
    (record_download s url clock.seconds, download_reply env clock url)

in_filesystem : Option Text → Reply
in_filesystem none = left
in_filesystem (some output) = replied filesystem output

-- a `mkdir` whose insertion raises leaves the shell as it was
pub in_mkdir : Shell → Option (Shell × Text) → Shell × Reply
in_mkdir s none = (s, raised)
in_mkdir s (some (s', output)) = (s', replied filesystem output)

ls_flags : List Text → Text
ls_flags tokens = join (space ∷ []) (keep is_option tokens)

ls_path : List Text → Option Text
ls_path tokens = last? (keep (λ t. not (is_option t) && not (is_redirection_token t)) tokens)

-- the commands, by the tests on the first word
pub data Command : Type 0 where
  ls cd mkdir_of find grep download none_of : Command
  read : Text → Command

unfoldable pub command_of : Text → Text → Command
command_of query command =
    if eqb command (codes "ls")
    then ls
    else if eqb command (codes "cd")
    then cd
    else if eqb command (codes "mkdir")
    then mkdir_of
    else if member command
        (codes "cat" ∷ codes "head" ∷ codes "tail" ∷ codes "stat" ∷ codes "file" ∷ [])
    then read command
    else if eqb command (codes "find")
    then find
    else if eqb command (codes "grep")
    then grep
    else if contains (lower query) (codes "wget") || contains (lower query) (codes "curl")
    then download
    else none_of

run_download : Env → Clock → Shell → List Text → Shell × Reply
run_download env clock s tokens =
    if leb 2 (length tokens)
    then handle_download env clock s (get_or (last? tokens) [])
    else (s, replied blocked (codes "Usage: wget <url> or curl <url>"))

-- the branch of each command, on the tokens behind it
unfoldable pub run_command : Env → Clock → Shell → Text → Command → List Text → Shell × Reply
unfolding run_download in_filesystem in_mkdir ls_flags ls_path
run_command env clock s query ls tokens =
    (s, replied filesystem (handle_ls env.lib env.format_ls_l s (ls_flags tokens) (ls_path tokens)))
run_command env clock s query cd [] = (s, replied blocked (codes "Usage: cd <dir>"))
run_command env clock s query cd (token ∷ tokens) =
    let (s', output) = handle_cd env.lib s (join (space ∷ []) (token ∷ tokens)) in
    (s', replied filesystem output)
run_command env clock s query mkdir_of [] = (s, replied blocked (codes "Usage: mkdir <dir>"))
run_command env clock s query mkdir_of (token ∷ tokens) =
    in_mkdir s (handle_mkdir env.lib s token clock.seconds)
run_command env clock s query (read command) tokens =
    (s, in_filesystem (handle_file_reader env.lib s command tokens))
run_command env clock s query find tokens =
    (s, in_filesystem (handle_find env.lib env.like env.fnmatch s tokens))
run_command env clock s query grep tokens =
    (s, in_filesystem (handle_grep env.lib env.like env.fnmatch s tokens))
run_command env clock s query download tokens = run_download env clock s (words query)
run_command env clock s query none_of tokens = (s, left)

-- `_handle_filesystem_command`, on the words of the query
unfoldable pub run_parts : Env → Clock → Shell → Text → List Text → Shell × Reply
run_parts env clock s query [] = (s, left)
run_parts env clock s query (command ∷ tokens) =
    run_command env clock s query (command_of query command) tokens

-- `_strip_terminal_trailing_newlines`
unfoldable pub strip_newlines : Reply → Reply
strip_newlines (replied action output) =
    replied action (rstrip_by (λ c. (c == 13) || (c == 10)) output)
strip_newlines left = left
strip_newlines raised = raised

unfoldable pub file_answer : Env → Text → Option Text
file_answer env query =
    if eqb (primary_command_name query) (codes "uname")
    then none
    else elim env.data_file [ none ↦ none | some entries ↦ query_from_file query entries ]

-- The data file, then the machine, then the file system, in this order. A session always has one.
unfoldable pub query_normalized : Env → Clock → Shell → Text → Shell × Reply
query_normalized env clock s query = elim (file_answer env query) [
  | some response ↦ (s, replied hardcoded response)
  | none ↦ elim (handle_system_artifacts env.system s.cwd query) [
    | some response ↦ (s, strip_newlines (replied hardcoded response))
    | none ↦
        let (s', reply) = run_parts env clock s query (parts_of query) in (s', strip_newlines reply)
  ]
]

-- `query`
unfoldable pub query : Env → Clock → Shell → Text → Shell × Reply
unfolding query_normalized
query env clock s raw = query_normalized env clock s (normalize_command_input raw)
