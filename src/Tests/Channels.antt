-- ===== src/Tests/Channels.antt =====
-- Runs of what a client types and sends over SSH (src/honeypots/ssh_honeypot.py).
use honey_mind.Prelude.{
  ℕ, suc, ◌<◌, Text, codes, strip, eqb, length, take, ltb, min, Bool, true, false, All, List, [],
  ◌∷◌, ◌++◌, if◌then◌else◌, Option, none, some, ◌≡◌, refl, arith,
}
use honey_mind.Redis.Integers.{ℤ, pos}
use honey_mind.FakeFs.Nodes.{basename}
use honey_mind.EventLog.{Session, new_session}
use honey_mind.EventLog.Logger.{Context, log_command, left_by}
use honey_mind.Ssh.Shell.{Backend, new_line, read_line, before, handle_shell}
use honey_mind.Ssh.Shell.Typing.{
  IsPlain, echo, erasing, erased, typed_and_erased, keys_of, run_lines, typed_lines,
}
use honey_mind.Ssh.Upload.{
  Channel, Transfer, uploaded, receive, parse_header, copy, path_in, handle_scp_upload, size_of,
}
use honey_mind.Ssh.Upload.Received.{Delivers, NoFeed, receive-exact, scp_upload_saved}
use honey_mind.Ssh.Upload.Inside.{IsInside, scp_upload-IsInside}

-- the definitions that the runs below compute with
program : Unit {0}
unfolding honey_mind.Ssh.Terminal.join_crlf honey_mind.Ssh.Terminal.feed_lines
    honey_mind.Ssh.Terminal.return_lines honey_mind.Ssh.Terminal.normalize_terminal_output
    honey_mind.Ssh.Shell.decoded honey_mind.Ssh.Shell.is_arrow honey_mind.Ssh.Shell.escape_char
    honey_mind.Ssh.Shell.backspace honey_mind.Ssh.Shell.plain_char honey_mind.Ssh.Shell.type_char
    honey_mind.Ssh.Shell.is_leaving honey_mind.Ssh.Shell.shown honey_mind.Ssh.Shell.answered
    honey_mind.Ssh.Shell.run_action honey_mind.Ssh.Shell.run_line honey_mind.Ssh.Shell.read_line
    honey_mind.Ssh.Shell.handle_shell honey_mind.Ssh.Exec.is_scp_upload
    honey_mind.Ssh.Exec.terminated honey_mind.Ssh.Exec.check_channel_exec_request
    honey_mind.Ssh.Upload.read_header honey_mind.Ssh.Upload.parse_header
    honey_mind.Ssh.Upload.receive honey_mind.Ssh.Upload.path_in
    honey_mind.Ssh.Upload.handle_scp_upload honey_mind.FakeFs.Shlex.shlex_split
    honey_mind.FakeFs.Shlex.parts_of honey_mind.FakeFs.Shlex.primary_command_name
    honey_mind.FakeFs.Nodes.basename honey_mind.FakeFs.Nodes.dirname_head
    honey_mind.FakeFs.Nodes.dirname honey_mind.FakeFs.Nodes.or_root
    honey_mind.FakeFs.Nodes.parent_of honey_mind.FakeFs.Nodes.get_node
    honey_mind.FakeFs.Nodes.has_parent honey_mind.FakeFs.Nodes.list_dir
    honey_mind.FakeFs.Nodes.list_subtree honey_mind.FakeFs.Nodes.replace
    honey_mind.FakeFs.Nodes.node_size honey_mind.FakeFs.Nodes.upsert_node
    honey_mind.FakeFs.Nodes.dir_node honey_mind.FakeFs.Nodes.mkdir honey_mind.FakeFs.Nodes.file_node
    honey_mind.FakeFs.Nodes.write_file honey_mind.FakeFs.Nodes.with_root
    honey_mind.FakeFs.Nodes.expected honey_mind.FakeFs.Nodes.resolve_path
    honey_mind.Redis.Integers.show_int honey_mind.Redis.Integers.int honey_mind.Prelude.eqb
    honey_mind.Prelude.starts_with honey_mind.Prelude.ends_with honey_mind.Prelude.contains
    honey_mind.Prelude.is_space honey_mind.Prelude.to_lower honey_mind.Prelude.to_upper
    honey_mind.Prelude.lower honey_mind.Prelude.upper honey_mind.Prelude.join
    honey_mind.Prelude.split_from honey_mind.Prelude.split honey_mind.Prelude.show
    honey_mind.Prelude.is_line_break honey_mind.Prelude.split_lines honey_mind.Prelude.pad_to
    honey_mind.Prelude.pad_left honey_mind.Prelude.drop_while honey_mind.Prelude.rstrip_cons
    honey_mind.Prelude.rstrip_by honey_mind.Prelude.strip_by honey_mind.Prelude.strip
    honey_mind.Prelude.strip_char honey_mind.Prelude.rstrip_char honey_mind.Prelude.words
    honey_mind.Prelude.span honey_mind.Prelude.path_parts honey_mind.Prelude.path_name
program = tt

-- a session with its log, and an action that answers with the command or raises
abbrev ctx : Context
ctx = record {
  protocol = codes "ssh";
  config = record {
    name = none;
    honeypot_name = none;
    profile = none;
    type_name = none;
    config_port = none;
  };
  port = 22;
  now = 1;
  fresh_id = codes "f";
  event_id = codes "e";
}

abbrev backend : Backend Session
backend = record {
  query = some (λ command session.
      (session, if eqb command (codes "crash") then none else some (command ++ codes "\n")));
  pop_parser_action = λ session. (session, codes "filesystem");
  log_command = λ raw response parser_action session.
      left_by session
        (log_command ctx raw (some response) parser_action (some 0) none none session);
}

abbrev session : Session
session = new_session (codes "s") 0 (codes "10.0.0.1")

abbrev prompt : Session → Text
prompt s = codes "$ "

IsPlain-ls : All IsPlain (codes "ls")
IsPlain-ls = ((refl, refl, refl, refl, refl), ((refl, refl, refl, refl, refl), tt))

IsPlain-exit : All IsPlain (codes "exit")
IsPlain-exit = (
  (refl, refl, refl, refl, refl),
  (
    (refl, refl, refl, refl, refl),
    ((refl, refl, refl, refl, refl), ((refl, refl, refl, refl, refl), tt)),
  ),
)

typed_and_erased_example :
    read_line backend prompt
      (codes "ls" ++ (erasing (codes "ls") ++ 13 ∷ []))
      (record { buffer = codes "id"; escape_seq = [] })
      session
    ≡ before (echo (codes "ls") ++ erased (codes "ls")) (
        read_line backend prompt
          (13 ∷ [])
          (record { buffer = codes "id"; escape_seq = [] })
          session)
typed_and_erased_example =
    typed_and_erased backend prompt session (codes "ls") (codes "id") (13 ∷ []) IsPlain-ls

typed_lines_example :
    read_line backend prompt
      (keys_of (codes "ls" ∷ codes "exit" ∷ codes "ls" ∷ []))
      new_line
      session
    ≡ run_lines backend prompt (codes "ls" ∷ codes "exit" ∷ codes "ls" ∷ []) session
typed_lines_example =
    typed_lines backend prompt (codes "ls" ∷ codes "exit" ∷ codes "ls" ∷ []) session
      (IsPlain-ls, (IsPlain-exit, (IsPlain-ls, tt)))

-- a channel that delivers at most two bytes at once
abbrev slow : Channel
slow = record {
  delivers = λ bytes n. min 2 n;
  decode = λ t. some t;
  upload_dir = codes "/data/uploads";
  takes_file = λ path. true;
  has_session = true;
}

slow-Delivers : Delivers slow
slow-Delivers = record { some_byte = λ bytes n h. omega arith; at_most = λ bytes n. omega arith }

receive-exact_example :
    receive 9 slow 3 (codes "abcde")
    ≡ (if ltb (length (codes "abcde")) 3 then none else some (take 3 (codes "abcde"), codes "de"))
receive-exact_example = receive-exact 9 slow 3 (codes "abcde") slow-Delivers (omega arith)

header_parsed :
    parse_header slow (codes "C0644 5 ../x.sh" ++ 10 ∷ []) ≡ copy (pos 5) (codes "../x.sh")
unfolding program
header_parsed = refl

header-NoFeed : NoFeed (codes "C0644 5 ../x.sh")
header-NoFeed = (
  refl,
  (
    refl,
    (
      refl,
      (
        refl,
        (refl, (refl, (refl, (refl, (refl, (refl, (refl, (refl, (refl, (refl, (refl, tt))))))))))),
      ),
    ),
  ),
)

scp_upload_saved_example :
    handle_scp_upload slow (codes "C0644 5 ../x.sh" ++ 10 ∷ (codes "hello" ++ 0 ∷ [])) ≡ record {
      sent = 0 ∷ 0 ∷ 0 ∷ [];
      saved = some (path_in (codes "/data/uploads") (basename (codes "../x.sh")), codes "hello");
      logged = codes "../x.sh" ∷ [];
      ending = uploaded;
    }
scp_upload_saved_example =
    scp_upload_saved slow (codes "C0644 5 ../x.sh") (pos 5) (codes "../x.sh") (codes "hello")
      (0 ∷ []) slow-Delivers header-NoFeed header_parsed refl refl

scp_upload-IsInside_example :
    IsInside slow (handle_scp_upload slow (codes "C0644 1 ../../etc/cron\nx")).saved
scp_upload-IsInside_example = scp_upload-IsInside slow (codes "C0644 1 ../../etc/cron\nx")
