-- ===== src/Ssh/Exec.antt =====
-- `check_channel_exec_request` of src/honeypots/ssh_honeypot.py: one command without a shell.
-- Sending does not fail here.
use honey_mind.Prelude.{
  ℕ, Text, codes, eqb, member, get_or, Bool, true, false, ◌&&◌, List, [], ◌∷◌, ◌++◌, if◌then◌else◌,
  Option, none, some,
}
use honey_mind.FakeFs.Shlex.{shlex_split}
use honey_mind.Ssh.Terminal.{normalize_terminal_output}
use honey_mind.Ssh.Shell.{Backend, clear_screen}

-- what the request does to the channel and to the log
pub data Answer : Type 0 where
  sends : Text → Answer
  logs : (raw response parser_action : Text) → Answer
  exits : ℕ → Answer
  uploads shuts_down : Answer

-- The session, the answers, and what the handler returns; it returns nothing where the action
-- raises an exception that it does not catch.
pub record Request (S : Type 0) : Type 0 where
  pub session : S
  pub answers : List Answer
  pub accepted : Option Bool

is_scp : List Text → Bool
is_scp [] = false
is_scp (command ∷ parts) = eqb command (codes "scp") && member (codes "-t") (command ∷ parts)

unfoldable pub is_scp_upload : Text → Bool
unfolding is_scp
is_scp_upload command_str = is_scp (get_or (shlex_split command_str) [])

-- `payload += "\r\n"` where there is one
unfoldable pub terminated : Text → Text
terminated [] = []
terminated (c ∷ payload) = (c ∷ payload) ++ codes "\r\n"

module _ {S : Type 0} where
  exec_answered : Backend S → Text → S × Option Text → Request S
  exec_answered backend command (session, none) = record {
    session = session;
    answers = [];
    accepted = none;
  }
  exec_answered backend command (session, some output) =
      let (session', parser_action) = backend.pop_parser_action session in
      record {
        session = backend.log_command command output parser_action session';
        answers =
            logs command output parser_action
            ∷ sends (terminated (normalize_terminal_output (some output)))
            ∷ exits 0
            ∷ shuts_down
            ∷ [];
        accepted = some true;
      }

  exec_action : Backend S → Option (Text → S → S × Option Text) → Text → S → Request S
  unfolding exec_answered
  exec_action backend none command session = record {
    session = session;
    answers = sends (codes "Command not available") ∷ exits 1 ∷ shuts_down ∷ [];
    accepted = some false;
  }
  exec_action backend (some query) command session =
      if eqb command (codes "clear")
      then record {
        session = backend.log_command command clear_screen (codes "builtin") session;
        answers =
            logs command clear_screen (codes "builtin")
            ∷ sends clear_screen
            ∷ exits 0
            ∷ shuts_down
            ∷ [];
        accepted = some true;
      }
      else exec_answered backend command (query command session)

  -- the handler, on the decoded and stripped command
  unfoldable pub check_channel_exec_request : Backend S → Text → S → Request S
  unfolding exec_action
  check_channel_exec_request backend command_str session =
      if is_scp_upload command_str
      then record { session = session; answers = uploads ∷ []; accepted = some true }
      else exec_action backend backend.query command_str session
