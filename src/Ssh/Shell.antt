-- ===== src/Ssh/Shell.antt =====
-- `handle_shell` of src/honeypots/ssh_honeypot.py: the line editor, fed one byte at a time, and the
-- commands that it hands to the action behind the honeypot. Sending and logging do not fail here.
pub mod Typing
pub mod Session
use honey_mind.Prelude.{
  ℕ, ◌-◌, Text, codes, eqb, member, lower, strip, take, length, ltb, Bool, true, false, not, ◌&&◌,
  ◌||◌, ◌==◌, List, [], ◌∷◌, ◌++◌, if◌then◌else◌, Option, none, some,
}
use honey_mind.Ssh.Terminal.{normalize_terminal_output}

-- What the shell works with, on its session: the query of the action behind the honeypot, if there
-- is one, which leaves a session also where it raises; the parser action, which the caller takes
-- out of the session; and what `log_command` changes of the session when it logs a command.
pub record Backend (S : Type 0) : Type 1 where
  pub query : Option (Text → S → S × Option Text)
  pub pop_parser_action : S → S × Text
  pub log_command : (raw response parser_action : Text) → S → S

-- what happens on the channel and in the log
pub data Event : Type 0 where
  sent : Text → Event
  logged : (raw response parser_action : Text) → Event
  closed : Event

-- the line that is being typed
pub record Editor : Type 0 where
  pub buffer : Text
  pub escape_seq : Text

abbrev pub new_line : Editor
new_line = record { buffer = []; escape_seq = [] }

-- `data.decode("utf-8", errors="ignore")` for one byte
unfoldable pub decoded : ℕ → Text
decoded byte = if ltb byte 128 then byte ∷ [] else []

abbrev pub clear_screen : Text
clear_screen = 27 ∷ codes "[2J" ++ 27 ∷ codes "[H"

-- the arrow keys
unfoldable pub is_arrow : Text → Bool
is_arrow seq =
    member seq ((27 ∷ codes "[A") ∷ (27 ∷ codes "[B") ∷ (27 ∷ codes "[C") ∷ (27 ∷ codes "[D") ∷ [])

-- a character behind an escape
unfoldable pub escape_char : Editor → Text → Editor × List Event
unfolding is_arrow
escape_char e char =
    let seq = e.escape_seq ++ char in
    if (length seq == 2) && not (eqb char (codes "["))
    then (record e { escape_seq = [] }, sent seq ∷ [])
    else if length seq == 3
    then (record e { escape_seq = [] }, (if is_arrow seq then [] else sent seq ∷ []))
    else (record e { escape_seq = seq }, [])

-- `buffer[:-1]` and the erasure, where there is something to erase
unfoldable pub backspace : Editor → Editor × List Event
backspace e =
    if eqb e.buffer []
    then (e, [])
    else (record e { buffer = take (length e.buffer - 1) e.buffer }, sent (8 ∷ 32 ∷ 8 ∷ []) ∷ [])

abbrev pub ends_line : Text → Bool
ends_line char = eqb char (13 ∷ []) || eqb char (10 ∷ [])

-- a character that ends no line
unfoldable pub plain_char : Editor → Text → Editor × List Event
unfolding backspace
plain_char e char =
    if eqb char (127 ∷ [])
    then backspace e
    else (record e { buffer = e.buffer ++ char }, sent char ∷ [])

-- what a character does: the line goes on, or it ends
pub data Typed : Type 0 where
  going_on : Editor → List Event → Typed
  entered : Text → Typed

go_on : Editor × List Event → Typed
go_on (e, events) = going_on e events

-- one round of the inner loop, behind the read
unfoldable pub type_char : Editor → Text → Typed
unfolding escape_char plain_char go_on
type_char e char =
    if eqb char (27 ∷ [])
    then going_on (record e { escape_seq = char }) []
    else if not (eqb e.escape_seq [])
    then go_on (escape_char e char)
    else if ends_line char
    then entered e.buffer
    else go_on (plain_char e char)

unfoldable pub is_leaving : Text → Bool
is_leaving command = member (lower command) (codes "exit" ∷ codes "quit" ∷ codes "logout" ∷ [])

unfoldable pub shown : Text → Text
shown [] = codes "\r\n"
shown (c ∷ payload) = codes "\r\n" ++ (c ∷ payload) ++ codes "\r\n"

-- what a command leaves: the session, what happened, and whether the shell reads on
pub record Ran (S : Type 0) : Type 0 where
  pub session : S
  pub events : List Event
  pub reads_on : Bool

module _ {S : Type 0} where
  unfoldable pub answered : Backend S → Text → S × Option Text → Ran S
  answered backend command (session, none) = record {
    session = session;
    events = [];
    reads_on = false;
  }
  answered backend command (session, some output) =
      let (session', parser_action) = backend.pop_parser_action session in
      record {
        session = backend.log_command command output parser_action session';
        events =
            logged command output parser_action
            ∷ sent (shown (normalize_terminal_output (some output)))
            ∷ [];
        reads_on = true;
      }

  unfoldable pub run_action : Backend S → Option (Text → S → S × Option Text) → Text → S → Ran S
  unfolding answered
  run_action backend none command session = record {
    session = session;
    events = sent (codes "\r\nCommand not available\r\n") ∷ [];
    reads_on = true;
  }
  run_action backend (some query) command session = answered backend command (query command session)

  -- the outer loop's body, behind the line
  unfoldable pub run_line : Backend S → Text → S → Ran S
  unfolding run_action shown
  run_line backend line session =
      let command = strip line in
      if eqb command []
      then record { session = session; events = sent (codes "\r\n") ∷ []; reads_on = true }
      else if is_leaving command
      then record {
        session = session;
        events = sent (codes "\r\nConnection closed.\r\n") ∷ [];
        reads_on = false;
      }
      else if eqb command (codes "clear")
      then record {
        session = backend.log_command command [] (codes "builtin") session;
        events = logged command [] (codes "builtin") ∷ sent clear_screen ∷ [];
        reads_on = true;
      }
      else run_action backend backend.query command session

  -- what happens first, in front of the rest
  abbrev pub before : List Event → S × List Event → S × List Event
  before events (session, more) = (session, events ++ more)

  -- The loops, on the bytes that are still to come; at their end `recv` returns nothing. The prompt
  -- is a parameter, since it reads the configuration too.
  module _ (backend : Backend S) (prompt : S → Text) where
    unfoldable pub read_line : List ℕ → Editor → S → S × List Event
    read_line [] e session = (session, closed ∷ [])
    read_line (byte ∷ bytes) e session = elim (type_char e (decoded byte)) [
      | going_on e' events ↦ before events (read_line bytes e' session)
      | entered line ↦
          let ran = run_line backend line session in
          elim ran.reads_on [
            | true ↦
                before (ran.events ++ sent (prompt ran.session) ∷ [])
                  (read_line bytes new_line ran.session)
            | false ↦ (ran.session, ran.events ++ closed ∷ [])
          ]
    ]

    -- `handle_shell`
    unfoldable pub handle_shell : List ℕ → S → S × List Event
    handle_shell bytes session =
        before (sent (prompt session) ∷ []) (read_line bytes new_line session)
