-- ===== src/EventLog/Logger.antt =====
-- The logging methods of `BaseHoneypot` (src/honeypots/base_honeypot.py): they count what a session
-- does, and the event of its end reports the counts.
pub mod Counts
use honey_mind.Prelude.{
  ℕ, suc, ◌+◌, Text, codes, eqb, Bool, false, ◌||◌, List, [], ◌∷◌, Option, none, some, get_or, ◌≡◌,
  refl, ap, ◌∙◌, arith,
}
use honey_mind.Redis.Integers.{ℤ}
use honey_mind.EventLog.{
  Session, Config, Request, Event, CommandPayload, build_event, event_of, build_command_payload,
  client_identity, difference, next_session_seq, session_timing,
}

-- what the events of an attempt and of an end carry
pub data Payload : Type 0 where
  auth_payload :
      (password : Text) (attempt_number required_attempts : Option ℕ) (success : Bool) → Payload
  end_payload :
      (duration_ms : ℤ) (auth_attempts commands : ℕ) (authenticated : Bool)
      (close_reason : Option Text)
      → Payload

-- the honeypot, the clock, and the identifiers that are drawn
pub record Context : Type 0 where
  pub protocol : Text
  pub config : Config
  pub port : ℕ
  pub now : ℕ
  pub fresh_id : Text
  pub event_id : Text

unfoldable pub request :
    Context
    → Text
    → Option Text
    → Option Text
    → Option Payload
    → Option CommandPayload
    → Option Payload
    → Session
    → Request Payload
request ctx event_type ip username auth command details session = record {
  event_type = event_type;
  service = ctx.protocol;
  config = ctx.config;
  port = some ctx.port;
  client = some (client_identity ip username session);
  auth = auth;
  command = command;
  error = none;
  llm = none;
  details = details;
  timestamp = ctx.now;
  fresh_id = ctx.fresh_id;
  event_id = ctx.event_id;
}

abbrev pub Logged : Type 0
Logged = Option (Session × Event Payload)

unfoldable pub log_session_start : Context → Option Text → Option Text → Session → Logged
unfolding request
log_session_start ctx client_ip username session =
    build_event (request ctx (codes "session_start") client_ip username none none none session)
      session

unfoldable pub end_details : Context → Option Text → Session → Payload
end_details ctx close_reason session =
    end_payload (difference ctx.now (get_or session.session_start_ts ctx.now)) session.auth_attempts
      session.commands session.auth_success close_reason

unfoldable pub log_session_end :
    Context → Option Text → Option Text → Option Text → Session → Logged
unfolding request
log_session_end ctx client_ip username close_reason session =
    build_event
      (request ctx (codes "session_end") client_ip username none none
        (some (end_details ctx close_reason session)) session)
      session

-- an attempt at a login
pub record Attempt : Type 0 where
  pub username : Text
  pub password : Text
  pub client_ip : Option Text
  pub attempt_number : Option ℕ
  pub required_attempts : Option ℕ
  pub success : Bool

unfoldable pub count_attempt : Attempt → Session → Session
count_attempt a session = record session {
  username = some a.username;
  client_ip = a.client_ip;
  auth_attempts = session.auth_attempts + 1;
  auth_success = session.auth_success || a.success;
}

unfoldable pub log_auth_attempt : Context → Attempt → Session → Logged
unfolding request
log_auth_attempt ctx a session =
    let counted = count_attempt a session in
    build_event
      (request ctx (codes "auth_attempt") a.client_ip (some a.username)
        (some (auth_payload a.password a.attempt_number a.required_attempts a.success)) none none
        counted)
      counted

unfoldable pub log_command :
    Context → Text → Option Text → Text → Option ℕ → Option Text → Option Text → Session → Logged
unfolding request
log_command ctx raw response parser_action exit_code client_ip username session =
    let counted = record session { commands = session.commands + 1 } in
    build_event
      (request ctx (codes "command") client_ip username none
        (some (build_command_payload raw none parser_action exit_code response)) none counted)
      counted

-- a call of one of the methods
pub data Call : Type 0 where
  starts : (client_ip username : Option Text) → Call
  attempts : Attempt → Call
  commands :
      (raw : Text) (response : Option Text) (parser_action : Text) (exit_code : Option ℕ)
      → (client_ip username : Option Text) → Call

unfoldable pub call : Context → Call → Session → Logged
call ctx (starts client_ip username) session = log_session_start ctx client_ip username session
call ctx (attempts a) session = log_auth_attempt ctx a session
call ctx (commands raw response parser_action exit_code client_ip username) session =
    log_command ctx raw response parser_action exit_code client_ip username session

unfoldable pub left_by : Session → Logged → Session
left_by session none = session
left_by session (some (session', e)) = session'

-- the session behind a run of calls
unfoldable pub session_after : List (Context × Call) → Session → Session
unfolding left_by
session_after [] session = session
session_after ((ctx, c) ∷ calls) session =
    session_after calls (left_by session (call ctx c session))
