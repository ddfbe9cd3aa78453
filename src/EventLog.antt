-- ===== src/EventLog.antt =====
-- The events of a session: src/logging_pipeline/canonical_log_utils.py, with `HoneypotSession` of
-- src/honeypots/base_honeypot.py. The clock is an argument, in milliseconds, and so are the
-- identifiers that `uuid` draws.
pub mod Runs
pub mod Sequence
pub mod Times
pub mod Logger
use honey_mind.Prelude.{
  ℕ, suc, ◌+◌, ◌-◌, Text, codes, member, leb, is_some, or_else, Bool, true, false, not, List, [],
  ◌∷◌, ◌++◌, if◌then◌else◌, Option, none, some, get_or,
}
use honey_mind.Normalizer.{normalize_command_input}
use honey_mind.Redis.Integers.{ℤ, pos, negsuc}

-- the entries of a session that its events read and write
pub record Session : Type 0 where
  pub session_id : Option Text
  pub seq : ℕ
  pub session_start_ts : Option ℕ
  pub last_event_ts : Option ℕ
  pub client_ip : Option Text
  pub username : Option Text
  pub auth_attempts : ℕ
  pub auth_success : Bool
  pub commands : ℕ

-- `HoneypotSession({"client_ip": ip})`
unfoldable pub new_session : Text → ℕ → Text → Session
new_session id now ip = record {
  session_id = some id;
  seq = 0;
  session_start_ts = some now;
  last_event_ts = none;
  client_ip = some ip;
  username = none;
  auth_attempts = 0;
  auth_success = false;
  commands = 0;
}

pub record Config : Type 0 where
  pub name : Option Text
  pub honeypot_name : Option Text
  pub profile : Option Text
  pub type_name : Option Text
  pub config_port : Option ℕ

pub record Honeypot : Type 0 where
  pub name : Option Text
  pub profile : Option Text
  pub port : Option ℕ

pub record Client : Type 0 where
  pub ip : Option Text
  pub username : Option Text

pub record Timing : Type 0 where
  pub since_session_start_ms : ℤ
  pub since_previous_event_ms : Option ℤ

pub record CommandPayload : Type 0 where
  pub raw : Text
  pub normalized : Text
  pub parser_action : Text
  pub exit_code : Option ℕ
  pub response : Text

-- `x or y` on texts: an empty one counts as none
unfoldable pub text_or : Option Text → Option Text → Option Text
text_or none other = other
text_or (some []) other = other
text_or (some (c ∷ t)) other = some (c ∷ t)

unfoldable pub honeypot_identity : Config → Option ℕ → Honeypot
unfolding text_or
honeypot_identity config port = record {
  name = text_or config.name config.honeypot_name;
  profile = text_or config.profile (text_or config.type_name config.name);
  port = or_else port config.config_port;
}

unfoldable pub client_identity : Option Text → Option Text → Session → Client
client_identity ip username session = record {
  ip = or_else ip session.client_ip;
  username = or_else username session.username;
}

unfoldable pub next_session_seq : Session → Session × ℕ
next_session_seq session = (record session { seq = suc session.seq }, suc session.seq)

-- `int(a - b)`
unfoldable pub difference : ℕ → ℕ → ℤ
difference a b = if leb b a then pos (a - b) else negsuc (b - a - 1)

unfoldable pub since : ℕ → Option ℕ → Option ℤ
since now none = none
since now (some before) = some (difference now before)

unfoldable pub session_timing : Session → ℕ → Session × Timing
unfolding difference since
session_timing session now_ms =
    let start_ms = get_or session.session_start_ts now_ms in
    (
      record session { session_start_ts = some start_ms; last_event_ts = some now_ms },
      record {
        since_session_start_ms = difference now_ms start_ms;
        since_previous_event_ms = since now_ms session.last_event_ts;
      },
    )

abbrev pub event_types : List Text
event_types =
    codes "auth_attempt"
    ∷ codes "auth_success"
    ∷ codes "auth_failure"
    ∷ codes "command"
    ∷ codes "session_start"
    ∷ codes "session_end"
    ∷ codes "error"
    ∷ codes "llm_response"
    ∷ []

-- What `build_event` is given beside the session; `J` is the type of the payloads that it passes
-- on. `fresh_id` and `event_id` are the identifiers that are drawn.
pub record Request (J : Type 0) : Type 0 where
  pub event_type : Text
  pub service : Text
  pub config : Config
  pub port : Option ℕ
  pub client : Option Client
  pub auth : Option J
  pub command : Option CommandPayload
  pub error : Option J
  pub llm : Option J
  pub details : Option J
  pub timestamp : ℕ
  pub fresh_id : Text
  pub event_id : Text

pub record Event (J : Type 0) : Type 0 where
  pub schema_version : ℕ
  pub timestamp : ℕ
  pub event_id : Text
  pub session_id : Text
  pub seq : ℕ
  pub event_type : Text
  pub service : Text
  pub honeypot : Honeypot
  pub client : Client
  pub timing : Timing
  pub client_ip : Option Text
  pub username : Option Text
  pub command_raw : Option Text
  pub auth : Option J
  pub command : Option CommandPayload
  pub error : Option J
  pub llm : Option J
  pub details : Option J

flat_ip : Option Client → Option Text
flat_ip none = none
flat_ip (some c) = c.ip

flat_username : Option Client → Option Text
flat_username none = none
flat_username (some c) = c.username

raw_of : Option CommandPayload → Option Text
raw_of none = none
raw_of (some c) = some c.raw

module _ {J : Type 0} where
  -- the event and the session behind it, for a known type
  unfoldable pub event_of : Request J → Session → Session × Event J
  unfolding flat_ip flat_username raw_of
  event_of r session =
      let id = get_or session.session_id r.fresh_id in
      let (counted, seq) = next_session_seq (record session { session_id = some id }) in
      let (timed, timing) = session_timing counted r.timestamp in
      (
        timed,
        record {
          schema_version = 1;
          timestamp = r.timestamp;
          event_id = r.event_id;
          session_id = id;
          seq = seq;
          event_type = r.event_type;
          service = r.service;
          honeypot = honeypot_identity r.config r.port;
          client = get_or r.client (client_identity none none counted);
          timing = timing;
          client_ip = flat_ip r.client;
          username = flat_username r.client;
          command_raw = raw_of r.command;
          auth = r.auth;
          command = r.command;
          error = r.error;
          llm = r.llm;
          details = r.details;
        },
      )

  -- `build_event`; nothing is the ValueError of an unknown type
  unfoldable pub build_event : Request J → Session → Option (Session × Event J)
  build_event r session =
      if member r.event_type event_types then some (event_of r session) else none

-- `build_command_payload`, with no response as the empty text
unfoldable pub build_command_payload :
    Text → Option Text → Text → Option ℕ → Option Text → CommandPayload
build_command_payload raw normalized parser_action exit_code response = record {
  raw = raw;
  normalized = get_or normalized (normalize_command_input raw);
  parser_action = parser_action;
  exit_code = exit_code;
  response = get_or response [];
}
