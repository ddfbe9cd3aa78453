-- ===== src/Tests/Sessions.antt =====
-- Runs of the event log (src/logging_pipeline/canonical_log_utils.py and
-- src/honeypots/base_honeypot.py), of a Redis connection (src/honeypots/redis_honeypot.py), and of
-- the fingerprint (src/analysis/session_fingerprint.py).
use honey_mind.Prelude.{
  ℕ, suc, ◌+◌, ◌-◌, ◌≤◌, Text, codes, words, upper, length, lookup, Bool, true, false, ◌||◌, All,
  List, [], ◌∷◌, Option, none, some, ◌≡◌, refl, arith, Dict,
}
use honey_mind.Password.{default_config, init}
use honey_mind.Redis.Integers.{ℤ, pos}
use honey_mind.Redis.Framing.{fallback}
use honey_mind.Redis.Commands.{World, process_command, database}
use honey_mind.Redis.Databases.{found_reply}
use honey_mind.Redis.Refinement.{
  Client, Shows, process_all, act_all, process_all-Shows, process_all-get,
}
use honey_mind.EventLog.{Session, Config, Request, new_session}
use honey_mind.EventLog.Runs.{Step, builds, takes_over, events_of}
use honey_mind.EventLog.Sequence.{numbers, count_from, events_of-numbers}
use honey_mind.EventLog.Times.{Until, Onwards, IsTimed, events_of-IsTimed}
use honey_mind.EventLog.Logger.{
  Context, Attempt, Call, attempts, commands, Payload, end_payload, session_after, log_session_end,
}
use honey_mind.EventLog.Logger.Counts.{attempts_in, commands_in, success_in, session_end-counts}
use honey_mind.Ssh.Login.{Server, Outside, IsLogged, check_all, check_all-IsLogged}
use honey_mind.Analysis.Condenser.{condense_commands}
use honey_mind.Analysis.Condenser.Counts.{
  occurrences, times_of, entries_of, times-condense_commands,
}
use honey_mind.Analysis.Fingerprint.{match_sequence, register_sequence}
use honey_mind.Analysis.Fingerprint.Register.{IsOther, register_all, match-register_all}

-- the definitions that the runs below compute with
program : Unit {0}
unfolding honey_mind.Redis.Framing.bulk honey_mind.Redis.Framing.extract_command
    honey_mind.Redis.Framing.fallback honey_mind.Redis.Commands.database
    honey_mind.Redis.Commands.set_database honey_mind.Redis.Commands.verb_of
    honey_mind.Redis.Commands.delete_keys honey_mind.Redis.Commands.with_database
    honey_mind.Redis.Commands.run_auth honey_mind.Redis.Commands.run_select
    honey_mind.Redis.Commands.run_get honey_mind.Redis.Commands.run_del
    honey_mind.Redis.Commands.run honey_mind.Redis.Commands.process_words
    honey_mind.Redis.Commands.process_command honey_mind.Redis.Integers.show_int
    honey_mind.Redis.Integers.int honey_mind.Redis.Databases.found_reply
    honey_mind.Redis.Databases.get_reply honey_mind.Redis.Refinement.act
    honey_mind.Redis.Refinement.act_words honey_mind.Redis.Refinement.process_all
    honey_mind.Redis.Refinement.act_all honey_mind.EventLog.new_session honey_mind.EventLog.text_or
    honey_mind.EventLog.honeypot_identity honey_mind.EventLog.client_identity
    honey_mind.EventLog.next_session_seq honey_mind.EventLog.difference honey_mind.EventLog.since
    honey_mind.EventLog.session_timing honey_mind.EventLog.event_of honey_mind.EventLog.build_event
    honey_mind.EventLog.build_command_payload honey_mind.EventLog.Runs.take_over
    honey_mind.EventLog.Runs.take_step honey_mind.EventLog.Runs.events_of
    honey_mind.EventLog.Logger.log_session_start honey_mind.EventLog.Logger.end_details
    honey_mind.EventLog.Logger.log_session_end honey_mind.EventLog.Logger.count_attempt
    honey_mind.EventLog.Logger.log_auth_attempt honey_mind.EventLog.Logger.log_command
    honey_mind.EventLog.Logger.call honey_mind.EventLog.Logger.session_after
    honey_mind.Analysis.Fingerprint.without_usr honey_mind.Analysis.Fingerprint.normalize_cmd
    honey_mind.Analysis.Fingerprint.meaningful honey_mind.Analysis.Fingerprint.compute_sequence_hash
    honey_mind.Analysis.Fingerprint.match_hassh honey_mind.Analysis.Fingerprint.first_prefix
    honey_mind.Analysis.Fingerprint.match_sequence honey_mind.Analysis.Fingerprint.register_sequence
    honey_mind.Analysis.Fingerprint.identify_user_agent
    honey_mind.Analysis.Fingerprint.fingerprint_session honey_mind.Prelude.eqb
    honey_mind.Prelude.starts_with honey_mind.Prelude.ends_with honey_mind.Prelude.contains
    honey_mind.Prelude.is_space honey_mind.Prelude.to_lower honey_mind.Prelude.to_upper
    honey_mind.Prelude.lower honey_mind.Prelude.upper honey_mind.Prelude.join
    honey_mind.Prelude.split_from honey_mind.Prelude.split honey_mind.Prelude.show
    honey_mind.Prelude.is_line_break honey_mind.Prelude.split_lines honey_mind.Prelude.pad_to
    honey_mind.Prelude.pad_left honey_mind.Prelude.drop_while honey_mind.Prelude.rstrip_cons
    honey_mind.Prelude.rstrip_by honey_mind.Prelude.strip_by honey_mind.Prelude.strip
    honey_mind.Prelude.strip_char honey_mind.Prelude.rstrip_char honey_mind.Prelude.words
    honey_mind.Prelude.lookup honey_mind.Prelude.insert honey_mind.Prelude.remove
program = tt

abbrev config : Config
config = record {
  name = some (codes "web");
  honeypot_name = none;
  profile = none;
  type_name = some (codes "ssh");
  config_port = some 22;
}

abbrev session : Session
session = new_session (codes "s1") 100 (codes "10.0.0.1")

abbrev asks : Text → ℕ → Request Text
asks event_type now = record {
  event_type = event_type;
  service = codes "ssh";
  config = config;
  port = none;
  client = none;
  auth = none;
  command = none;
  error = none;
  llm = none;
  details = none;
  timestamp = now;
  fresh_id = codes "s2";
  event_id = codes "e";
}

abbrev steps : List (Step Text)
steps =
    builds (asks (codes "session_start") 100)
    ∷ builds (asks (codes "unknown") 110)
    ∷ builds (asks (codes "session_end") 150)
    ∷ []

session_id : session.session_id ≡ some (codes "s1")
unfolding new_session
session_id = refl

events_of-numbers_example :
    (numbers (events_of steps session)
      ≡ count_from (suc session.seq) (length (events_of steps session)))
    × All (λ e. e.session_id ≡ codes "s1") (events_of steps session)
events_of-numbers_example = events_of-numbers steps session (codes "s1") session_id

started : Until 100 100 session
unfolding new_session
started = (omega arith, refl, tt)

onwards : Onwards 100 steps
onwards = (omega arith, (omega arith, (omega arith, tt)))

events_of-IsTimed_example : All (IsTimed 100) (events_of steps session)
events_of-IsTimed_example = events_of-IsTimed 100 100 steps session started onwards

abbrev context : Context
context = record {
  protocol = codes "ssh";
  config = config;
  port = 22;
  now = 200;
  fresh_id = codes "s2";
  event_id = codes "e";
}

abbrev login : Attempt
login = record {
  username = codes "root";
  password = codes "toor";
  client_ip = none;
  attempt_number = some 1;
  required_attempts = some 1;
  success = true;
}

abbrev calls : List (Context × Call)
calls =
    (context, attempts login)
    ∷ (context, commands (codes "id") none (codes "unknown") (some 0) none none)
    ∷ []

session_end-counts_example :
    (e : honey_mind.EventLog.Event Payload) × (s' : Session) × (duration : ℤ) × (log_session_end
        context none none none
        (session_after calls session)
      ≡ some (s', e))
    × (e.details
        ≡ some (
            end_payload duration
              (session.auth_attempts + attempts_in calls)
              (session.commands + commands_in calls)
              (session.auth_success || success_in calls)
              none))
session_end-counts_example = session_end-counts context none none none calls session

abbrev world : World
world = record { drawn_threshold = 1; early_success = false; uptime = 5; action = none }

abbrev honeypot : honey_mind.Redis.Commands.Honeypot
honeypot = record { data_store = []; password_manager = init default_config }

abbrev redis_session : honey_mind.Redis.Commands.Session
redis_session = record { session_id = codes "s"; client_ip = none; current_db = pos 0 }

abbrev redis_commands : List (World × Text)
redis_commands =
    (world, codes "SELECT 1") ∷ (world, codes "SET k a b") ∷ (world, codes "DEL j") ∷ []

abbrev empty_view : Client
empty_view = record { selected = pos 0; values = λ i k. none }

view_shown : Shows honeypot redis_session empty_view
unfolding program
view_shown = record { same_selected = refl; same_values = λ i k. refl }

process_all-Shows_example :
    Shows
      (process_all redis_commands (honeypot, redis_session)).0
      (process_all redis_commands (honeypot, redis_session)).1
      (act_all redis_commands empty_view)
process_all-Shows_example =
    process_all-Shows redis_commands honeypot redis_session empty_view view_shown

get_words : words (codes "get k") ≡ codes "get" ∷ codes "k" ∷ []
unfolding program
get_words = refl

get_upper : upper (codes "get") ≡ codes "GET"
unfolding program
get_upper = refl

process_all-get_example :
    (process_command world
      (process_all redis_commands (honeypot, redis_session)).0
      (process_all redis_commands (honeypot, redis_session)).1
      (codes "get k")).1
    ≡ found_reply (fallback none (codes "GET") (codes "get k")) (
        (act_all redis_commands empty_view).values
          (act_all redis_commands empty_view).selected
          (codes "k"))
process_all-get_example =
    process_all-get redis_commands honeypot redis_session empty_view world (codes "get k")
      (codes "get") (codes "k") [] view_shown get_words get_upper

abbrev known : Dict Text
known = (codes "a1b2c3d4", codes "Mirai/Mozi recon script") ∷ []

abbrev later_known : List (Text × Text)
later_known = (codes "0123456789", codes "other") ∷ []

later-IsOther : All (IsOther (codes "deadbeef99")) later_known
unfolding program
later-IsOther = ((omega arith, refl), tt)

match-register_all_example :
    match_sequence
      (register_all later_known (register_sequence (codes "deadbeef99") (codes "scanner") known))
      (some (codes "deadbeef99"))
    ≡ some (codes "scanner")
match-register_all_example =
    match-register_all (codes "deadbeef99") (codes "scanner") known later_known (refl, tt)
      (omega arith) later-IsOther

times-condense_commands_example :
    (times_of (codes "ls") (condense_commands (codes "ls" ∷ codes "id" ∷ codes "ls" ∷ []))
      ≡ occurrences (codes "ls") (codes "ls" ∷ codes "id" ∷ codes "ls" ∷ []))
    × (entries_of (codes "ls") (condense_commands (codes "ls" ∷ codes "id" ∷ codes "ls" ∷ [])) ≤ 1)
times-condense_commands_example =
    times-condense_commands (codes "ls") (codes "ls" ∷ codes "id" ∷ codes "ls" ∷ [])

abbrev outside : Outside
outside = record {
  context = context;
  client_ip = none;
  drawn_threshold = 2;
  early_success = false;
  connects = none;
}

abbrev server : Server
server = record { manager = init default_config; session = session; authenticated = false }

server-IsLogged : IsLogged server
unfolding new_session
server-IsLogged = refl

abbrev logins : List (Outside × Text × Text)
logins = (outside, codes "root", codes "toor") ∷ (outside, codes "root", codes "1234") ∷ []

check_all-IsLogged_example :
    IsLogged (check_all logins server)
    × ((check_all logins server).session.auth_attempts ≡ server.session.auth_attempts + 2)
check_all-IsLogged_example = check_all-IsLogged logins server server-IsLogged
