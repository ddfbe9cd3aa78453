-- ===== src/Tests/Reports.antt =====
-- Runs of the Redis commands (src/honeypots/redis_honeypot.py) and of the analysis
-- (src/analysis).
use honey_mind.Prelude.{
  ℕ, ◌+◌, ◌*◌, ◌/◌, ◌≤◌, ◌<◌, if◌then◌else◌, Text, codes, eqb, member, words, upper, join, space,
  reverse, length, keep, ltb, All, Bool, true, false, ◌&&◌, List, [], ◌∷◌, Option, some, none, ◌≡◌,
  refl, arith,
}
use honey_mind.Password.{default_config, init}
use honey_mind.Redis.Integers.{pos, same_int}
use honey_mind.Redis.Framing.{bulk, fallback}
use honey_mind.Redis.Commands.{Honeypot, Session, World, process_command}
use honey_mind.Redis.Databases.{set-get}
use honey_mind.Analysis.Records.{IpData, BotHumanResult, Category, bot, recon, persistence}
use honey_mind.Analysis.Profile.{Profile, profile}
use honey_mind.Analysis.Typing.{levenshtein}
use honey_mind.Analysis.Typing.Distance.{edit_distance, levenshtein-edit_distance}

-- the definitions that the runs below compute with
program : Unit {0}
unfolding honey_mind.Redis.Commands.database honey_mind.Redis.Commands.set_database
    honey_mind.Redis.Framing.bulk honey_mind.Redis.Framing.extract_command
    honey_mind.Redis.Framing.fallback honey_mind.Redis.Commands.verb_of
    honey_mind.Redis.Commands.delete_keys honey_mind.Redis.Commands.with_database
    honey_mind.Redis.Commands.run_get honey_mind.Redis.Commands.run_del
    honey_mind.Redis.Commands.run honey_mind.Redis.Commands.process_words
    honey_mind.Redis.Commands.process_command honey_mind.Redis.Integers.show_int
    honey_mind.Redis.Integers.int honey_mind.Analysis.Records.has_category
    honey_mind.Analysis.Profile.anonymization_score honey_mind.Analysis.Profile.behavior_score
    honey_mind.Analysis.Profile.is_advanced honey_mind.Analysis.Profile.command_score
    honey_mind.Analysis.Profile.is_trapped honey_mind.Analysis.Profile.after_traps
    honey_mind.Analysis.Profile.in_business_hours honey_mind.Analysis.Profile.at_night
    honey_mind.Analysis.Profile.timing_score honey_mind.Analysis.Profile.anon_of
    honey_mind.Analysis.Profile.sophistication_score honey_mind.Analysis.Profile.flags_of
    honey_mind.Analysis.Profile.profile_type_in honey_mind.Analysis.Narrative.build_narrative
    honey_mind.Analysis.Profile.profile honey_mind.Analysis.Profile.score_icon
    honey_mind.Prelude.eqb honey_mind.Prelude.starts_with honey_mind.Prelude.ends_with
    honey_mind.Prelude.contains honey_mind.Prelude.is_space honey_mind.Prelude.to_lower
    honey_mind.Prelude.to_upper honey_mind.Prelude.lower honey_mind.Prelude.upper
    honey_mind.Prelude.join honey_mind.Prelude.split_from honey_mind.Prelude.split
    honey_mind.Prelude.show honey_mind.Prelude.is_line_break honey_mind.Prelude.split_lines
    honey_mind.Prelude.drop_while honey_mind.Prelude.rstrip_cons honey_mind.Prelude.rstrip_by
    honey_mind.Prelude.strip_by honey_mind.Prelude.strip honey_mind.Prelude.strip_char
    honey_mind.Prelude.rstrip_char honey_mind.Prelude.words honey_mind.Prelude.lookup
    honey_mind.Prelude.insert honey_mind.Prelude.remove
program = tt

abbrev world : World
world = record { drawn_threshold = 3; early_success = false; uptime = 7; action = none }

abbrev honeypot : Honeypot
honeypot = record { data_store = []; password_manager = init default_config }

abbrev session : Session
session = record {
  session_id = codes "s1";
  client_ip = some (codes "10.0.0.9");
  current_db = pos 0;
}

abbrev set_command : Text
set_command = codes "set k hello world"

abbrev get_command : Text
get_command = codes "GET k"

abbrev del_command : Text
del_command = codes "DEL a k"

set_words : words set_command ≡ codes "set" ∷ codes "k" ∷ codes "hello" ∷ codes "world" ∷ []
unfolding program
set_words = refl

get_words : words get_command ≡ codes "GET" ∷ codes "k" ∷ []
unfolding program
get_words = refl

del_words : words del_command ≡ codes "DEL" ∷ codes "a" ∷ codes "k" ∷ []
unfolding program
del_words = refl

set_upper : upper (codes "set") ≡ codes "SET"
unfolding program
set_upper = refl

get_upper : upper (codes "GET") ≡ codes "GET"
unfolding program
get_upper = refl

del_upper : upper (codes "DEL") ≡ codes "DEL"
unfolding program
del_upper = refl

set-get_example :
    (process_command world
      (process_command world honeypot session set_command).0.0
      session
      get_command).1
    ≡ (if same_int session.current_db session.current_db && eqb (codes "k") (codes "k")
        then bulk (join (space ∷ []) (codes "hello" ∷ codes "world" ∷ []))
        else (process_command world honeypot session get_command).1)
set-get_example =
    set-get world world honeypot session session set_command (codes "set") (codes "k")
      (codes "hello") (codes "world" ∷ []) get_command (codes "GET") (codes "k") [] set_words
      set_upper get_words get_upper

abbrev tor_exit : IpData
tor_exit = record {
  anonymization_type = some (codes "tor");
  country_code = some (codes "RU");
  city = none;
  country = some (codes "Russia");
}

abbrev bot_result : BotHumanResult
bot_result = record { verdict = bot; known_tool_ratio = 5; ai_trap_hits = 2 }

abbrev seen : List Category
seen = recon ∷ persistence ∷ []

abbrev delays : List ℕ
delays = 12 ∷ 30 ∷ 8 ∷ 45 ∷ []

all_fast : All (λ d. d < 100) delays
all_fast = (omega arith, (omega arith, (omega arith, (omega arith, tt))))

levenshtein-edit_distance_example :
    levenshtein (codes "cat") (codes "chart")
    ≡ edit_distance (reverse (codes "cat")) (reverse (codes "chart"))
levenshtein-edit_distance_example = levenshtein-edit_distance (codes "cat") (codes "chart")
