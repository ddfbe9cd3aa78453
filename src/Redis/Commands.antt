-- ===== src/Redis/Commands.antt =====
-- `_process_command` of src/honeypots/redis_honeypot.py. The answer of the
-- action, the uptime and the draws of the password manager are arguments of a request; a reply is
-- a text, before its encoding.
use honey_mind.Prelude.{
  ℕ, suc, Text, codes, eqb, upper, words, join, show, length, space, Dict, lookup, insert, remove,
  has_key, keys, keep, Bool, true, false, List, [], ◌∷◌, ◌++◌, if◌then◌else◌, Option, none, some,
}
use honey_mind.Password.{Manager, Login, attempt}
use honey_mind.Redis.Framing.{crlf, bulk, fallback}
use honey_mind.Redis.Integers.{ℤ, same_int, show_int, int}

-- `self.data_store`, a `defaultdict(dict)`
abbrev pub Databases : Type 0
Databases = List (ℤ × Dict Text)

unfoldable pub database : ℤ → Databases → Dict Text
database i [] = []
database i ((j, db) ∷ dbs) = if same_int j i then db else database i dbs

unfoldable pub set_database : ℤ → Dict Text → Databases → Databases
set_database i db [] = (i, db) ∷ []
set_database i db ((j, old) ∷ dbs) =
    if same_int j i then (j, db) ∷ dbs else (j, old) ∷ set_database i db dbs

pub record Honeypot : Type 0 where
  pub data_store : Databases
  pub password_manager : Manager

-- what a connection's session holds for the commands
pub record Session : Type 0 where
  pub session_id : Text
  pub client_ip : Option Text
  pub current_db : ℤ

-- what a request takes from outside
pub record World : Type 0 where
  pub drawn_threshold : ℕ
  pub early_success : Bool
  pub uptime : ℕ
  pub action : Option (Text → Text)

-- the tests on the first word, in their order
pub data Verb : Type 0 where
  auth : Verb
  select : Verb
  set : Verb
  get : Verb
  del : Verb
  keys_of : Verb
  flushdb : Verb
  flushall : Verb
  info : Verb
  command_list : Verb
  other : Verb

unfoldable pub verb_of : Text → Verb
verb_of cmd =
    if eqb cmd (codes "AUTH")
    then auth
    else if eqb cmd (codes "SELECT")
    then select
    else if eqb cmd (codes "SET")
    then set
    else if eqb cmd (codes "GET")
    then get
    else if eqb cmd (codes "DEL")
    then del
    else if eqb cmd (codes "KEYS")
    then keys_of
    else if eqb cmd (codes "FLUSHDB")
    then flushdb
    else if eqb cmd (codes "FLUSHALL")
    then flushall
    else if eqb cmd (codes "INFO")
    then info
    else if eqb cmd (codes "COMMAND")
    then command_list
    else other

-- DEL: what is left, and how many keys were there
unfoldable pub delete_keys : List Text → Dict Text → Dict Text × ℕ
delete_keys [] db = (db, 0)
delete_keys (key ∷ names) db = elim (has_key key db) [
  | true ↦ let (left, count) = delete_keys names (remove key db) in (left, suc count)
  | false ↦ delete_keys names db
]

matching_keys : List Text → Dict Text → List Text
matching_keys [] db = keys db
matching_keys (pattern_word ∷ _) db =
    if eqb pattern_word (codes "*") then keys db else keep (λ k. eqb k pattern_word) (keys db)

key_lines : List Text → Text
key_lines [] = []
key_lines (k ∷ ks) = bulk k ++ key_lines ks

key_array : List Text → Text
unfolding key_lines
key_array ks = codes "*" ++ show (length ks) ++ crlf ++ key_lines ks

lines_of : List Text → Text
lines_of [] = []
lines_of (line ∷ lines) = line ++ crlf ++ lines_of lines

info_text : ℕ → ℤ → ℕ → Text
unfolding lines_of
info_text uptime current_db key_count = lines_of (
    codes "# Server"
    ∷ codes "redis_version:6.2.6"
    ∷ codes "os:Linux"
    ∷ codes "arch_bits:64"
    ∷ codes "multiplexing_api:epoll"
    ∷ (codes "uptime_in_seconds:" ++ show uptime)
    ∷ codes "uptime_in_days:0"
    ∷ codes "# Clients"
    ∷ codes "connected_clients:1"
    ∷ codes "# Memory"
    ∷ codes "used_memory:1024000"
    ∷ codes "used_memory_human:1.00M"
    ∷ codes "# Persistence"
    ∷ codes "loading:0"
    ∷ codes "# Stats"
    ∷ codes "total_connections_received:1"
    ∷ codes "total_commands_processed:1"
    ∷ codes "# Replication"
    ∷ codes "role:master"
    ∷ codes "connected_slaves:0"
    ∷ codes "# CPU"
    ∷ codes "used_cpu_sys:0.50"
    ∷ codes "used_cpu_user:0.50"
    ∷ codes "# Keyspace"
    ∷ (codes "db"
        ++ show_int current_db
        ++ codes ":keys="
        ++ show key_count
        ++ codes ",expires=0,avg_ttl=0")
    ∷ [])

abbrev pub ok : Text
ok = codes "+OK" ++ crlf

abbrev pub Outcome : Type 0
Outcome = (Honeypot × Session) × Text

unfoldable pub with_database : Honeypot → Session → Dict Text → Honeypot
with_database h s db = record h { data_store = set_database s.current_db db h.data_store }

pub auth_login : World → Session → List Text → Login
auth_login w s args = record {
  session_id = s.session_id;
  username = codes "redis_user";
  password = password_of args;
  client_ip = s.client_ip;
  drawn_threshold = w.drawn_threshold;
  early_success = w.early_success;
}
  where
    password_of : List Text → Text
    password_of [] = []
    password_of (password ∷ _) = password

unfoldable pub run_auth : World → Honeypot → Session → List Text → Outcome
unfolding auth_login
run_auth w h s args =
    let (manager, last) = attempt h.password_manager (auth_login w s args) in
    (
      (record h { password_manager = manager }, s),
      (if last.success then ok else codes "-ERR invalid password" ++ crlf),
    )

unfoldable pub run_select : Honeypot → Session → Option ℤ → Outcome
run_select h s none = ((h, s), codes "-ERR invalid DB index" ++ crlf)
run_select h s (some i) = ((h, record s { current_db = i }), ok)

unfoldable pub run_get : Honeypot → Session → Option Text → Text → Outcome
run_get h s none missed = ((h, s), missed)
run_get h s (some val) missed = ((h, s), bulk val)

unfoldable pub run_del : Honeypot → Session → Dict Text × ℕ → Outcome
run_del h s (db, count) = ((with_database h s db, s), codes ":" ++ show count ++ crlf)

-- the branch of each verb; a verb that has too few operands goes to the action
unfoldable pub run : World → Honeypot → Session → Text → Text → Verb → List Text → Outcome
unfolding run_auth run_select run_get run_del with_database delete_keys matching_keys key_array
    info_text
run w h s cmd command auth args = run_auth w h s args
run w h s cmd command select (index ∷ _) = run_select h s (int index)
run w h s cmd command set (key ∷ v ∷ vs) = (
  (
    with_database h s
        (insert key (join (space ∷ []) (v ∷ vs)) (database s.current_db h.data_store)),
    s,
  ),
  ok,
)
run w h s cmd command get (key ∷ _) =
    run_get h s (lookup key (database s.current_db h.data_store)) (fallback w.action cmd command)
run w h s cmd command del (key ∷ names) =
    run_del h s (delete_keys (key ∷ names) (database s.current_db h.data_store))
run w h s cmd command keys_of args =
    ((h, s), key_array (matching_keys args (database s.current_db h.data_store)))
run w h s cmd command flushdb args = ((with_database h s [], s), ok)
run w h s cmd command flushall args = ((record h { data_store = [] }, s), ok)
run w h s cmd command info args = (
  (h, s),
  bulk (info_text w.uptime s.current_db (length (keys (database s.current_db h.data_store)))),
)
run w h s cmd command command_list args = ((h, s), codes "*0" ++ crlf)
run w h s cmd command _ args = ((h, s), fallback w.action cmd command)

unfoldable pub process_words : World → Honeypot → Session → Text → List Text → Outcome
process_words w h s command [] = ((h, s), codes "-ERR unknown command" ++ crlf)
process_words w h s command (cmd ∷ args) = run w h s (upper cmd) command (verb_of (upper cmd)) args

unfoldable pub process_command : World → Honeypot → Session → Text → Outcome
unfolding process_words
process_command w h s command = process_words w h s command (words command)
