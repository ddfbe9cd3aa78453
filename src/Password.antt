-- ===== src/Password.antt =====
-- The deferred-success password validator (src/core/password_manager.py). What `random` returns is
-- an argument of an attempt: the threshold that `randint` draws for a new client, and whether
-- `random()` fell below the early success probability. The laws stand in the children.
pub mod Reject
pub mod Accept
pub mod Runs
pub mod Within
use honey_mind.Prelude.{
  ℕ, zero, suc, ◌+◌, ◌≤◌, Text, codes, eqb, member, length, ltb, leb, starts_with, strip, Dict,
  lookup, insert, remove, Bool, true, false, not, ◌||◌, ◌&&◌, List, [], ◌∷◌, ◌++◌, if◌then◌else◌,
  Option, none, some, get_or, ◌≡◌, refl,
}

abbrev pub master_password : Text
master_password = codes "mlkjhgfd"

-- the lines of `passwords_file` that hold a password; `passwords` is a set, kept as a list
unfoldable pub load_passwords : List Text → List Text
load_passwords [] = []
load_passwords (line ∷ lines) =
    let pw = strip line in
    let rest = load_passwords lines in
    if eqb pw [] || starts_with pw (codes "#") then rest else pw ∷ rest

pub record Config : Type 0 where
  pub min_attempts : ℕ
  pub max_attempts : ℕ
  pub max_length : ℕ
  pub compat_files_enabled : Bool
  pub passwords : List Text
  pub passwords_file : List Text

-- the configuration that the constructor reads where no key is set
abbrev pub default_config : Config
default_config = record {
  min_attempts = 3;
  max_attempts = 4;
  max_length = 8;
  compat_files_enabled = true;
  passwords = [];
  passwords_file = [];
}

-- the state of one tracked client
pub record Tracking : Type 0 where
  pub threshold : ℕ
  pub count : ℕ

-- a line of `successful_passwords.jsonl` or `failed_passwords.jsonl`
pub record Credential : Type 0 where
  pub session_id : Text
  pub username : Text
  pub password : Text
  pub client_ip : Option Text
  pub success : Bool

pub record Manager : Type 0 where
  pub config : Config
  pub allowed : List Text
  pub tracking : Dict Tracking
  pub blacklist : List Text
  pub credentials : List Credential

unfoldable pub init : Config → Manager
unfolding load_passwords
init config = record {
  config = config;
  allowed = master_password ∷ (config.passwords ++ load_passwords config.passwords_file);
  tracking = [];
  blacklist = [];
  credentials = [];
}

-- the arguments of `attempt`, with the two random draws
pub record Login : Type 0 where
  pub session_id : Text
  pub username : Text
  pub password : Text
  pub client_ip : Option Text
  pub drawn_threshold : ℕ
  pub early_success : Bool

-- `session["_last_auth_attempt"]`
pub record LastAttempt : Type 0 where
  pub username : Text
  pub password : Text
  pub client_ip : Option Text
  pub attempt_number : ℕ
  pub required_attempts : ℕ
  pub success : Bool

-- `client_ip or session.session_id`
unfoldable pub tracking_key : Option Text → Text → Text
tracking_key none session_id = session_id
tracking_key (some []) session_id = session_id
tracking_key (some (c ∷ ip)) session_id = c ∷ ip

-- `_state`: the entry of a client, new at its first attempt
unfoldable pub state : Dict Tracking → Text → ℕ → Tracking
state tracking key drawn = get_or (lookup key tracking) (record { threshold = drawn; count = 0 })

unfoldable pub write_compat_credential : Manager → Login → Bool → Manager
write_compat_credential m l success =
    if m.config.compat_files_enabled
    then record m {
      credentials =
          m.credentials
          ++ (record {
            session_id = l.session_id;
            username = l.username;
            password = l.password;
            client_ip = l.client_ip;
            success = success;
          })
            ∷ [];
    }
    else m

-- `_record_attempt`: what it leaves in the session and in the files
unfoldable pub record_attempt : Manager → Login → ℕ → ℕ → Bool → Manager × LastAttempt
unfolding write_compat_credential
record_attempt m l attempt_num threshold success = (
  write_compat_credential m l success,
  record {
    username = l.username;
    password = l.password;
    client_ip = l.client_ip;
    attempt_number = attempt_num;
    required_attempts = threshold;
    success = success;
  },
)

-- `success` adds the password to the allowed ones and forgets the client
unfoldable pub settle : Manager → Text → Text → Bool → Manager
settle m key password success =
    if success
    then record m { allowed = password ∷ m.allowed; tracking = remove key m.tracking }
    else m

-- the attempts that are counted: the password is new and not too long
unfoldable pub counted_attempt : Manager → Login → Text → Manager × LastAttempt
unfolding state record_attempt settle
counted_attempt m l key =
    let st = state m.tracking key l.drawn_threshold in
    let attempt_num = st.count + 1 in
    let success = leb st.threshold attempt_num || l.early_success in
    let m' = record m {
      tracking = insert key (record { threshold = st.threshold; count = attempt_num }) m.tracking;
    } in
    let (m'', last) = record_attempt m' l attempt_num st.threshold success in
    (settle m'' key l.password success, last)

-- `attempt`; its Boolean result is the field `success` of what it records
unfoldable pub attempt : Manager → Login → Manager × LastAttempt
attempt m l =
    if member l.password m.allowed
    then record_attempt m l 1 1 true
    else if ltb m.config.max_length (length l.password)
    then record_attempt (record m { blacklist = l.password ∷ m.blacklist }) l 0 0 false
    else counted_attempt m l (tracking_key l.client_ip l.session_id)

-- several attempts, with what each returns
unfoldable pub attempts : Manager → List Login → Manager × List Bool
attempts m [] = (m, [])
attempts m (l ∷ ls) =
    let (m', last) = attempt m l in
    let (m'', results) = attempts m' ls in (m'', last.success ∷ results)
