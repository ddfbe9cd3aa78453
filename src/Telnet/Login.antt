-- ===== src/Telnet/Login.antt =====
-- The login of the Telnet honeypot (src/honeypots/telnet_honeypot.py): an address that has a
-- session goes on with it, and else names and passwords are asked for until the password manager
-- accepts one, or the client closes the connection.
pub mod Rounds
pub mod Ends
use honey_mind.Prelude.{
  ℕ, zero, suc, Text, strip, length, Bool, true, false, List, [], Option, none, some, is_some, ◌||◌,
  Dict, insert, if◌then◌else◌,
}
use honey_mind.Password.{Manager, Login, attempt}
use honey_mind.Telnet.{read_line, cleanup_sessions, reused_session}

-- the prompts that are configured, the session and its address, and the draws of the manager
pub record Settings : Type 0 where
  pub isprintable : ℕ → Bool
  pub login_prompt : Option Text
  pub password_prompt : Option Text
  pub session_id : Text
  pub client_ip : Text
  pub draws : ℕ → ℕ × Bool

pub data End : Type 0 where
  closed out_of_fuel : End
  logged_in : (username password : Text) (rest : List ℕ) → End

-- what a prompt gives: a line that is there and stripped, and what is left; nothing where the
-- client has closed. Without a prompt nothing is read.
unfoldable pub stripped : Option Text → List ℕ → Option (Text × List ℕ)
stripped none rest = none
stripped (some line) rest = some (strip line, rest)

unfoldable pub ask : (ℕ → Bool) → Bool → Option Text → List ℕ → Option (Text × List ℕ)
ask isprintable echo none chars = some ([], chars)
ask isprintable echo (some prompt) chars =
    let r = read_line isprintable echo chars [] in stripped r.line r.rest

-- both questions of a round
unfoldable pub with_password : Text → Option (Text × List ℕ) → Option (Text × Text × List ℕ)
with_password username none = none
with_password username (some (password, rest)) = some (username, password, rest)

unfoldable pub ask_both : Settings → List ℕ → Option (Text × Text × List ℕ)
unfolding with_password
ask_both s chars = elim (ask s.isprintable true s.login_prompt chars) [
  | none ↦ none
  | some (username, rest) ↦ with_password username (ask s.isprintable false s.password_prompt rest)
]

unfoldable pub login_of : Settings → ℕ → Text → Text → Login
login_of s round username password = record {
  session_id = s.session_id;
  username = username;
  password = password;
  client_ip = some s.client_ip;
  drawn_threshold = (s.draws round).0;
  early_success = (s.draws round).1;
}

-- The loop, which runs where there is a prompt, so that every round reads a character at least, and
-- fuel for one round more than there are characters is enough.
unfoldable pub log_in : ℕ → Settings → ℕ → List ℕ → Manager → Manager × End
log_in zero s round chars manager = (manager, out_of_fuel)
log_in (suc fuel) s round chars manager = elim (ask_both s chars) [
  | none ↦ (manager, closed)
  | some (username, password, rest) ↦
      let (manager', last) = attempt manager (login_of s round username password) in
      elim last.success [
        | true ↦ (manager', logged_in username password rest)
        | false ↦ log_in fuel s (suc round) rest manager'
      ]
]

-- what a connection has in front of its shell: the session and what is left to read, none where the
-- client closed; the sessions by address; and the login that is logged, with its name and its
-- password. A session is a reference: what a shell changes of it is not written here.
pub record Entry (S : Type 0) : Type 0 where
  pub manager : Manager
  pub sessions : Dict (S × ℕ)
  pub session : Option (S × List ℕ)
  pub login : Option (Option Text × Option Text)

unfoldable pub has_prompts : Settings → Bool
has_prompts s = is_some s.login_prompt || is_some s.password_prompt

-- The session that the action's `connect` leaves of a new one is a parameter.
module _ {S : Type 0} (connect : Option Text → Option Text → S) where
  -- a session with its time is kept under the address, and the login is logged
  unfoldable pub let_in :
      ℕ → Settings → Dict (S × ℕ) → (username password : Option Text) → List ℕ → Manager → Entry S
  let_in now s sessions username password rest manager = record {
    manager = manager;
    sessions = insert s.client_ip (connect username password, now) sessions;
    session = some (connect username password, rest);
    login = some (username, password);
  }

  unfoldable pub settled : ℕ → Settings → Dict (S × ℕ) → Manager × End → Entry S
  unfolding let_in
  settled now s sessions (manager, logged_in username password rest) =
      let_in now s sessions (some username) (some password) rest manager
  settled now s sessions (manager, closed) = record {
    manager = manager;
    sessions = sessions;
    session = none;
    login = none;
  }
  settled now s sessions (manager, out_of_fuel) = record {
    manager = manager;
    sessions = sessions;
    session = none;
    login = none;
  }

  unfoldable pub enter_by : ℕ → Settings → Dict (S × ℕ) → List ℕ → Manager → Option S → Entry S
  unfolding settled let_in has_prompts
  enter_by now s sessions chars manager (some session) = record {
    manager = manager;
    sessions = sessions;
    session = some (session, chars);
    login = none;
  }
  enter_by now s sessions chars manager none =
      if has_prompts s
      then settled now s sessions (log_in (suc (length chars)) s 0 chars manager)
      else let_in now s sessions none none chars manager

  -- the part of `shell` in front of its prompt
  unfoldable pub enter : ℕ → Settings → Dict (S × ℕ) → List ℕ → Manager → Entry S
  unfolding enter_by
  enter now s sessions chars manager =
      enter_by now s (cleanup_sessions now sessions) chars manager
        (reused_session now s.client_ip sessions)
