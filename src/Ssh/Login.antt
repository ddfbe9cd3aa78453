-- ===== src/Ssh/Login.antt =====
-- `check_auth_password` of src/honeypots/ssh_honeypot.py: an attempt at a login asks the password
-- manager, is written to the log of events, and, where it is accepted, takes over the session of
-- the action.
use honey_mind.Prelude.{
  ℕ, ◌+◌, Text, length, Bool, true, false, ◌||◌, List, [], ◌∷◌, if◌then◌else◌, Option, none, some,
  get_or, ◌≡◌, refl, ap, ◌∙◌, arith,
}
use honey_mind.Password.{Manager, Login, LastAttempt, attempt}
use honey_mind.EventLog.{Session}
use honey_mind.EventLog.Runs.{ActionSession, take_over}
use honey_mind.EventLog.Logger.{Context, Attempt, Logged, log_auth_attempt}
use honey_mind.EventLog.Logger.Counts.{attempt_logged}

-- what the server of one connection keeps, with the manager that it shares
pub record Server : Type 0 where
  pub manager : Manager
  pub session : Session
  pub authenticated : Bool

-- what an attempt takes from outside: the draws, the address, and what `connect` of the action
-- gives
pub record Outside : Type 0 where
  pub context : Context
  pub client_ip : Option Text
  pub drawn_threshold : ℕ
  pub early_success : Bool
  pub connects : Option ActionSession

login_of : Outside → Server → Text → Text → Login
login_of o server username password = record {
  session_id = get_or server.session.session_id [];
  username = username;
  password = password;
  client_ip = o.client_ip;
  drawn_threshold = o.drawn_threshold;
  early_success = o.early_success;
}

-- what is logged of `session["_last_auth_attempt"]`
attempt_of : LastAttempt → Attempt
attempt_of last = record {
  username = last.username;
  password = last.password;
  client_ip = last.client_ip;
  attempt_number = some last.attempt_number;
  required_attempts = some last.required_attempts;
  success = last.success;
}

session_of : Session → Logged → Session
session_of session none = session
session_of session (some (session', e)) = session'

connected : Option ActionSession → Session → Session
connected none session = session
connected (some sess) session = take_over session sess

answered : Outside → Server → Bool → Session → Server
unfolding connected
answered o server accepted session =
    if accepted
    then record server { session = connected o.connects session; authenticated = true }
    else record server { session = session }

-- the server behind the attempt, and whether the client is let in
unfoldable pub check_auth_password : Outside → Server → Text → Text → Server × Bool
unfolding login_of attempt_of session_of answered
check_auth_password o server username password =
    let (manager, last) = attempt server.manager (login_of o server username password) in
    let logged = log_auth_attempt o.context (attempt_of last) server.session in
    let session = session_of server.session logged in
    (answered o (record server { manager = manager }) last.success session, last.success)

-- the attempts of a connection
unfoldable pub check_all : List (Outside × Text × Text) → Server → Server
check_all [] server = server
check_all ((o, username, password) ∷ attempts) server =
    check_all attempts (check_auth_password o server username password).0

-- The log says what the server knows: that the client is authenticated.
abbrev pub IsLogged : Server → Type 0
IsLogged server = server.session.auth_success ≡ server.authenticated

connected-success :
    (connects : Option ActionSession) (session : Session)
    → (connected connects session).auth_success ≡ session.auth_success
unfolding connected take_over
connected-success none session = refl
connected-success (some sess) session = refl

connected-attempts :
    (connects : Option ActionSession) (session : Session)
    → (connected connects session).auth_attempts ≡ session.auth_attempts
unfolding connected take_over
connected-attempts none session = refl
connected-attempts (some sess) session = refl

answered-IsLogged :
    (o : Outside) (server : Server) (accepted : Bool) (session : Session)
    → session.auth_success ≡ (server.authenticated || accepted)
    → IsLogged (answered o server accepted session)
unfolding answered
answered-IsLogged o server true session h = connected-success o.connects session ∙ h ∙ ground arith
answered-IsLogged o server false session h = h ∙ ground arith

answered-attempts :
    (o : Outside) (server : Server) (accepted : Bool) (session : Session)
    → (answered o server accepted session).session.auth_attempts ≡ session.auth_attempts
unfolding answered
answered-attempts o server true session = connected-attempts o.connects session
answered-attempts o server false session = refl

check-IsLogged :
    (o : Outside) (server : Server) (username password : Text)
    → IsLogged server
    → IsLogged (check_auth_password o server username password).0
      × ((check_auth_password o server username password).0.session.auth_attempts
          ≡ server.session.auth_attempts + 1)
unfolding check_auth_password session_of attempt_of
check-IsLogged o server username password h =
    let (manager, last) = attempt server.manager (login_of o server username password) in
    let (s', e, logged, counted, success, _) =
      attempt_logged o.context (attempt_of last) server.session in
    let server' : Server = record server { manager = manager } in
    rw logged (
      answered-IsLogged o server' last.success s' (success ∙ ap (λ b. b || last.success) h),
      answered-attempts o server' last.success s' ∙ counted,
    )

-- After any attempts of a connection, the log counts as many attempts more as were made, and says
-- that the client is authenticated exactly where the server let it in, if it did so before them.
pub check_all-IsLogged :
    (attempts : List (Outside × Text × Text)) (server : Server)
    → IsLogged server
    → IsLogged (check_all attempts server)
      × ((check_all attempts server).session.auth_attempts
          ≡ server.session.auth_attempts + length attempts)
unfolding check_all
check_all-IsLogged [] server h = (h, omega arith)
check_all-IsLogged ((o, username, password) ∷ attempts) server h =
    let (logged, counted) = check-IsLogged o server username password h in
    let (all_logged, all_counted) =
      check_all-IsLogged attempts (check_auth_password o server username password).0 logged in
    (all_logged, omega (arith, counted, all_counted))
