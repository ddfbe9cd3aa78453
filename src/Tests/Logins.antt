-- ===== src/Tests/Logins.antt =====
-- Runs of the password validator (src/core/password_manager.py).
use honey_mind.Prelude.{
  Text, codes, eqb, member, any_of, length, lookup, insert, All, ◌≤◌, ◌<◌, true, false, List, [],
  ◌∷◌, none, some, ◌≡◌, refl, arith,
}
use honey_mind.Password.{
  Manager, Login, default_config, init, attempt, attempts, load_passwords, counted_attempt,
  record_attempt, state, settle, write_compat_credential, tracking_key,
}
use honey_mind.Password.Reject.{too_long_never_accepted}
use honey_mind.Password.Accept.{accepted_again}
use honey_mind.Password.Runs.{IsValid, DrawsFairly, attempt-IsValid}
use honey_mind.Password.Within.{Tries, accepted_within_max}

abbrev manager : Manager
manager = init default_config

abbrev login_with : Text → Login
login_with password = record {
  session_id = codes "s1";
  username = codes "root";
  password = password;
  client_ip = some (codes "10.0.0.9");
  drawn_threshold = 3;
  early_success = false;
}

abbrev three_logins : List Login
three_logins =
    login_with (codes "123") ∷ login_with (codes "root") ∷ login_with (codes "admin") ∷ []

abbrev four_logins : List Login
four_logins = login_with (codes "pi") ∷ three_logins

manager-IsValid : IsValid manager
unfolding init lookup load_passwords
manager-IsValid = record { waiting = λ k t h. cc h }

fair : (password : Text) → DrawsFairly manager (login_with password)
unfolding init
fair password = record { positive = omega arith; at_most = omega arith }

tries :
    (password : Text) → length password ≤ 8 → Tries manager (codes "10.0.0.9") (login_with password)
unfolding init tracking_key
tries password short = record { same_client = refl; short = short; fair = fair password }

four-Tries : All (Tries manager (codes "10.0.0.9")) four_logins
four-Tries = (
  tries (codes "pi") (omega arith),
  (
    tries (codes "123") (omega arith),
    (tries (codes "root") (omega arith), (tries (codes "admin") (omega arith), tt)),
  ),
)

accepted_within_max_example : any_of (λ b. b) (attempts manager four_logins).1 ≡ true
unfolding init
accepted_within_max_example =
    accepted_within_max manager (codes "10.0.0.9") four_logins manager-IsValid (omega arith)
      four-Tries (omega arith)

attempt-IsValid_example : IsValid (attempt manager (login_with (codes "123"))).0
attempt-IsValid_example =
    attempt-IsValid manager (login_with (codes "123")) manager-IsValid (fair (codes "123"))

abbrev lucky : Login
lucky = record (login_with (codes "toor")) { early_success = true }

abbrev again : Login
again = record (login_with (codes "toor")) { client_ip = none }

lucky_accepted : (attempt manager lucky).1.success ≡ true
unfolding init attempt counted_attempt record_attempt state settle write_compat_credential lookup
    insert eqb load_passwords
lucky_accepted = refl

accepted_again_example :
    (attempt (attempts (attempt manager lucky).0 three_logins).0 again).1.success ≡ true
accepted_again_example = accepted_again manager lucky three_logins again lucky_accepted refl

abbrev long_login : Login
long_login = login_with (codes "correct horse battery staple")

long_not_allowed : member long_login.password manager.allowed ≡ false
unfolding init load_passwords eqb
long_not_allowed = refl

long_is_long : manager.config.max_length < length long_login.password
unfolding init
long_is_long = omega arith

too_long_never_accepted_example :
    (attempt (attempts manager three_logins).0 long_login).1.success ≡ false
too_long_never_accepted_example =
    too_long_never_accepted manager three_logins long_login long_not_allowed long_is_long
