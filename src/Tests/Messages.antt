-- ===== src/Tests/Messages.antt =====
-- Runs of Telnet (src/honeypots/telnet_honeypot.py) and of the messages of PostgreSQL
-- (src/honeypots/postgresql_honeypot.py).
use honey_mind.Prelude.{
  suc, Text, codes, drop, ltb, get_or, All, List, [], ◌∷◌, ◌++◌, ◌==◌, if◌then◌else◌, Option, none,
  some, false, ◌≡◌, refl, arith,
}
use honey_mind.Password.{init, default_config}
use honey_mind.Telnet.{read_line, shell}
use honey_mind.Telnet.Lines.{IsHidden, password-IsHidden, Ended, shell-Ended}
use honey_mind.Telnet.Login.{Settings, Entry, enter}
use honey_mind.Postgres.{Delivery, send_message, with_length, read_message, disconnected}
use honey_mind.Postgres.Words.{pack_u32}
use honey_mind.Postgres.Framing.{Delivers, read-send_message}

password-IsHidden_example :
    All IsHidden (read_line (λ c. ltb 31 c) false (codes "root\r") []).written
password-IsHidden_example = password-IsHidden (λ c. ltb 31 c) (codes "root\r") []

shell-Ended_example :
    Ended
      (λ c. ltb 31 c)
      (λ line n. (n, some line))
      (λ line response n. suc n)
      (codes "# ")
      (shell
        (λ c. ltb 31 c)
        (λ line n. (n, some line))
        (λ line response n. suc n)
        (codes "# ")
        (codes "id\rexit\r")
        0)
shell-Ended_example =
    shell-Ended (λ c. ltb 31 c) (λ line n. (n, some line)) (λ line response n. suc n) (codes "# ")
      (codes "id\rexit\r") 0

-- a connection that delivers what it is asked for
abbrev prompt_delivery : Delivery
prompt_delivery = λ bytes n. n

prompt_delivery-Delivers : Delivers prompt_delivery
prompt_delivery-Delivers = record { some_byte = λ bytes n h. h; at_most = λ bytes n. omega arith }

sends_query : send_message b'Q' (codes "SELECT 1;") ≡ some (81 ∷ 0 ∷ 0 ∷ 0 ∷ 13 ∷ codes "SELECT 1;")
unfolding send_message with_length pack_u32
sends_query = refl

read-send_message_example :
    let behind = drop 1 ((81 ∷ 0 ∷ 0 ∷ 0 ∷ 13 ∷ codes "SELECT 1;") ++ codes "X") in
    read_message prompt_delivery ((81 ∷ 0 ∷ 0 ∷ 0 ∷ 13 ∷ codes "SELECT 1;") ++ codes "X") ≡ (
      if prompt_delivery behind 4 == 4
      then record { message = some (b'Q', codes "SELECT 1;"); rest = codes "X"; answered = [] }
      else disconnected (drop (prompt_delivery behind 4) behind))
read-send_message_example =
    read-send_message prompt_delivery b'Q' (codes "SELECT 1;")
      (81 ∷ 0 ∷ 0 ∷ 0 ∷ 13 ∷ codes "SELECT 1;") (codes "X") prompt_delivery-Delivers refl
      sends_query

abbrev settings : Settings
settings = record {
  isprintable = λ c. ltb 31 c;
  login_prompt = some (codes "login: ");
  password_prompt = some (codes "Password: ");
  session_id = codes "s";
  client_ip = codes "10.0.0.1";
  draws = λ round. (1, false);
}

-- what `connect` leaves of a new session: the name
abbrev connect : Option Text → Option Text → Text
connect = λ username password. get_or username []

abbrev rounds : List (Text × Text)
rounds = (codes "al", codes "pw") ∷ (codes "al", codes "12") ∷ []

-- a connection without prompts
abbrev open_settings : Settings
open_settings = record settings { login_prompt = none; password_prompt = none }

abbrev opened : Entry Text
opened = enter connect 7 open_settings [] (codes "ls\r") (init default_config)
