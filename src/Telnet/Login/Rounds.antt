-- ===== src/Telnet/Login/Rounds.antt =====
-- What typing does at the login of src/honeypots/telnet_honeypot.py, and how long a login lasts.
use honey_mind.Prelude.{
  ℕ, suc, Text, strip, Bool, true, false, List, [], ◌∷◌, ◌++◌, some, All, ◌==◌, ◌||◌, ◌≡◌,
}
use honey_mind.Password.{Manager, attempt}
use honey_mind.Telnet.{Read}
use honey_mind.Telnet.Login.{Settings, End, closed, logged_in, login_of}

-- a character that stands for itself: printable, neither the end of a line nor an erasure
abbrev pub IsTyped : (ℕ → Bool) → ℕ → Type 0
IsTyped p c = (((c == 13) || (c == 10)) ≡ false) × (((c == 8) || (c == 127)) ≡ false) × (p c ≡ true)

-- a line that is read whole
abbrev IsLine : Read → Text → List ℕ → Type 0
IsLine r line rest = (r.line ≡ some line) × (r.rest ≡ rest)

-- the rounds that a client types: a name and a password, each with a return
abbrev pub keys_of : List (Text × Text) → List ℕ
keys_of [] = []
keys_of ((username, password) ∷ rounds) = username ++ 13 ∷ (password ++ 13 ∷ keys_of rounds)

abbrev pub RoundTyped : (ℕ → Bool) → Text × Text → Type 0
RoundTyped p (username, password) = All (IsTyped p) username × All (IsTyped p) password

-- What the password manager makes of the rounds, in their order: the first that it accepts lets the
-- client in with its name and its password, stripped, and what stands behind it is left to read.
abbrev pub judged : Settings → ℕ → List (Text × Text) → Manager → Manager × End
judged s round [] manager = (manager, closed)
judged s round ((username, password) ∷ rounds) manager =
    let (manager', last) = attempt manager (login_of s round (strip username) (strip password)) in
    elim last.success [
      | true ↦ (manager', logged_in (strip username) (strip password) (keys_of rounds))
      | false ↦ judged s (suc round) rounds manager'
    ]
