-- ===== src/Telnet.antt =====
-- The Telnet honeypot (src/honeypots/telnet_honeypot.py): the reader of a line, the sessions by
-- address, the login, and the shell. What the client sends is a list of characters; nothing is the
-- closed connection.
pub mod Lines
pub mod Login
use honey_mind.Prelude.{
  ℕ, zero, suc, ◌-◌, ltb, Text, codes, eqb, member, strip, take, length, Bool, true, false, not,
  ◌||◌, ◌==◌, List, [], ◌∷◌, ◌++◌, if◌then◌else◌, Option, none, some, get_or, Dict, lookup, insert,
  keep,
}

-- a line, what is left to read, and what was written; no line where the connection is closed
pub record Read : Type 0 where
  pub line : Option Text
  pub rest : List ℕ
  pub written : List Text

abbrev pub wrote : Text → Read → Read
wrote text r = record r { written = text ∷ r.written }

-- `word[:-1]` with its erasure, where there is something
unfoldable pub erase : Text → (Text → Read) → Read
erase [] next = next []
erase (c ∷ word) next = wrote (8 ∷ 32 ∷ 8 ∷ []) (next (take (length (c ∷ word) - 1) (c ∷ word)))

-- `read_line`, with `str.isprintable` as a parameter
module _ (isprintable : ℕ → Bool) where
  unfoldable pub read_line : Bool → List ℕ → Text → Read
  unfolding erase
  read_line echo [] word = record { line = none; rest = []; written = [] }
  read_line echo (char ∷ rest) word = elim ((char == 13) || (char == 10)) [
    | true ↦ record { line = some word; rest = rest; written = [] }
    | false ↦ elim ((char == 8) || (char == 127)) [
      | true ↦ erase word (read_line echo rest)
      | false ↦ elim (isprintable char) [
        | true ↦
            wrote (if echo then char ∷ [] else codes "*") (read_line echo rest (word ++ char ∷ []))
        | false ↦ read_line echo rest word
      ]
    ]
  ]

abbrev pub session_timeout : ℕ
session_timeout = 180

module _ {S : Type 0} where
  -- `_cleanup_sessions`, on a clock in seconds
  unfoldable pub cleanup_sessions : ℕ → Dict (S × ℕ) → Dict (S × ℕ)
  cleanup_sessions now [] = []
  cleanup_sessions now ((ip, (session, created)) ∷ sessions) =
      let rest = cleanup_sessions now sessions in
      if ltb session_timeout (now - created) then rest else (ip, (session, created)) ∷ rest

  unfoldable pub fresh_enough : ℕ → Option (S × ℕ) → Option S
  fresh_enough now none = none
  fresh_enough now (some (session, created)) =
      if ltb session_timeout (now - created) then none else some session

  -- the session that a new connection goes on with
  unfoldable pub reused_session : ℕ → Text → Dict (S × ℕ) → Option S
  unfolding fresh_enough
  reused_session now client_ip sessions =
      fresh_enough now (lookup client_ip (cleanup_sessions now sessions))

-- how the shell of a connection ends; the last one is no end of the program's
pub data Ending : Type 0 where
  goodbye disconnected raised out_of_fuel : Ending

pub record Run (S : Type 0) : Type 0 where
  pub session : S
  pub logged : List (Text × Option Text)
  pub written : List Text
  pub ending : Ending

abbrev pub is_leaving : Text → Bool
is_leaving line = member line (codes "exit" ∷ codes "quit" ∷ codes "logout" ∷ [])

-- `response.replace("\n", "\r\n")`
unfoldable pub returned : Text → Text
returned [] = []
returned (c ∷ s) = if c == 10 then 13 ∷ 10 ∷ returned s else c ∷ returned s

-- The query leaves a session also where it raises; `log_data` changes the session when it logs a
-- command.
module _ {S : Type 0} (isprintable : ℕ → Bool) (query : Text → S → S × Option Text)
    (log_data : Text → Option Text → S → S) (prompt : Text) where
  -- what happened in front of the rest of a run
  abbrev pub ahead : List (Text × Option Text) → List Text → Run S → Run S
  ahead logged written r = record r { logged = logged ++ r.logged; written = written ++ r.written }

  unfoldable pub goodbye_run : S → Text → Run S
  goodbye_run session line = record {
    session = log_data line none session;
    logged = (line, none) ∷ [];
    written = codes "\r\nGoodbye!\r\n" ∷ [];
    ending = goodbye;
  }

  unfoldable pub stopped : S → Ending → Run S
  stopped session ending = record { session = session; logged = []; written = []; ending = ending }

  unfoldable pub answer : Text → S × Option Text → (S → Run S) → Run S
  unfolding stopped
  answer line (session, none) next = stopped session raised
  answer line (session, some response) next =
      ahead ((line, some response) ∷ []) (returned response ∷ (codes "\r\n" ++ prompt) ∷ [])
        (next (log_data line (some response) session))

  -- The loop of `shell` behind the prompt. Every round reads a character at least, so fuel for one
  -- round more than there are characters is enough.
  unfoldable pub serve : ℕ → List ℕ → S → Run S
  unfolding answer goodbye_run stopped
  serve zero chars session = stopped session out_of_fuel
  serve (suc fuel) chars session =
      let r = read_line isprintable true chars [] in
      ahead [] r.written (elim r.line [
        | none ↦ stopped session disconnected
        | some line ↦ elim (is_leaving line) [
          | true ↦ goodbye_run session line
          | false ↦ answer line (query line session) (serve fuel r.rest)
        ]
      ])

  -- `shell`, behind the login
  unfoldable pub shell : List ℕ → S → Run S
  shell chars session =
      ahead [] ((codes "\r\n" ++ prompt) ∷ []) (serve (suc (length chars)) chars session)
