-- ===== src/Analysis/Condenser.antt =====
-- The condenser of a session (src/analysis/log_condenser.py): commands with their counts, the
-- phases, and the summary of the attempts at a login. An event is given with what
-- `_extract_command` and `classify_event` found in it.
pub mod Counts
use honey_mind.Prelude.{
  ℕ, suc, Text, eqb, member, leb, ltb, length, take, Dict, Bool, false, ◌||◌, List, [], ◌∷◌, ◌++◌,
  if◌then◌else◌, Option, none, some,
}

-- `Counter(xs)`: a key stands where it was counted first
unfoldable pub count_one : Text → Dict ℕ → Dict ℕ
count_one k [] = (k, 1) ∷ []
count_one k ((j, n) ∷ counts) = if eqb j k then (j, suc n) ∷ counts else (j, n) ∷ count_one k counts

unfoldable pub count_all : List Text → Dict ℕ → Dict ℕ
count_all [] counts = counts
count_all (x ∷ xs) counts = count_all xs (count_one x counts)

abbrev pub counter : List Text → Dict ℕ
counter xs = count_all xs []

-- `most_common()`: by falling counts, those with one count in their order
unfoldable pub insert_common : Text × ℕ → Dict ℕ → Dict ℕ
insert_common e [] = e ∷ []
insert_common e (f ∷ fs) = if leb f.1 e.1 then e ∷ f ∷ fs else f ∷ insert_common e fs

unfoldable pub most_common : Dict ℕ → Dict ℕ
most_common [] = []
most_common (e ∷ es) = insert_common e (most_common es)

-- a command with its count, where that is more than one
pub record Condensed : Type 0 where
  pub cmd : Text
  pub count : Option ℕ

unfoldable pub condensed_of : Text × ℕ → Condensed
condensed_of (cmd, n) = record { cmd = cmd; count = if ltb 1 n then some n else none }

unfoldable pub condense_all : Dict ℕ → List Condensed
condense_all [] = []
condense_all (e ∷ counts) = condensed_of e ∷ condense_all counts

unfoldable pub condense_commands : List Text → List Condensed
condense_commands raw_commands = condense_all (most_common (counter raw_commands))

-- the phases, each where it is seen first
unfoldable pub phases_from : List (Option Text) → List Text → List Text
phases_from [] seen = []
phases_from (none ∷ categories) seen = phases_from categories seen
phases_from (some category ∷ categories) seen =
    if member category seen
    then phases_from categories seen
    else category ∷ phases_from categories (category ∷ seen)

-- an attempt at a login, as `_condense_auth` reads it
pub record AuthEvent : Type 0 where
  pub password : Option Text
  pub username : Option Text
  pub success : Bool

pub record AuthSummary : Type 0 where
  pub attempts : ℕ
  pub unique_passwords : ℕ
  pub usernames_tried : List Text
  pub passwords_sample : List Text
  pub success : Bool
  pub successful_user : Option Text
  pub successful_password : Option Text

-- what the loop keeps
pub record Seen : Type 0 where
  pub passwords : List Text
  pub usernames : List Text
  pub success : Bool
  pub successful_user : Option Text
  pub successful_password : Option Text

-- `if x and x not in xs: xs.append(x)`
unfoldable pub append_new : Option Text → List Text → List Text
append_new none xs = xs
append_new (some []) xs = xs
append_new (some (c ∷ x)) xs = if member (c ∷ x) xs then xs else xs ++ (c ∷ x) ∷ []

unfoldable pub see : Seen → AuthEvent → Seen
unfolding append_new
see s e = record {
  passwords = append_new e.password s.passwords;
  usernames = append_new e.username s.usernames;
  success = s.success || e.success;
  successful_user = if e.success then e.username else s.successful_user;
  successful_password = if e.success then e.password else s.successful_password;
}

unfoldable pub see_all : Seen → List AuthEvent → Seen
see_all s [] = s
see_all s (e ∷ events) = see_all (see s e) events

abbrev nothing_seen : Seen
nothing_seen = record {
  passwords = [];
  usernames = [];
  success = false;
  successful_user = none;
  successful_password = none;
}

summary_of : List AuthEvent → Seen → AuthSummary
summary_of events s = record {
  attempts = length events;
  unique_passwords = length s.passwords;
  usernames_tried = take 5 s.usernames;
  passwords_sample = take 5 s.passwords;
  success = s.success;
  successful_user = s.successful_user;
  successful_password = s.successful_password;
}

-- `_condense_auth`
unfoldable pub condense_auth : List AuthEvent → Option AuthSummary
unfolding summary_of nothing_seen
condense_auth [] = none
condense_auth (e ∷ events) = some (summary_of (e ∷ events) (see_all nothing_seen (e ∷ events)))
