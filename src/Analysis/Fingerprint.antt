-- ===== src/Analysis/Fingerprint.antt =====
-- The fingerprint of a session (src/analysis/session_fingerprint.py). The digest is a parameter,
-- and so is the search of a User-Agent pattern.
pub mod Register
use honey_mind.Prelude.{
  ℕ, ◌≤◌, Text, codes, eqb, eqb_iff, member, lower, strip, words, join, space, starts_with, take,
  drop, length, ltb, keep, map, or_else, Dict, lookup, insert, lookup-insert, lookup-insert_self,
  length-take, Bool, true, false, not, List, [], ◌∷◌, ◌++◌, if◌then◌else◌, Option, none, some,
  Bool-cases, All, ◌≡◌, refl, sym, ap, ◌∙◌, inl, inr, arith,
}

abbrev pub noise_cmds : List Text
noise_cmds =
    [] ∷ codes "exit" ∷ codes "quit" ∷ codes "logout" ∷ codes "clear" ∷ codes "history" ∷ []

-- `re.sub("^" + prefix, "", cmd)`
abbrev pub without_prefix : Text → Text → Text
without_prefix prefix cmd = if starts_with cmd prefix then drop (length prefix) cmd else cmd

-- `re.sub(r"^/usr/s?bin/", "", cmd)`
unfoldable pub without_usr : Text → Text
without_usr cmd =
    if starts_with cmd (codes "/usr/bin/")
    then drop (length (codes "/usr/bin/")) cmd
    else without_prefix (codes "/usr/sbin/") cmd

-- `_normalize_cmd`; a stripped text with its white space collapsed is its words with spaces between
unfoldable pub normalize_cmd : Text → Text
unfolding without_usr
normalize_cmd cmd =
    without_prefix (codes "/bin/") (without_usr (join (space ∷ []) (words (lower (strip cmd)))))

abbrev pub is_meaningful : Text → Bool
is_meaningful cmd = not (member (normalize_cmd cmd) noise_cmds)

unfoldable pub meaningful : List Text → List Text
meaningful commands = map normalize_cmd (keep is_meaningful commands)

-- `compute_sequence_hash`, with the digest
unfoldable pub compute_sequence_hash : (Text → Text) → ℕ → List Text → Option Text
unfolding meaningful
compute_sequence_hash md5 n commands =
    let first = take n (meaningful commands) in
    if ltb (length first) 3 then none else some (md5 (join (codes "|") first))

-- `match_hassh`: an exact match, and then the first one in eight characters
partial_match : Text → Dict Text → Option Text
partial_match hassh [] = none
partial_match hassh ((known, name) ∷ rest) =
    if starts_with hassh (take 8 known)
    then some (name ++ codes " (partial match)")
    else partial_match hassh rest

unfoldable pub match_hassh : Dict Text → Option Text → Option Text
unfolding partial_match
match_hassh known none = none
match_hassh known (some []) = none
match_hassh known (some (c ∷ hassh)) =
    or_else (lookup (c ∷ hassh) known) (partial_match (c ∷ hassh) known)

unfoldable pub first_prefix : Text → Dict Text → Option Text
first_prefix seq_hash [] = none
first_prefix seq_hash ((prefix, name) ∷ rest) =
    if starts_with seq_hash prefix then some name else first_prefix seq_hash rest

unfoldable pub match_sequence : Dict Text → Option Text → Option Text
match_sequence known none = none
match_sequence known (some []) = none
match_sequence known (some (c ∷ seq_hash)) = first_prefix (c ∷ seq_hash) known

unfoldable pub register_sequence : Text → Text → Dict Text → Dict Text
register_sequence [] tool_name known = known
register_sequence (c ∷ seq_hash) tool_name known = insert (take 8 (c ∷ seq_hash)) tool_name known

-- `identify_user_agent`
unfoldable pub identify_user_agent : (Text → Text → Bool) → Dict Text → Option Text → Option Text
identify_user_agent search patterns none = none
identify_user_agent search [] (some ua) = none
identify_user_agent search ((pattern, name) ∷ patterns) (some ua) =
    if search pattern ua then some name else identify_user_agent search patterns (some ua)

-- an event, as the fingerprint reads it
pub record SeenEvent : Type 0 where
  pub raw_command : Option Text
  pub user_agent : Option Text

commands_of : List SeenEvent → List Text
commands_of [] = []
commands_of (e ∷ events) = elim e.raw_command [
  | none ↦ commands_of events
  | some command ↦ command ∷ commands_of events
]

first_agent : List SeenEvent → Option Text
first_agent [] = none
first_agent (e ∷ events) = or_else e.user_agent (first_agent events)

pub record Signatures : Type 0 where
  pub md5 : Text → Text
  pub search : Text → Text → Bool
  pub hassh_known : Dict Text
  pub agents_known : Dict Text
  pub sequences_known : Dict Text

pub record Fingerprint : Type 0 where
  pub seq_hash : Option Text
  pub user_agent : Option Text
  pub ua_tool : Option Text
  pub hassh_tool : Option Text
  pub seq_tool : Option Text
  pub tool_match : Option Text

-- `fingerprint_session`
unfoldable pub fingerprint_session : Signatures → List SeenEvent → Option Text → Fingerprint
unfolding commands_of first_agent
fingerprint_session s events hassh =
    let seq_hash = compute_sequence_hash s.md5 7 (commands_of events) in
    let user_agent = first_agent events in
    let ua_tool = identify_user_agent s.search s.agents_known user_agent in
    let hassh_tool = match_hassh s.hassh_known hassh in
    let seq_tool = match_sequence s.sequences_known seq_hash in
    record {
      seq_hash = seq_hash;
      user_agent = user_agent;
      ua_tool = ua_tool;
      hassh_tool = hassh_tool;
      seq_tool = seq_tool;
      tool_match = or_else hassh_tool (or_else ua_tool seq_tool);
    }
