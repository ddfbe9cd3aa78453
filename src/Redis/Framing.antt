-- ===== src/Redis/Framing.antt =====
-- The framing of src/honeypots/redis_honeypot.py: `_extract_command`, and the replies that
-- `_process_command` makes of a text.
use honey_mind.Prelude.{
  ℕ, Text, codes, eqb, strip, split, starts_with, contains, join, show, length, ltb, newline, space,
  keep, Bool, true, false, not, ◌||◌, ◌&&◌, ◌==◌, List, [], ◌∷◌, ◌++◌, map, if◌then◌else◌, Option,
  none, some,
}

abbrev pub crlf : Text
crlf = 13 ∷ 10 ∷ []

unfoldable pub bulk : Text → Text
bulk val = codes "$" ++ show (length val) ++ crlf ++ val ++ crlf

-- the bulk strings of a RESP array: the line behind each length line
resp_parts : List Text → List Text
resp_parts [] = []
resp_parts (line ∷ []) = []
resp_parts (line ∷ next ∷ lines) = elim (starts_with line (codes "$")) [
  | true ↦ next ∷ resp_parts lines
  | false ↦ resp_parts (next ∷ lines)
]

non_blank : List Text → List Text
non_blank lines = keep (λ line. not (eqb line [])) (map strip lines)

command_of : List Text → Option Text
unfolding resp_parts
command_of [] = none
command_of (first ∷ lines) =
    if starts_with first (codes "*")
    then some (join (space ∷ []) (resp_parts lines))
    else some first

unfoldable pub extract_command : Text → Option Text
unfolding non_blank command_of
extract_command input = command_of (non_blank (split newline (strip input)))

-- `s.replace("\\e", c)` for an escape of two characters
unescape : ℕ → ℕ → Text → Text
unescape e c [] = []
unescape e c (d ∷ []) = d ∷ []
unescape e c (d ∷ f ∷ s) = elim ((d == b'\\') && (f == e)) [
  | true ↦ c ∷ unescape e c s
  | false ↦ d ∷ unescape e c (f ∷ s)
]

is_resp : Text → Bool
is_resp output =
    starts_with output (codes "+")
    || starts_with output (codes "-")
    || starts_with output (codes "$")
    || starts_with output (codes ":")
    || starts_with output (codes "*")

framed : Text → Text
framed output =
    if is_resp output
    then output
    else if not (contains output (newline ∷ [])) && ltb (length output) 100
    then codes "+" ++ output ++ crlf
    else bulk output

-- the end of `_process_command`: the action, else a hard-coded reply
unfoldable pub fallback : Option (Text → Text) → Text → Text → Text
unfolding framed is_resp unescape
fallback (some query) cmd command = framed (unescape b'n' 10 (unescape b'r' 13 (query command)))
fallback none cmd command =
    if eqb cmd (codes "PING") then codes "+PONG" ++ crlf else codes "+OK" ++ crlf
