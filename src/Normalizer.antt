-- ===== src/Normalizer.antt =====
-- Input normalisation (src/core/input_normalizer.py): the keys under which attacker input is looked
-- up. The tokenizer and the white-space collapser stand in the children.
pub mod Tokens
pub mod Collapse
pub mod Http
pub mod Sql
use honey_mind.Prelude.{
  Text, codes, eqb, member, lower, space, join, strip, Bool, true, List, [], ◌∷◌, if◌then◌else◌,
  Option, none, some,
}
use honey_mind.Normalizer.Tokens.{tokenize_shell_like}
use honey_mind.Normalizer.Collapse.{collapse_unquoted_whitespace}
use honey_mind.Normalizer.Http.{normalize_http_path_or_query}

unfoldable pub normalize_command_input : Text → Text
unfolding strip
normalize_command_input raw = elim (strip raw) [
  | [] ↦ []
  | c ∷ s ↦ join (space ∷ []) (tokenize_shell_like (c ∷ s))
]

unfoldable pub normalize_sql_input : Text → Text
normalize_sql_input raw = collapse_unquoted_whitespace (b'\'' ∷ b'"' ∷ b'`' ∷ []) (strip raw)

-- `(request_type or "command").lower()`
unfoldable pub effective_type : Option Text → Text
effective_type none = codes "command"
effective_type (some []) = codes "command"
effective_type (some (c ∷ s)) = lower (c ∷ s)

unfoldable pub normalize_lookup_key : Text → Option Text → Text
unfolding effective_type
normalize_lookup_key raw request_type =
    let kind = effective_type request_type in
    if member kind (codes "http" ∷ codes "path" ∷ codes "args" ∷ codes "query_string" ∷ [])
    then normalize_http_path_or_query raw
    else if eqb kind (codes "sql")
    then normalize_sql_input raw
    else normalize_command_input raw
