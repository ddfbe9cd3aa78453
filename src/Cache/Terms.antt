-- ===== src/Cache/Terms.antt =====
-- How the data handler (src/infra/data_handler.py) normalises the terms of a request.
use honey_mind.Prelude.{
  Text, codes, eqb, member, Dict, Bool, [], ◌∷◌, if◌then◌else◌, Option, none, some,
}
use honey_mind.Cache.Store.{Term, text, other}
use honey_mind.Normalizer.{normalize_lookup_key}

unfoldable pub request_type_for_key : Text → Option Text
request_type_for_key key =
    if eqb key (codes "command")
    then some (codes "command")
    else if eqb key (codes "query")
    then some (codes "sql")
    else if member key (codes "path" ∷ codes "args" ∷ codes "routing_key" ∷ [])
    then some (codes "http")
    else none

unfoldable pub normalize_term : Option Text → Term → Term
normalize_term none v = v
normalize_term (some kind) (text s) = text (normalize_lookup_key s (some kind))
normalize_term (some kind) (other s) = other s

unfoldable pub normalize_all : Dict Term → Dict Term
unfolding normalize_term
normalize_all [] = []
normalize_all ((key, v) ∷ info) =
    (key, normalize_term (request_type_for_key key) v) ∷ normalize_all info

-- `_normalize_search_terms`; the first argument is whether normalisation is enabled
unfoldable pub normalize_search_terms : Bool → Dict Term → Dict Term
normalize_search_terms enabled info = if enabled then normalize_all info else info
