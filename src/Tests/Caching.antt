-- ===== src/Tests/Caching.antt =====
-- Runs of the response cache (src/infra/data_store.py, src/infra/data_handler.py).
use honey_mind.Prelude.{
  ℕ, ◌+◌, ◌≤◌, Text, codes, eqb, length, lookup, insert, remove, ◌++◌, Dict, All, keep, Bool, true,
  false, List, [], ◌∷◌, Option, some, none, ◌≡◌, ◌≢◌, refl, arith,
}
use honey_mind.Llm.Limiter.{Limiter, init, can_invoke}
use honey_mind.Cache.Store.{Term, text, Row, DataStore, search, store, delete, clear, dump}
use honey_mind.Cache.Store.Lookup.{search-store}
use honey_mind.Cache.Terms.{normalize_search_terms}
use honey_mind.Cache.Handler.{
  Handler, Answer, hardcoded, llm, blocked, visitor, request, same_terms, answered,
}
use honey_mind.Cache.Chain.{Outcome, raised, nothing, result}
use honey_mind.Cache.Hits.Later.{requested, request_again}
use honey_mind.Cache.Hits.Budget.{model_answers, model_answers-within}
use honey_mind.Cache.Dispatch.{Route, path_length, is_match, chosen_route}
use honey_mind.Cache.Dispatch.Longest.{chosen_route-longest}

abbrev empty_store : DataStore
empty_store = record { structure = codes "command" ∷ []; search_method = []; rows = [] }

abbrev spaced : Dict Term
spaced = (codes "command", text (codes "ls  -la")) ∷ []

abbrev tight : Dict Term
tight = (codes "command", text (codes "ls -la")) ∷ []

abbrev handler : Handler
handler = record { data_store = empty_store; limiter = init 20 600; normalization_enabled = true }

abbrev reply_text : Text
reply_text = codes "total 0"

abbrev stored_row : Row
stored_row = record {
  is_static = false;
  fields = (codes "command", codes "ls -la") ∷ [];
  content = reply_text;
}

abbrev filled_store : DataStore
filled_store = record empty_store { rows = stored_row ∷ [] }

-- the definitions that the runs below compute with
program : Unit {0}
unfolding honey_mind.Cache.Store.str honey_mind.Cache.Store.condition
    honey_mind.Cache.Store.add_condition honey_mind.Cache.Store.where_clause
    honey_mind.Cache.Store.build_where_clause honey_mind.Cache.Store.compare_by
    honey_mind.Cache.Store.holds honey_mind.Cache.Store.matches honey_mind.Cache.Store.fetch_one
    honey_mind.Cache.Store.checked honey_mind.Cache.Store.search honey_mind.Cache.Store.add_column
    honey_mind.Cache.Store.columns honey_mind.Cache.Store.store honey_mind.Cache.Store.delete
    honey_mind.Cache.Store.clear honey_mind.Cache.Store.dump honey_mind.Cache.Store.required_fields
    honey_mind.Cache.Store.response_of honey_mind.Cache.Store.load_line
    honey_mind.Cache.Store.load_static_content honey_mind.Cache.Terms.request_type_for_key
    honey_mind.Cache.Terms.normalize_term honey_mind.Cache.Terms.normalize_all
    honey_mind.Cache.Terms.normalize_search_terms honey_mind.Cache.Handler.same_term
    honey_mind.Cache.Handler.same_terms honey_mind.Cache.Handler.keep_normalized
    honey_mind.Cache.Handler.raw_result honey_mind.Cache.Handler.store_response
    honey_mind.Cache.Handler.invoked honey_mind.Cache.Handler.respond
    honey_mind.Cache.Handler.raw_fallback honey_mind.Cache.Handler.normalized_result
    honey_mind.Cache.Handler.search_with_raw_fallback honey_mind.Cache.Handler.request
    honey_mind.Normalizer.normalize_command_input honey_mind.Normalizer.normalize_sql_input
    honey_mind.Normalizer.effective_type honey_mind.Normalizer.normalize_lookup_key
    honey_mind.Normalizer.Tokens.match_shell_operator honey_mind.Normalizer.Tokens.flush_token
    honey_mind.Normalizer.Tokens.step_quoted honey_mind.Normalizer.Tokens.step_backslash
    honey_mind.Normalizer.Tokens.step_operator honey_mind.Normalizer.Tokens.step_plain
    honey_mind.Normalizer.Tokens.step honey_mind.Normalizer.Tokens.scan
    honey_mind.Normalizer.Tokens.tokenize_shell_like honey_mind.Normalizer.Collapse.non_empty
    honey_mind.Normalizer.Collapse.put_pending honey_mind.Normalizer.Collapse.step
    honey_mind.Normalizer.Collapse.collapse_from
    honey_mind.Normalizer.Collapse.collapse_unquoted_whitespace honey_mind.Llm.Limiter.at_limit
    honey_mind.Llm.Limiter.known_visitor honey_mind.Llm.Limiter.can_invoke
    honey_mind.Llm.Limiter.can_invokes honey_mind.Cache.Dispatch.rstrip_slash
    honey_mind.Cache.Dispatch.text_or honey_mind.Cache.Dispatch.path_length
    honey_mind.Cache.Dispatch.insert_route honey_mind.Cache.Dispatch.sort_routes
    honey_mind.Cache.Dispatch.route_path honey_mind.Cache.Dispatch.is_match
    honey_mind.Cache.Dispatch.normalize_backend_name honey_mind.Cache.Dispatch.key_of
    honey_mind.Cache.Dispatch.chosen_route honey_mind.Cache.Dispatch.dispatch honey_mind.Prelude.eqb
    honey_mind.Prelude.starts_with honey_mind.Prelude.ends_with honey_mind.Prelude.contains
    honey_mind.Prelude.is_space honey_mind.Prelude.to_lower honey_mind.Prelude.to_upper
    honey_mind.Prelude.lower honey_mind.Prelude.upper honey_mind.Prelude.join
    honey_mind.Prelude.split_from honey_mind.Prelude.split honey_mind.Prelude.show
    honey_mind.Prelude.is_line_break honey_mind.Prelude.split_lines honey_mind.Prelude.drop_while
    honey_mind.Prelude.rstrip_cons honey_mind.Prelude.rstrip_by honey_mind.Prelude.strip_by
    honey_mind.Prelude.strip honey_mind.Prelude.strip_char honey_mind.Prelude.rstrip_char
    honey_mind.Prelude.words honey_mind.Prelude.lookup honey_mind.Prelude.insert
    honey_mind.Prelude.remove
program = tt

nothing_found : search eqb empty_store tight ≡ some none
unfolding program
nothing_found = refl

reply_stored : store empty_store tight false reply_text ≡ some filled_store
unfolding program
reply_stored = refl

search-store_example : search eqb filled_store tight ≡ some (some reply_text)
search-store_example =
    search-store eqb empty_store filled_store tight false reply_text refl nothing_found reply_stored

row_deleted : delete eqb filled_store tight ≡ some (empty_store, true)
unfolding program
row_deleted = refl

-- the handler after one call of the model
abbrev called_once : Handler
called_once = record handler {
  data_store = filled_store;
  limiter = (can_invoke (init 20 600) visitor 7).0;
}

spaced_not_found :
    search eqb empty_store (normalize_search_terms handler.normalization_enabled spaced) ≡ some none
unfolding program
spaced_not_found = refl

spaced_hit : request eqb handler spaced 7 (some reply_text) ≡ (called_once, answered llm reply_text)
unfolding program
spaced_hit = refl

reply_not_empty : reply_text ≢ []
reply_not_empty h = cc h

same_terms_normalized :
    normalize_search_terms handler.normalization_enabled tight
    ≡ normalize_search_terms handler.normalization_enabled spaced
unfolding program
same_terms_normalized = refl

-- requests that come between, one of which the model answers
abbrev between : List (Dict Term × ℕ × Option Text)
between =
    ((codes "command", text (codes "id")) ∷ [], 8, some (codes "uid=0")) ∷ (tight, 9, none) ∷ []

request_again_example :
    request eqb (requested eqb between called_once) tight 10 (some (codes "other"))
    ≡ (requested eqb between called_once, answered hardcoded reply_text)
request_again_example =
    request_again eqb handler called_once spaced tight 7 10 (some reply_text) (some (codes "other"))
      reply_text between refl spaced_not_found spaced_hit reply_not_empty same_terms_normalized

-- a store that holds the response under the raw spelling only
abbrev raw_store : DataStore
raw_store = record empty_store {
  rows = (record stored_row { fields = (codes "command", codes "ls  -la") ∷ [] }) ∷ [];
}

abbrev both_store : DataStore
both_store = record raw_store { rows = raw_store.rows ++ stored_row ∷ [] }

abbrev raw_handler : Handler
raw_handler = record handler { data_store = raw_store }

spelled_differently :
    same_terms (normalize_search_terms raw_handler.normalization_enabled spaced) spaced ≡ false
unfolding program
spelled_differently = refl

tight_not_found :
    search eqb raw_store (normalize_search_terms raw_handler.normalization_enabled spaced)
    ≡ some none
unfolding program
tight_not_found = refl

raw_found : search eqb raw_store spaced ≡ some (some reply_text)
unfolding program
raw_found = refl

both_stored :
    store raw_store
      (normalize_search_terms raw_handler.normalization_enabled spaced)
      false
      reply_text
    ≡ some both_store
unfolding program
both_stored = refl

model_answers-within_example :
    model_answers eqb
      ((spaced, 7, some reply_text) ∷ (tight, 8, some (codes "other")) ∷ between)
      handler
    ≤ 20
model_answers-within_example =
    model_answers-within eqb
      ((spaced, 7, some reply_text) ∷ (tight, 8, some (codes "other")) ∷ between) handler 20 600 7 9
      refl (omega arith) (omega arith) (omega arith) (omega arith)

abbrev routes : List Route
routes =
    (record { path = some (codes "/"); name = some (codes "web") })
    ∷ (record { path = some (codes "/api/"); name = some (codes "Api Backend") })
    ∷ (record { path = some (codes "/api/v1"); name = some (codes "v1") })
    ∷ []

abbrev api_v1 : Route
api_v1 = record { path = some (codes "/api/v1"); name = some (codes "v1") }

v1_chosen : chosen_route routes (codes "/api/v1/users") ≡ some api_v1
unfolding program
v1_chosen = refl

chosen_route-longest_example :
    All (λ q. path_length q ≤ path_length api_v1) (keep (is_match (codes "/api/v1/users")) routes)
chosen_route-longest_example = chosen_route-longest routes (codes "/api/v1/users") api_v1 v1_chosen

abbrev quiet : ℕ → Text → ℕ × Outcome Text
quiet asked command = (asked + 1, nothing)

abbrev failing : ℕ → Text → ℕ × Outcome Text
failing asked command = (asked + 10, raised)

abbrev echoing : ℕ → Text → ℕ × Outcome Text
echoing asked command = (asked, result command)
