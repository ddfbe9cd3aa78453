-- ===== src/Cache/Handler.antt =====
-- `DataHandler` (src/infra/data_handler.py): a request is answered from the data store, or by the
-- language model within the limiter's budget. What the model returns is an argument, `none` where
-- the call raises.
use honey_mind.Prelude.{
  ℕ, Text, codes, eqb, Dict, Bool, true, false, ◌&&◌, [], ◌∷◌, if◌then◌else◌, Option, none, some,
}
use honey_mind.Cache.Store.{Term, text, other, DataStore, search, store}
use honey_mind.Cache.Terms.{normalize_search_terms}
use honey_mind.Llm.Limiter.{Limiter, can_invoke}

pub record Handler : Type 0 where
  pub data_store : DataStore
  pub limiter : Limiter
  pub normalization_enabled : Bool

-- `session["_last_parser_action"]`
pub data Action : Type 0 where
  hardcoded llm blocked : Action

-- a response, or an exception that reaches the caller
pub data Answer : Type 0 where
  answered : Action → Text → Answer
  raised : Answer

pub data Found : Type 0 where
  hit : DataStore → Text → Found
  miss : Found
  sql_error : Found

-- `==` on two terms, and on two dictionaries with the same keys in the same order
unfoldable pub same_term : Term → Term → Bool
same_term (text s) (text t) = eqb s t
same_term (other s) (other t) = eqb s t
same_term a b = false

unfoldable pub same_terms : Dict Term → Dict Term → Bool
unfolding same_term
same_terms [] [] = true
same_terms ((j, v) ∷ a) ((k, w) ∷ b) = eqb j k && (same_term v w && same_terms a b)
same_terms a b = false

-- a response found under the raw terms is stored under the normalised ones
unfoldable pub keep_normalized : Option DataStore → Text → Found
keep_normalized none result = sql_error
keep_normalized (some s) result = hit s result

unfoldable pub raw_result : DataStore → Dict Term → Option (Option Text) → Found
unfolding keep_normalized
raw_result s lookup_info none = sql_error
raw_result s lookup_info (some none) = miss
raw_result s lookup_info (some (some [])) = miss
raw_result s lookup_info (some (some (c ∷ r))) =
    keep_normalized (store s lookup_info false (c ∷ r)) (c ∷ r)

-- the limiter knows one visitor
abbrev pub visitor : Text
visitor = codes "visitor"

unfoldable pub store_response : Handler → Option DataStore → Text → Handler × Answer
store_response h none response = (h, raised)
store_response h (some s) response = (record h { data_store = s }, answered llm response)

unfoldable pub invoked : Handler → Dict Term → Bool → Option Text → Handler × Answer
unfolding store_response
invoked h lookup_info false response =
    (h, answered blocked (codes "Internal error. Please try again later."))
invoked h lookup_info true none = (h, raised)
invoked h lookup_info true (some response) =
    store_response h (store h.data_store lookup_info false response) response

unfoldable pub respond : Handler → Dict Term → ℕ → Option Text → Found → Handler × Answer
unfolding invoked
respond h lookup_info now response (hit s result) =
    (record h { data_store = s }, answered hardcoded result)
respond h lookup_info now response sql_error = (h, raised)
respond h lookup_info now response miss =
    let (limiter, ok) = can_invoke h.limiter visitor now in
    invoked (record h { limiter = limiter }) lookup_info ok response

module _ (sql_like : Text → Text → Bool) where
  unfoldable pub raw_fallback : DataStore → Dict Term → Dict Term → Found
  unfolding raw_result
  raw_fallback s lookup_info raw_info =
      if same_terms lookup_info raw_info
      then miss
      else raw_result s lookup_info (search sql_like s raw_info)

  unfoldable pub normalized_result :
      DataStore → Dict Term → Dict Term → Option (Option Text) → Found
  unfolding raw_fallback
  normalized_result s lookup_info raw_info none = sql_error
  normalized_result s lookup_info raw_info (some none) = raw_fallback s lookup_info raw_info
  normalized_result s lookup_info raw_info (some (some [])) = raw_fallback s lookup_info raw_info
  normalized_result s lookup_info raw_info (some (some (c ∷ r))) = hit s (c ∷ r)

  unfoldable pub search_with_raw_fallback : Handler → Dict Term → Found
  unfolding normalized_result
  search_with_raw_fallback h raw_info =
      let lookup_info = normalize_search_terms h.normalization_enabled raw_info in
      normalized_result h.data_store lookup_info raw_info (search sql_like h.data_store lookup_info)

  -- `request`, at the time `now`
  unfoldable pub request : Handler → Dict Term → ℕ → Option Text → Handler × Answer
  unfolding respond
  request h info now response =
      respond h (normalize_search_terms h.normalization_enabled info) now response
        (search_with_raw_fallback h info)
