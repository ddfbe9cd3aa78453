-- ===== src/Cache/Hits.antt =====
-- When `DataHandler.request` (src/infra/data_handler.py) answers without the language model.
pub mod Later
pub mod Budget
use honey_mind.Prelude.{
  ℕ, Text, codes, Dict, Bool, true, false, [], ◌∷◌, Option, none, some, ◌≡◌, ◌≢◌, refl, arith, inl,
  inr, Bool-cases,
}
use honey_mind.Cache.Store.{Term, DataStore, search, store}
use honey_mind.Cache.Store.Lookup.{search-store}
use honey_mind.Cache.Terms.{normalize_search_terms}
use honey_mind.Cache.Handler.{
  Handler, hardcoded, llm, blocked, answered, Found, hit, miss, sql_error, same_terms,
  search_with_raw_fallback, visitor, store_response, invoked, respond, request,
}
use honey_mind.Llm.Limiter.{can_invoke}

module _ (sql_like : Text → Text → Bool) where
  -- A found response that is not empty is the answer; handler and limiter stay as they are.
  pub found-request :
      (h : Handler) (info : Dict Term) (now : ℕ) (response : Option Text) (c : ℕ) (r : Text)
      → search sql_like h.data_store (normalize_search_terms h.normalization_enabled info)
        ≡ some (some (c ∷ r))
      → request sql_like h info now response ≡ (h, answered hardcoded (c ∷ r))
  unfolding request search_with_raw_fallback
  found-request h info now response c r found = rw found

store_response-llm :
    (h h' : Handler) (o : Option DataStore) (response answer : Text)
    → store_response h o response ≡ (h', answered llm answer)
    → (response ≡ answer)
      × (o ≡ some h'.data_store)
      × (h'.normalization_enabled ≡ h.normalization_enabled)
      × (h'.limiter ≡ h.limiter)
unfolding store_response
store_response-llm h h' none response answer e = ground arith
store_response-llm h h' (some s) response answer e = ground arith

invoked-llm :
    (h h' : Handler) (lookup_info : Dict Term) (ok : Bool) (response : Option Text) (answer : Text)
    → invoked h lookup_info ok response ≡ (h', answered llm answer)
    → (response ≡ some answer)
      × (store h.data_store lookup_info false answer ≡ some h'.data_store)
      × (h'.normalization_enabled ≡ h.normalization_enabled)
      × (h'.limiter ≡ h.limiter)
unfolding invoked
invoked-llm h h' lookup_info false response answer e = ground arith
invoked-llm h h' lookup_info true none answer e = ground arith
invoked-llm h h' lookup_info true (some r) answer e =
    ground (arith, store_response-llm h h' (store h.data_store lookup_info false r) r answer)

-- An answer of the model is what it returned, and it is stored under the normalised terms.
pub respond-llm :
    (h h' : Handler) (lookup_info : Dict Term) (now : ℕ) (response : Option Text) (f : Found)
    (answer : Text)
    → respond h lookup_info now response f ≡ (h', answered llm answer)
    → (response ≡ some answer)
      × (store h.data_store lookup_info false answer ≡ some h'.data_store)
      × (h'.normalization_enabled ≡ h.normalization_enabled)
      × (h'.limiter ≡ (can_invoke h.limiter visitor now).0)
unfolding respond
respond-llm h h' lookup_info now response (hit s r) answer e = ground arith
respond-llm h h' lookup_info now response sql_error answer e = ground arith
respond-llm h h' lookup_info now response miss answer e =
    let (limiter, ok) = can_invoke h.limiter visitor now in
    invoked-llm (record h { limiter = limiter }) h' lookup_info ok response answer e

module _ (sql_like : Text → Text → Bool) where
  -- Where the keys are compared exactly and the normalised terms differ from the raw ones and find
  -- nothing, a response, not empty, that the raw terms find is the answer, and from then on the
  -- normalised terms find it, if it can be stored under them.
  pub raw_fallback_stored :
      (h : Handler) (s : DataStore) (info : Dict Term) (now : ℕ) (response : Option Text) (c : ℕ)
      (r : Text)
      → h.data_store.search_method ≡ []
      → same_terms (normalize_search_terms h.normalization_enabled info) info ≡ false
      → search sql_like h.data_store (normalize_search_terms h.normalization_enabled info)
        ≡ some none
      → search sql_like h.data_store info ≡ some (some (c ∷ r))
      → store h.data_store (normalize_search_terms h.normalization_enabled info) false (c ∷ r)
        ≡ some s
      → (request sql_like h info now response
          ≡ (record h { data_store = s }, answered hardcoded (c ∷ r)))
        × (search sql_like s (normalize_search_terms h.normalization_enabled info)
            ≡ some (some (c ∷ r)))
  unfolding request search_with_raw_fallback
  raw_fallback_stored h s info now response c r methods differ nothing raw stored = (
    rw (nothing, differ, raw, stored),
    search-store sql_like h.data_store s (normalize_search_terms h.normalization_enabled info) false
        (c ∷ r) methods nothing stored,
  )
