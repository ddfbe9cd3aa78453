-- ===== src/Cache/Hits/Later.antt =====
-- What later requests of `DataHandler` (src/infra/data_handler.py) leave of a stored response.
use honey_mind.Prelude.{
  ℕ, Text, Dict, Bool, true, false, Bool-cases, List, [], ◌∷◌, Option, Option-cases, none, some,
  ◌≡◌, ◌≢◌, ◌⊎◌, inl, inr, refl, sym, ap, ◌∙◌,
}
use honey_mind.Cache.Store.{Term, Row, DataStore, build_where_clause, columns, search, store}
use honey_mind.Cache.Store.Lookup.{
  search-store, search-some, store-some, checked-cons, fetch_one-append_found,
}
use honey_mind.Cache.Terms.{normalize_search_terms}
use honey_mind.Cache.Handler.{
  Handler, hardcoded, llm, answered, Found, hit, miss, sql_error, same_terms, keep_normalized,
  raw_result, raw_fallback, normalized_result, search_with_raw_fallback, visitor, store_response,
  invoked, respond, request,
}
use honey_mind.Cache.Hits.{found-request, respond-llm}
use honey_mind.Llm.Limiter.{can_invoke}

-- a store that is as before, or has one response more
abbrev Extends : DataStore → DataStore → Type 0
Extends s s' =
    (s' ≡ s) ⊎ ((terms : Dict Term) × (content : Text) × (store s terms false content ≡ some s'))

abbrev FromHit : DataStore → Found → Type 0
FromHit s (hit s' r) = Extends s s'
FromHit s miss = Unit
FromHit s sql_error = Unit

keep_normalized-FromHit :
    (s : DataStore) (terms : Dict Term) (content : Text)
    → FromHit s (keep_normalized (store s terms false content) content)
unfolding keep_normalized
keep_normalized-FromHit s terms content = elim (Option-cases (store s terms false content)) [
  | inl e ↦ rw (e, keep_normalized) tt
  | inr (s', e) ↦ rw (e, keep_normalized) (inr (terms, content, e))
]

raw_result-FromHit :
    (s : DataStore) (terms : Dict Term) (o : Option (Option Text))
    → FromHit s (raw_result s terms o)
unfolding raw_result
raw_result-FromHit s terms none = tt
raw_result-FromHit s terms (some none) = tt
raw_result-FromHit s terms (some (some [])) = tt
raw_result-FromHit s terms (some (some (c ∷ r))) = keep_normalized-FromHit s terms (c ∷ r)

module _ (sql_like : Text → Text → Bool) where
  raw_fallback-FromHit :
      (s : DataStore) (terms raw : Dict Term) → FromHit s (raw_fallback sql_like s terms raw)
  unfolding raw_fallback
  raw_fallback-FromHit s terms raw = elim (Bool-cases (same_terms terms raw)) [
    | inl e ↦ rw (e) tt
    | inr e ↦ rw (e) (raw_result-FromHit s terms (search sql_like s raw))
  ]

  normalized_result-FromHit :
      (s : DataStore) (terms raw : Dict Term) (o : Option (Option Text))
      → FromHit s (normalized_result sql_like s terms raw o)
  unfolding normalized_result
  normalized_result-FromHit s terms raw none = tt
  normalized_result-FromHit s terms raw (some none) = raw_fallback-FromHit s terms raw
  normalized_result-FromHit s terms raw (some (some [])) = raw_fallback-FromHit s terms raw
  normalized_result-FromHit s terms raw (some (some (c ∷ r))) = inl refl

-- the handler behind a request: its store may have one response more
abbrev Follows : Handler → Handler → Type 0
Follows h h' =
    Extends h.data_store h'.data_store × (h'.normalization_enabled ≡ h.normalization_enabled)

store_response-Follows :
    (h : Handler) (terms : Dict Term) (response : Text)
    → Follows h (store_response h (store h.data_store terms false response) response).0
unfolding store_response
store_response-Follows h terms response =
    elim (Option-cases (store h.data_store terms false response)) [
      | inl e ↦ rw (e, store_response) (inl refl, refl)
      | inr (s', e) ↦ rw (e, store_response) (inr (terms, response, e), refl)
    ]

invoked-Follows :
    (h : Handler) (terms : Dict Term) (ok : Bool) (response : Option Text)
    → Follows h (invoked h terms ok response).0
unfolding invoked
invoked-Follows h terms false response = (inl refl, refl)
invoked-Follows h terms true none = (inl refl, refl)
invoked-Follows h terms true (some response) = store_response-Follows h terms response

respond-Follows :
    (h : Handler) (terms : Dict Term) (now : ℕ) (response : Option Text) (f : Found)
    → FromHit h.data_store f
    → Follows h (respond h terms now response f).0
unfolding respond
respond-Follows h terms now response (hit s r) from = (from, refl)
respond-Follows h terms now response sql_error from = (inl refl, refl)
respond-Follows h terms now response miss from =
    let (limiter, ok) = can_invoke h.limiter visitor now in
    invoked-Follows (record h { limiter = limiter }) terms ok response

module _ (sql_like : Text → Text → Bool) where
  request-Follows :
      (h : Handler) (info : Dict Term) (now : ℕ) (response : Option Text)
      → Follows h (request sql_like h info now response).0
  unfolding request search_with_raw_fallback
  request-Follows h info now response =
      let terms = normalize_search_terms h.normalization_enabled info in
      respond-Follows h terms now response (search_with_raw_fallback sql_like h info) (
        normalized_result-FromHit sql_like h.data_store terms info
          (search sql_like h.data_store terms))

  -- what a search finds it finds in a longer table too
  search-Extends :
      (s s' : DataStore) (terms : Dict Term) (found : Text)
      → Extends s s'
      → search sql_like s terms ≡ some (some found)
      → search sql_like s' terms ≡ some (some found)
  unfolding search build_where_clause
  search-Extends s s' terms found (inl e) h = rw e h
  search-Extends s s' terms found (inr (stored, content, e)) h =
      let row : Row = record {
        is_static = false;
        fields = columns s.structure stored;
        content = content;
      } in
      let cs = build_where_clause s terms in
      let (there, ne) = search-some sql_like s terms (some found) h in
      rw (store-some s s' stored false content e) (
        rw (fetch_one-append_found sql_like cs s.rows row found (sym there))
          (checked-cons cs (some found) ne))

  -- the handler behind a list of requests
  abbrev pub requested : List (Dict Term × ℕ × Option Text) → Handler → Handler
  requested [] h = h
  requested ((info, now, response) ∷ later) h =
      requested later (request sql_like h info now response).0

  found_later :
      (later : List (Dict Term × ℕ × Option Text)) (h : Handler) (terms : Dict Term) (found : Text)
      → search sql_like h.data_store terms ≡ some (some found)
      → (search sql_like (requested later h).data_store terms ≡ some (some found))
        × ((requested later h).normalization_enabled ≡ h.normalization_enabled)
  found_later [] h terms found there = (there, refl)
  found_later ((info, now, response) ∷ later) h terms found there =
      let h' = (request sql_like h info now response).0 in
      let (extends, same) = request-Follows h info now response in
      let (still, same') =
        found_later later h' terms found
          (search-Extends h.data_store h'.data_store terms found extends there) in
      (still, same' ∙ same)

  -- A request that the model answered is answered from the store from then on: whatever requests
  -- come between, every request whose normalised terms are the same gets the same response,
  -- whatever the model would return, without a call of the limiter and with the store left as it
  -- is. The first search must have found no row, the keys must be compared exactly, and the
  -- response must not be empty: an empty one is asked of the model again.
  pub request_again :
      (h h' : Handler) (info info' : Dict Term) (now now' : ℕ) (response response' : Option Text)
      (answer : Text) (later : List (Dict Term × ℕ × Option Text))
      → h.data_store.search_method ≡ []
      → search sql_like h.data_store (normalize_search_terms h.normalization_enabled info)
        ≡ some none
      → request sql_like h info now response ≡ (h', answered llm answer)
      → answer ≢ []
      → normalize_search_terms h.normalization_enabled info'
        ≡ normalize_search_terms h.normalization_enabled info
      → request sql_like (requested later h') info' now' response'
        ≡ (requested later h', answered hardcoded answer)
  unfolding request
  request_again h h' info info' now now' response response' [] later methods nothing e ne same =
      absurd (ne refl)
  request_again h h' info info' now now' response response' (c ∷ r) later methods nothing e ne
        same =
      let key = normalize_search_terms h.normalization_enabled info in
      let (_, stored, enabled, _) =
        respond-llm h h' key now response (search_with_raw_fallback sql_like h info) (c ∷ r) e in
      let (found, enabled') = found_later later h' key (c ∷ r) (
        search-store sql_like h.data_store h'.data_store key false (c ∷ r) methods nothing
          stored) in
      let same_key : normalize_search_terms (requested later h').normalization_enabled info' ≡ key =
        ap (λ b. normalize_search_terms b info') (enabled' ∙ enabled) ∙ same in
      found-request sql_like (requested later h') info' now' response' c r (rw same_key found)
