-- ===== src/Cache/Hits/Budget.antt =====
-- How often `DataHandler.request` (src/infra/data_handler.py) answers with the language model. The
-- limiter knows one visitor, so that all clients share its budget.
use honey_mind.Prelude.{
  ℕ, ◌+◌, ◌*◌, ◌≤◌, ◌<◌, lookup, Text, Dict, Bool, true, false, subst, List, [], ◌∷◌, Option, none,
  some, if◌then◌else◌, ◌≡◌, ◌⊎◌, inl, inr, refl, arith,
}
use honey_mind.Cache.Store.{Term, DataStore, store}
use honey_mind.Cache.Terms.{normalize_search_terms}
use honey_mind.Cache.Handler.{
  Handler, Answer, hardcoded, llm, blocked, answered, raised, Found, hit, miss, sql_error,
  search_with_raw_fallback, visitor, store_response, invoked, respond, request,
}
use honey_mind.Llm.Limiter.{Limiter, init, can_invoke}
use honey_mind.Llm.Limiter.Budget.{
  used, count_in, Rising, Window, can_invoke-settings, can_invoke-budget, can_invoke-Window,
}

-- the answers of the model: one or none
abbrev pub of_model : Answer → ℕ
of_model (answered llm text) = 1
of_model (answered hardcoded text) = 0
of_model (answered blocked text) = 0
of_model raised = 0

-- A request whose answer is not the model's, with the limiter as it was, or one for which the
-- limiter was asked: the model answers at most where it agreed.
abbrev Asks : Limiter → ℕ → Handler × Answer → Type 0
Asks l now (h', a) =
    ((h'.limiter ≡ l) × (of_model a ≡ 0))
    ⊎ ((h'.limiter ≡ (can_invoke l visitor now).0)
        × (of_model a ≤ (if (can_invoke l visitor now).1 then 1 else 0)))

store_response-limiter :
    (h : Handler) (o : Option DataStore) (response : Text)
    → ((store_response h o response).0.limiter ≡ h.limiter)
      × (of_model (store_response h o response).1 ≤ 1)
unfolding store_response
store_response-limiter h none response = (refl, omega arith)
store_response-limiter h (some s) response = (refl, omega arith)

invoked-limiter :
    (h : Handler) (terms : Dict Term) (ok : Bool) (response : Option Text)
    → ((invoked h terms ok response).0.limiter ≡ h.limiter)
      × (of_model (invoked h terms ok response).1 ≤ (if ok then 1 else 0))
unfolding invoked
invoked-limiter h terms false response = (refl, omega arith)
invoked-limiter h terms true none = (refl, omega arith)
invoked-limiter h terms true (some response) =
    store_response-limiter h (store h.data_store terms false response) response

respond-Asks :
    (h : Handler) (terms : Dict Term) (now : ℕ) (response : Option Text) (f : Found)
    → Asks h.limiter now (respond h terms now response f)
unfolding respond
respond-Asks h terms now response (hit s r) = inl (refl, refl)
respond-Asks h terms now response sql_error = inl (refl, refl)
respond-Asks h terms now response miss =
    let (limiter, ok) = can_invoke h.limiter visitor now in
    inr (invoked-limiter (record h { limiter = limiter }) terms ok response)

-- the times of requests, and how many of them the model answers
abbrev pub times_of : List (Dict Term × ℕ × Option Text) → List ℕ
times_of [] = []
times_of ((info, now, response) ∷ requests) = now ∷ times_of requests

module _ (sql_like : Text → Text → Bool) where
  abbrev pub model_answers : List (Dict Term × ℕ × Option Text) → Handler → ℕ
  model_answers [] h = 0
  model_answers ((info, now, response) ∷ requests) h =
      let (h', a) = request sql_like h info now response in of_model a + model_answers requests h'

  request-Asks :
      (h : Handler) (info : Dict Term) (now : ℕ) (response : Option Text)
      → Asks h.limiter now (request sql_like h info now response)
  unfolding request
  request-Asks h info now response =
      respond-Asks h (normalize_search_terms h.normalization_enabled info) now response
        (search_with_raw_fallback sql_like h info)

  later-Window :
      (l : Limiter) (lo now hi : ℕ) → Window l visitor lo hi → lo ≤ now → Window l visitor now hi
  later-Window l lo now hi w h = record {
    positive = w.positive;
    within = w.within;
    short = w.short;
    reached_in = λ r e. (omega (arith, w.reached_in r e), (w.reached_in r e).1);
  }

  within_budget :
      (requests : List (Dict Term × ℕ × Option Text)) (h : Handler) (l : Limiter) (lo hi : ℕ)
      → h.limiter ≡ l
      → Window l visitor lo hi
      → hi ≤ lo + l.time_period_in_seconds * 1000000
      → Rising lo hi (times_of requests)
      → model_answers requests h + used l visitor ≤ l.invokes_limit
  within_budget [] h l lo hi same w fits rising = omega (arith, w.within)
  within_budget ((info, now, response) ∷ requests) h l lo hi same w fits (a, b, rising) =
      let (h', answer) = request sql_like h info now response in
      let asks : Asks l now (h', answer) =
        subst (λ (x : Limiter). Asks x now (h', answer)) same (request-Asks h info now response) in
      elim asks [
        | inl (kept, no_model) ↦ omega (
          arith,
          no_model,
          within_budget requests h' l now hi kept (later-Window l lo now hi w a) (omega arith)
              rising,
        )
        | inr (counted, at_most) ↦
            let (ok, n) = can_invoke-budget l visitor lo hi now w a b in
            let (same_limit, same_period) = can_invoke-settings l visitor now in
            let rest =
              within_budget requests h' (can_invoke l visitor now).0 now hi counted
                (can_invoke-Window l visitor lo hi now w fits a b) (rw same_period (omega arith))
                rising in
            ground (arith, ok, n, same_limit, rest, at_most, w.within)
      ]

  -- Within one period, which is less than a day, and on a clock that does not run backwards, a
  -- handler with a new limiter, whose limit is positive, answers at most as many requests with the
  -- model as the limit, whoever sends them and however many there are; all clients together have
  -- the one budget.
  pub model_answers-within :
      (requests : List (Dict Term × ℕ × Option Text)) (h : Handler) (limit period lo hi : ℕ)
      → h.limiter ≡ init limit period
      → 0 < limit
      → period < 86400
      → hi ≤ lo + period * 1000000
      → Rising lo hi (times_of requests)
      → model_answers requests h ≤ limit
  unfolding used count_in lookup
  model_answers-within requests h limit period lo hi new pos short fits rising =
      let fresh : used (init limit period) visitor ≡ 0 = refl in
      omega (
        arith,
        fresh,
        within_budget requests h (init limit period) lo hi new
            (record { positive = pos; within = omega arith; short = short; reached_in = λ r e. cc })
            fits rising,
      )
