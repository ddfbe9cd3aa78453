-- ===== src/Llm/Provider.antt =====
-- Which provider, key and headers a call uses (src/llm_providers/llm_utils.py). The environment is
-- an argument; an empty variable counts as unset where the code tests its truth.
use honey_mind.Prelude.{
  Text, codes, eqb, contains, starts_with, ends_with, strip, lower, drop, any_of, Bool, true, false,
  not, ◌||◌, ◌&&◌, [], ◌∷◌, ◌++◌, if◌then◌else◌, Option, none, some, or_else,
}

pub data Provider : Type 0 where
  bedrock openai openai_compatible anthropic ollama : Provider

pub data Error : Type 0 where
  unknown_provider no_usable_provider missing_api_key unknown_model : Error

pub data Result {ℓ} (A : Type ℓ) : Type ℓ where
  ok : A → Result A
  err : Error → Result A

-- `os.getenv`, and the truth of an optional text
abbrev pub Env : Type 0
Env = Text → Option Text

unfoldable pub truthy : Option Text → Option Text
truthy none = none
truthy (some []) = none
truthy (some (c ∷ s)) = some (c ∷ s)

abbrev pub is_truthy : Option Text → Bool
is_truthy o = elim (truthy o) [ none ↦ false | some s ↦ true ]

abbrev pub default_openai_base_url : Text
default_openai_base_url = codes "https://api.openai.com/v1"

abbrev pub default_anthropic_base_url : Text
default_anthropic_base_url = codes "https://api.anthropic.com"

abbrev pub default_ollama_base_url : Text
default_ollama_base_url = codes "http://localhost:11434"

unfoldable pub normalize_provider : Text → Result Provider
normalize_provider llm_provider =
    let provider = lower (strip llm_provider) in
    if eqb provider (codes "bedrock")
    then ok bedrock
    else if eqb provider (codes "openai")
    then ok openai
    else if eqb provider (codes "openai_compatible")
    then ok openai_compatible
    else if eqb provider (codes "anthropic")
    then ok anthropic
    else if eqb provider (codes "ollama")
    then ok ollama
    else err unknown_provider

unfoldable pub looks_like_bedrock_model_id : Text → Bool
looks_like_bedrock_model_id model_id =
    any_of (contains model_id) (
      codes "anthropic.claude"
      ∷ codes "us.anthropic.claude"
      ∷ codes "ai21.jamba"
      ∷ codes "jamba"
      ∷ codes "amazon."
      ∷ codes "meta."
      ∷ codes "mistral."
      ∷ codes "cohere."
      ∷ [])
    && contains model_id (codes ":")

-- `llm_base_url or os.getenv("LLM_BASE_URL") or os.getenv("OPENAI_BASE_URL")`: the last one stands
-- even if it is empty
unfoldable pub effective_base_url : Env → Option Text → Option Text
effective_base_url env llm_base_url =
    or_else (truthy llm_base_url)
      (or_else (truthy (env (codes "LLM_BASE_URL"))) (env (codes "OPENAI_BASE_URL")))

unfoldable pub with_base_url : Result Provider → Option Text → Result (Provider × Option Text)
with_base_url (ok p) base_url = ok (p, base_url)
with_base_url (err e) base_url = err e

unfoldable pub default_provider : Env → Option Text → Text → Result (Provider × Option Text)
default_provider env base_url model_id =
    if looks_like_bedrock_model_id model_id
    then ok (bedrock, base_url)
    else if is_truthy base_url
    then ok (openai_compatible, base_url)
    else if is_truthy (env (codes "OPENAI_API_KEY"))
    then ok (openai, some default_openai_base_url)
    else if is_truthy (env (codes "ANTHROPIC_API_KEY")) && starts_with model_id (codes "claude")
    then ok (anthropic, some default_anthropic_base_url)
    else err no_usable_provider

unfoldable pub resolve_provider :
    Env → Option Text → Option Text → Text → Result (Provider × Option Text)
unfolding default_provider with_base_url effective_base_url
resolve_provider env llm_provider llm_base_url model_id =
    let base_url = effective_base_url env llm_base_url in
    elim (truthy llm_provider) [
      | some p ↦ with_base_url (normalize_provider p) base_url
      | none ↦ default_provider env base_url model_id
    ]

unfoldable pub provider_key : Env → Provider → Option Text → Option Text
provider_key env openai llm_api_key = env (codes "OPENAI_API_KEY")
provider_key env anthropic llm_api_key = env (codes "ANTHROPIC_API_KEY")
provider_key env p llm_api_key = llm_api_key

-- the key that the variable named in the configuration holds
unfoldable pub named_key : Env → Option Text → Option Text
named_key env none = none
named_key env (some name) = truthy (env name)

-- a key that is more than white space
unfoldable pub given_key : Option Text → Option Text
given_key none = none
given_key (some key) = elim (strip key) [ [] ↦ none | c ∷ s ↦ some key ]

unfoldable pub resolve_api_key : Env → Provider → Option Text → Option Text → Option Text
unfolding provider_key named_key given_key
resolve_api_key env provider llm_api_key llm_api_key_env =
    or_else (named_key env (truthy llm_api_key_env))
      (or_else (given_key llm_api_key) (provider_key env provider llm_api_key))

-- `ipaddress` and `urlparse` are the standard library's: the host of a URL, and whether it is an
-- address of a loop-back, private or link-local network
pub record UrlLibrary : Type 0 where
  pub hostname : Text → Text
  pub is_local_address : Text → Bool

unfoldable pub is_local_url : UrlLibrary → Text → Bool
is_local_url lib base_url =
    let host = lower (lib.hostname base_url) in
    eqb host (codes "localhost")
    || eqb host (codes "host.docker.internal")
    || ends_with host (codes ".local")
    || lib.is_local_address host

unfoldable pub allows_no_api_key : UrlLibrary → Text → Option Bool → Bool
unfolding is_local_url
allows_no_api_key lib base_url (some true) = true
allows_no_api_key lib base_url other = is_local_url lib base_url

-- `token or None`
unfoldable pub non_empty : Text → Option Text
non_empty [] = none
non_empty (c ∷ s) = some (c ∷ s)

unfoldable pub normalize_bearer_token : Option Text → Option Text
unfolding non_empty
normalize_bearer_token api_key = elim (truthy api_key) [
  | none ↦ none
  | some key ↦
      let token = strip key in
      non_empty
        (if starts_with (lower token) (codes "bearer ") then strip (drop 7 token) else token)
]

-- the value of the header `Authorization`, if there is one
unfoldable pub build_auth_headers : Option Text → Option Text
build_auth_headers api_key = elim (normalize_bearer_token api_key) [
  | none ↦ none
  | some token ↦ some (codes "Bearer " ++ token)
]

-- the first check of `_invoke_openai_chat`, `_invoke_anthropic` and, by the lack of one, the others
unfoldable pub check_key :
    UrlLibrary → Provider → Text → Option Text → Option Bool → Result (Unit {0})
check_key lib openai base_url key allow = if is_truthy key then ok tt else err missing_api_key
check_key lib anthropic base_url key allow = if is_truthy key then ok tt else err missing_api_key
check_key lib openai_compatible base_url key allow =
    if not (allows_no_api_key lib base_url allow) && not (is_truthy key)
    then err missing_api_key
    else ok tt
check_key lib p base_url key allow = ok tt
