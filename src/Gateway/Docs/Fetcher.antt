-- ===== src/Gateway/Docs/Fetcher.antt =====
-- services/api-gateway/app/services/docs_aggregator/fetcher.py, and `aggregated_openapi_json` of
-- merger.py. The state is the cache in Redis: the documents' texts by their keys.
use back_end.Prelude.{
  ℕ, String, Bool, Option, none, some, [], ◌∷◌, ◌==◌, string_eq, if◌then◌else◌, join,
}
use back_end.Prelude.Dict
use back_end.Prelude.Dict.{Dict}
use back_end.Prelude.Exec.{Exec, ok, err, Exn, Result, pure, ◌>>=◌, ◌>>◌}
use back_end.Shared.Jwt.{Jwt}
use back_end.Shared.ServiceToken.{mint_service_token}
use back_end.Gateway.Routes.{Settings, upstreams}
use back_end.Gateway.Docs.Merger.{Spec, Merged, merge_openapi}

-- What a service's `/openapi.json` gives: a document, `httpx.HTTPError` or `ValueError`, or another
-- exception.
pub data Fetched : Type 0 where
  fetched : Spec → Fetched
  unusable : Fetched
  crashed : Exn → Fetched

-- The surroundings: `json`, whether Redis answers, and the client, by address and service token.
pub record Services : Type 0 where
  pub jwt : Jwt
  pub loads : String → Result Spec
  pub dumps : Spec → String
  pub redis_up : Bool
  pub client : String → String → Fetched

-- `redis.get`, where any exception counts as nothing cached; an empty text is falsy.
abbrev pub cached_text : Services → String → Exec (Dict String String) (Option String)
cached_text v key redis = (
  ok (
      if v.redis_up
      then elim (Dict.get key redis) [
        | none ↦ none
        | some text ↦ if text == "" then none else some text
      ]
      else none),
  redis,
)

-- `redis.set`, whose exceptions are dropped; the entry lasts 60 seconds.
abbrev pub remember : Services → String → Spec → Exec (Dict String String) Unit
remember v key spec redis = (ok tt, if v.redis_up then Dict.put key (v.dumps spec) redis else redis)

abbrev pub use_fetched : Services → String → Fetched → Exec (Dict String String) (Option Spec)
use_fetched v key (fetched spec) redis = (remember v key spec >> pure (some spec)) redis
use_fetched v key unusable redis = (ok none, redis)
use_fetched v key (crashed e) redis = (err e, redis)

abbrev pub load_cached : Result Spec → Exec (Dict String String) (Option Spec)
load_cached (ok spec) redis = (ok (some spec), redis)
load_cached (err e) redis = (err e, redis)

module _ (v : Services) (settings : Settings) (now : ℕ) where
  abbrev pub or_fetch : String → String → Option String → Exec (Dict String String) (Option Spec)
  or_fetch key base_url (some text) = load_cached (v.loads text)
  or_fetch key base_url none =
      let token = mint_service_token v.jwt now settings.inter_service_secret "api-gateway" 60 in
      use_fetched v key (v.client (join (base_url ∷ "/openapi.json" ∷ [])) token)

  -- `_fetch_one`
  unfoldable pub fetch_one : String → String → Exec (Dict String String) (Option Spec)
  unfolding mint_service_token Dict.get Dict.put
  fetch_one name base_url = do
    let key = join ("openapi:" ∷ name ∷ [])
    text ← cached_text v key
    or_fetch key base_url text

  abbrev pub add_spec : String → Option Spec → Dict String Spec → Dict String Spec
  add_spec name none out = out
  add_spec name (some spec) out = Dict.put name spec out

  unfoldable pub fetch_each :
      Dict String String → Dict String Spec → Exec (Dict String String) (Dict String Spec)
  unfolding fetch_one Dict.put
  fetch_each [] out = pure out
  fetch_each ((name, url) ∷ urls) out = do
    spec ← fetch_one name url
    fetch_each urls (add_spec name spec out)

  -- `fetch_openapi_specs`
  unfoldable pub fetch_openapi_specs : Exec (Dict String String) (Dict String Spec)
  unfolding fetch_each upstreams
  fetch_openapi_specs = fetch_each (upstreams settings) []

  -- `aggregated_openapi_json`
  unfoldable pub aggregated_openapi_json : Exec (Dict String String) Merged
  unfolding fetch_openapi_specs merge_openapi
  aggregated_openapi_json = do specs ← fetch_openapi_specs; pure (merge_openapi specs)
