-- ===== src/Gateway/RateLimit.antt =====
-- services/api-gateway/app/services/ratelimit.py, and `RateLimitMiddleware`. A counter of Redis is
-- its value and the second at which it expires; from then on it is missing. The process and Redis
-- read one clock, in seconds.
pub mod Windows
use back_end.Prelude.{
  ℕ, ◌+◌, ◌/◌, String, Bool, true, false, Option, none, some, List, [], ◌∷◌, ◌==◌, string_eq,
  nat_eq, if◌then◌else◌, ◌||◌, not, ltb, leb, join,
}
use back_end.Prelude.Dict
use back_end.Prelude.Dict.{Dict}
use back_end.Shared.Middleware.{any_prefix}
use back_end.Gateway.Guard.{Scope, Outcome, passes, answers}

pub record Counter : Type 0 where
  pub count : ℕ
  pub expires_at : Option ℕ

abbrev pub Counters : Type 0
Counters = Dict String Counter

abbrev pub is_expired : ℕ → Option ℕ → Bool
is_expired now none = false
is_expired now (some at) = leb at now

abbrev pub increased : ℕ → Option Counter → Counter
increased now none = record { count = 1; expires_at = none }
increased now (some c) =
    if is_expired now c.expires_at
    then record { count = 1; expires_at = none }
    else record c { count = c.count + 1 }

-- `INCR key`: the new counter
unfoldable pub incr : ℕ → String → Counters → Counter × Counters
incr now key counters =
    let c = increased now (Dict.get key counters) in (c, Dict.put key c counters)

-- `EXPIRE key seconds`, on a counter that is there
unfoldable pub expire : ℕ → String → ℕ → Counter → Counters → Counters
expire now key ttl c counters = Dict.put key (record c { expires_at = some (now + ttl) }) counters

-- `f"ratelimit:{key}:{window}"`, `str` of a number being the first argument
abbrev pub redis_key : (ℕ → String) → String → ℕ → String
redis_key str_int key window = join ("ratelimit:" ∷ key ∷ ":" ∷ str_int window ∷ [])

-- The request counted: `INCR`, then `EXPIRE` of a counter that has just begun.
unfoldable pub hit : ℕ → String → Counters → Counter × Counters
unfolding incr expire
hit now k counters =
    let (c, counters') = incr now k counters in
    (c, if c.count == 1 then expire now k 70 c counters' else counters')

module _ (str_int : ℕ → String) (limit : ℕ) where
  -- `is_rate_limited`
  unfoldable pub is_rate_limited : ℕ → String → Counters → Bool × Counters
  is_rate_limited now key counters =
      let (c, counters') = hit now (redis_key str_int key (now / 60)) counters in
      (ltb limit c.count, counters')

  abbrev pub client_host : Option String → String
  client_host none = "unknown"
  client_host (some host) = host

  -- The response to a request, or its passing on, by `is_rate_limited`.
  abbrev pub limited : Scope → Bool × Counters → Outcome × Counters
  limited scope (true, counters) =
      (answers (record { status_code = 429; detail = "rate limit exceeded" }), counters)
  limited scope (false, counters) = (passes scope, counters)

  -- `RateLimitMiddleware.__call__`
  unfoldable pub limit_rate : ℕ → Scope → Counters → Outcome × Counters
  unfolding is_rate_limited
  limit_rate now scope counters =
      if not (scope.type == "http") || any_prefix scope.path ("/health" ∷ [])
      then (passes scope, counters)
      else limited scope (is_rate_limited now (client_host scope.client) counters)
