-- ===== src/Shared/Middleware.antt =====
-- shared/src/shared/auth/middleware.py: the check of `X-Service-Token` before a service's own code.
use back_end.Prelude.{
  ℕ, String, Bool, false, Option, none, some, List, [], ◌∷◌, ◌==◌, string_eq, if◌then◌else◌, ◌||◌,
  not,
}
use back_end.Prelude.Text.{starts_with}
use back_end.Shared.Exceptions.{ErrorResponse}
use back_end.Shared.Json.{Fields}
use back_end.Shared.Jwt.{Jwt}
use back_end.Shared.ServiceToken.{decode_service_token}

-- What the middleware reads of an ASGI scope; the header's bytes are taken as the text they spell.
pub record Scope : Type 0 where
  pub type : String
  pub path : String
  pub service_token : Option String

pub record ServiceTokenMiddleware : Type 0 where
  pub secret : String
  pub exempt_paths : List String
  pub exempt_prefixes : List String

-- The wrapped application is called, or this response is sent.
pub data Outcome : Type 0 where
  passed : Outcome
  responds : ErrorResponse → Outcome

abbrev pub is_in : String → List String → Bool
is_in path [] = false
is_in path (p ∷ ps) = let rest = is_in path ps in p == path || rest

abbrev pub any_prefix : String → List String → Bool
any_prefix path [] = false
any_prefix path (p ∷ ps) = let rest = any_prefix path ps in starts_with path p || rest

unfoldable pub is_exempt : ServiceTokenMiddleware → String → Bool
unfolding starts_with
is_exempt m path = is_in path m.exempt_paths || any_prefix path m.exempt_prefixes

abbrev pub or_empty : Option String → String
or_empty none = ""
or_empty (some s) = s

abbrev pub guard : Option Fields → Outcome
guard none = responds (record { status_code = 401; detail = "invalid service token" })
guard (some claims) = passed

-- `__call__`, at a time in seconds
unfoldable pub serve_scope : Jwt → ServiceTokenMiddleware → ℕ → Scope → Outcome
unfolding is_exempt decode_service_token
serve_scope j m now scope =
    if not (scope.type == "http") || is_exempt m scope.path
    then passed
    else guard (decode_service_token j now (or_empty scope.service_token) m.secret)
