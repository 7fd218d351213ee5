-- ===== src/Gateway/Guard.antt =====
-- services/api-gateway/app/utils and serializers: the middlewares that stand before the gateway's own routes. The
-- names of a request's headers are in lower case, as ASGI passes them; header names that the source
-- sets are written so.
pub mod Headers
pub mod Admission
pub mod Bearer
use back_end.Prelude.{
  ℕ, String, Bool, true, false, Option, none, some, List, [], ◌∷◌, ◌==◌, string_eq, nat_eq,
  if◌then◌else◌, ◌||◌, not,
}
use back_end.Prelude.Dict
use back_end.Prelude.Dict.{Dict}
use back_end.Prelude.Exec.{Exn, app_error, raised}
use back_end.Prelude.Text.{len, drop, starts_with, strip}
use back_end.Shared.Exceptions.{ErrorResponse}
use back_end.Shared.Json.{Json, null, bool, num, str, obj, Fields, nil, field, get, is_truthy}
use back_end.Shared.Jwt.{Jwt}
use back_end.Shared.Middleware.{any_prefix}
use back_end.Shared.ServiceToken.{mint_service_token}
use back_end.Gateway.Routes.{Settings}

-- PyJWT, and `str` of a number and of a dictionary.
pub record Gateway : Type 0 where
  pub settings : Settings
  pub open settings use *
  pub jwt : Jwt
  pub str_int : ℕ → String
  pub str_dict : Fields → String

pub record Scope : Type 0 where
  pub type : String
  pub path : String
  pub headers : Dict String String
  pub client : Option String

-- What a middleware does with a request: pass it on, perhaps changed, answer it, or raise.
pub data Outcome : Type 0 where
  passes : Scope → Outcome
  answers : ErrorResponse → Outcome
  fails : Exn → Outcome

unfoldable pub public_path_prefixes : List String
public_path_prefixes =
    "/health" ∷ "/api/docs" ∷ "/api/openapi.json" ∷ "/api/auth/onboarding" ∷ "/api/auth/login"
    ∷ "/api/auth/refresh" ∷ "/api/auth/google" ∷ "/api/auth/password" ∷ "/media" ∷ "/tutorials" ∷ []

unfoldable pub is_public : String → Bool
is_public path = any_prefix path public_path_prefixes

unfoldable pub served_locally : String → Bool
served_locally path = any_prefix path ("/media" ∷ "/tutorials" ∷ "/health" ∷ [])

-- `_STRIP`
unfoldable pub identity_headers : List String
identity_headers =
    "x-user-id" ∷ "x-tenant-id" ∷ "x-role-id" ∷ "x-is-superuser" ∷ "x-service-token" ∷ []

-- The `for` loop that deletes the client's own identity headers.
unfoldable pub strip_headers : List String → Dict String String → Dict String String
strip_headers [] headers = headers
strip_headers (name ∷ names) headers = strip_headers names (Dict.pop name headers)

-- `for key, value in …: headers[key] = value`
unfoldable pub set_headers : Dict String String → Dict String String → Dict String String
set_headers [] headers = headers
set_headers ((name, value) ∷ more) headers = set_headers more (Dict.put name value headers)

module _ (g : Gateway) where
  -- `str(value)`
  abbrev pub str_of : Json → String
  str_of null = "None"
  str_of (bool true) = "True"
  str_of (bool false) = "False"
  str_of (num n) = g.str_int n
  str_of (str s) = s
  str_of (obj d) = g.str_dict d

  -- The text of a claim that is there and not `None`.
  abbrev pub claim_text : Option Json → Option String
  claim_text none = none
  claim_text (some null) = none
  claim_text (some v) = some (str_of v)

  abbrev pub header : String → Option String → Dict String String
  header name none = []
  header name (some value) = (name, value) ∷ []

  -- The dictionary of a user, a superuser mark, a tenant and a role.
  unfoldable pub identity_dict :
      String → String → Option String → Option String → Dict String String
  identity_dict user superuser tenant role = set_headers (header "x-role-id" role) (
      set_headers (header "x-tenant-id" tenant)
        (("x-user-id", user) ∷ ("x-is-superuser", superuser) ∷ []))

  -- `identity_headers_from_claims`, by the claim `sub`; with none, `claims["sub"]` raises.
  unfoldable pub identity_headers_from_claims : Json → Fields → Dict String String
  identity_headers_from_claims sub claims =
      identity_dict (str_of sub) (if is_truthy (get "is_superuser" claims) then "true" else "false")
        (claim_text (get "tenant_id" claims)) (claim_text (get "role_id" claims))

  -- `decode_user_token`; `none` is `InvalidTokenError`
  unfoldable pub decode_user_token : ℕ → String → Option Fields
  decode_user_token now token = g.jwt.decode now token g.secret_key ("HS256" ∷ [])

  abbrev pub with_identity : Scope → Option Json → Fields → Outcome
  with_identity scope none claims = fails (raised "KeyError")
  with_identity scope (some sub) claims = passes (record scope {
    headers = set_headers (identity_headers_from_claims sub claims) scope.headers;
  })

  abbrev pub with_claims : Scope → Option Fields → Outcome
  with_claims scope none = answers (record { status_code = 401; detail = "invalid token" })
  with_claims scope (some claims) = with_identity scope (get "sub" claims) claims

  abbrev pub or_empty : Option String → String
  or_empty none = ""
  or_empty (some s) = s

  -- From the reading of the `authorization` header on.
  unfoldable pub check_bearer : ℕ → Scope → String → Outcome
  check_bearer now scope auth =
      if starts_with auth "Bearer "
      then with_claims scope (decode_user_token now (strip (drop 7 auth)))
      else answers (record { status_code = 401; detail = "missing bearer token" })

  -- The request without the client's identity headers, and with the gateway's own token unless the
  -- gateway serves the path itself.
  unfoldable pub sanitized : ℕ → Scope → Scope
  sanitized now scope =
      let headers = strip_headers identity_headers scope.headers in
      let token = mint_service_token g.jwt now g.inter_service_secret "api-gateway" 60 in
      if served_locally scope.path
      then record scope { headers = headers }
      else record scope { headers = Dict.put "x-service-token" token headers }

  abbrev pub admit : ℕ → Scope → Outcome
  admit now scope =
      if is_public scope.path
      then passes scope
      else check_bearer now scope (or_empty (Dict.get "authorization" scope.headers))

  -- `GatewayAuthMiddleware.__call__`; the tokens are minted and read at two times, in seconds.
  unfoldable pub authenticate : ℕ → ℕ → Scope → Outcome
  authenticate minted_at now scope =
      if scope.type == "http" then admit now (sanitized minted_at scope) else passes scope
