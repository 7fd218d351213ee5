-- ===== src/Gateway/Guard/Bearer.antt =====
-- A request with a bearer token that decodes passes `GatewayAuthMiddleware`.
use Prim.Native.String.{String, ◌++◌}
use back_end.Prelude.{eq_iff, ℕ, true, false, some, ◌≡◌, ◌∙◌, refl, ap, ◌==◌, string_eq}
use back_end.Prelude.Dict
use back_end.Prelude.Text.{drop, starts_with, strip, len}
use back_end.Prelude.Prefixes.{starts_with-append, drop-append}
use back_end.Shared.Json.{Json, Fields, get}
use back_end.Gateway.Guard.{
  Gateway, Scope, passes, is_public, set_headers, identity_headers_from_claims, decode_user_token,
  with_claims, check_bearer, sanitized, admit, authenticate,
}
use back_end.Gateway.Guard.Admission.{sanitized-IsAnonymous, not_identity, IsVouched}

-- `f"Bearer {token}"`
abbrev pub bearer : String → String
bearer token = "Bearer " ++ token

starts_with-bearer : (token : String) → starts_with (bearer token) "Bearer " ≡ true
unfolding starts_with
starts_with-bearer token = starts_with-append "Bearer " token "Bearer " refl

drop-bearer : (token : String) → drop 7 (bearer token) ≡ token
unfolding drop len
drop-bearer token = drop-append "Bearer " token

module _ (g : Gateway) where
  check_bearer-bearer :
      (now : ℕ) (scope : Scope) (token : String) (claims : Fields)
      → strip token ≡ token
      → decode_user_token g now token ≡ some claims
      → check_bearer g now scope (bearer token) ≡ with_claims g scope (some claims)
  unfolding check_bearer
  check_bearer-bearer now scope token claims no_space decoded =
      rw (starts_with-bearer token, drop-bearer token, no_space, decoded) refl

  -- The request that the gateway makes of one with a user's token.
  abbrev pub put_on : ℕ → Scope → Json → Fields → Scope
  put_on minted_at scope sub claims =
      let clean = sanitized g minted_at scope in
      record clean {
        headers = set_headers (identity_headers_from_claims g sub claims) clean.headers;
      }

  admit-bearer :
      (now : ℕ) (clean : Scope) (token : String) (sub : Json) (claims : Fields)
      → is_public clean.path ≡ false
      → Dict.get "authorization" clean.headers ≡ some (bearer token)
      → strip token ≡ token
      → decode_user_token g now token ≡ some claims
      → get "sub" claims ≡ some sub
      → admit g now clean
        ≡ passes (record clean {
          headers = set_headers (identity_headers_from_claims g sub claims) clean.headers;
        })
  admit-bearer now clean token sub claims checked auth no_space decoded has_sub =
      rw (checked, auth)
        (check_bearer-bearer now clean token claims no_space decoded ∙ rw has_sub refl)

  -- A bearer token that decodes to the claims of a user lets the request pass.
  pub authenticate-put_on :
      (minted_at now : ℕ) (scope : Scope) (token : String) (sub : Json) (claims : Fields)
      → scope.type ≡ "http"
      → is_public scope.path ≡ false
      → Dict.get "authorization" scope.headers ≡ some (bearer token)
      → strip token ≡ token
      → decode_user_token g now token ≡ some claims
      → get "sub" claims ≡ some sub
      → authenticate g minted_at now scope ≡ passes (put_on minted_at scope sub claims)
  unfolding authenticate
  authenticate-put_on minted_at now scope token sub claims http checked auth no_space decoded
        has_sub =
      let anon = sanitized-IsAnonymous g minted_at scope in
      let is_http : (scope.type == "http") ≡ true = (eq_iff scope.type "http").1 http in
      rw is_http (
        admit-bearer now (sanitized g minted_at scope) token sub claims
          (ap is_public anon.path ∙ checked) (anon.others "authorization" (not_identity g) ∙ auth)
          no_space decoded has_sub)

  -- The request that has passed with a token says what the token's claims say.
  pub claims-bearer :
      (minted_at now : ℕ) (scope after : Scope) (token : String) (claims : Fields)
      (v : IsVouched g minted_at now scope after)
      → Dict.get "authorization" scope.headers ≡ some (bearer token)
      → strip token ≡ token
      → decode_user_token g now token ≡ some claims
      → v.claims ≡ claims
  claims-bearer minted_at now scope after token claims v auth no_space decoded =
      let same : v.auth ≡ bearer token = cc (v.has_auth, auth) in
      let read : decode_user_token g now (strip (drop 7 v.auth)) ≡ some claims =
        rw (same, drop-bearer token, no_space) decoded in
      cc (v.decoded, read)
