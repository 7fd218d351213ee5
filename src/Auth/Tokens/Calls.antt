-- ===== src/Auth/Tokens/Calls.antt =====
-- Which tokens the middleware of a service lets in.
use back_end.Prelude.{
  ℕ, ◌+◌, ◌≤◌, ◌<◌, String, false, Option, none, some, ◌≡◌, ◌∙◌, ap, refl, string_eq,
}
use back_end.Prelude.Exec.{ok, pure, ◌>>=◌}
use back_end.Shared.Jwt.{Jwt, JwtLaws}
use back_end.Shared.ServiceToken.{mint_service_token, service_claims, decode_service_token}
use back_end.Shared.Middleware.{
  Scope, ServiceTokenMiddleware, passed, responds, is_exempt, serve_scope, guard,
}
use back_end.Auth.Tokens.Kinds.{minted_claims, decode-mint_service_token, decode_service_token-mint}
use back_end.Auth.Tokens.{mint_access_token}
use back_end.Auth.App.{App}
use back_end.Auth.Db.{AuthDb}
use back_end.Shared.Events.{World}

-- A request to a path that is checked, with the token in its header.
abbrev pub checked : String → String → Scope
checked path token = record { type = "http"; path = path; service_token = some token }

module _ (j : Jwt) (m : ServiceTokenMiddleware) where
  serve-guard :
      (now : ℕ) (path token : String)
      → is_exempt m path ≡ false
      → serve_scope j m now (checked path token) ≡ guard (decode_service_token j now token m.secret)
  unfolding serve_scope
  serve-guard now path token h = rw h refl

  -- A call that another service signs with the shared secret passes until its token expires.
  pub serve-mint :
      (issued now ttl_seconds : ℕ) (issuer path : String)
      → JwtLaws j (service_claims issuer issued (issued + ttl_seconds))
      → is_exempt m path ≡ false
      → issued ≤ now
      → now < issued + ttl_seconds
      → serve_scope j m now (checked path (mint_service_token j issued m.secret issuer ttl_seconds))
        ≡ passed
  serve-mint issued now ttl_seconds issuer path laws h after before =
      serve-guard now path _ h
      ∙ ap guard
          (decode-mint_service_token j issued now ttl_seconds m.secret issuer laws after before)

module _ (a : App) (m : ServiceTokenMiddleware) where
  -- A user's access token does not let a call to a checked path in, even if it was signed with the
  -- services' own secret: the answer is 401.
  pub serve-mint_access_token :
      (user_id : ℕ) (tenant_id : Option ℕ) (status : String) (ttl_minutes now : ℕ) (path : String)
      (w : World AuthDb)
      → JwtLaws a.jwt (minted_claims a user_id tenant_id status ttl_minutes (a.time w.draws))
      → is_exempt m path ≡ false
      → a.time w.draws ≤ now
      → ((mint_access_token a {D = AuthDb} user_id tenant_id status ttl_minutes m.secret
            >>= λ (token, _). pure (serve_scope a.jwt m now (checked path token)))
          w).0
        ≡ ok (responds (record { status_code = 401; detail = "invalid service token" }))
  unfolding mint_access_token
  serve-mint_access_token user_id tenant_id status ttl_minutes now path w laws h after =
      let refused =
        decode_service_token-mint a user_id tenant_id status ttl_minutes m.secret w now laws
          after in
      let claims = minted_claims a user_id tenant_id status ttl_minutes (a.time w.draws) in
      let none' : decode_service_token a.jwt now (a.jwt.encode claims m.secret "HS256") m.secret
          ≡ none =
        cc refused in
      ap ok (serve-guard a.jwt m now path _ h ∙ ap guard none')
