-- ===== src/Auth/Tests/Tokens.antt =====
-- Ada's access token, and a service token of the auth service.
use back_end.Prelude.{◌∷◌, [], false, some, ◌≡◌, refl, arith, nat_eq, string_eq}
use back_end.Prelude.Exec.{ok, err, app_error, pure, ◌>>=◌}
use back_end.Shared.Json.{Fields}
use back_end.Shared.ServiceToken.{service_claims, mint_service_token}
use back_end.Shared.Events.{World}
use back_end.Auth.Db.{AuthDb}
use back_end.Auth.App.{App}
use back_end.Auth.Tokens.{mint_access_token}
use back_end.Auth.Tokens.Kinds.{minted_claims, validate-mint, validate-mint_service_token}
use back_end.Shared.Middleware.{ServiceTokenMiddleware, is_exempt, serve_scope, passed, responds}
use back_end.Auth.Tokens.Calls.{checked, serve-mint, serve-mint_access_token}
use back_end.Auth.Validate.{validate_access_token}
use back_end.Auth.Tests.Setup.{app, app_of, jwt_of, jwt_of-JwtLaws, world}

abbrev claims : Fields
claims = minted_claims app 1 (some 7) "active" 15 50

abbrev user_app : App
user_app = app_of (jwt_of claims 950)

abbrev later : World AuthDb
later = record world { draws = 20 }

abbrev too_late : World AuthDb
too_late = record world { draws = 900 }

validate-mint_example :
    ((mint_access_token user_app {D = AuthDb} 1 (some 7) "active" 15 "key" >>= λ (token, _) _.
    validate_access_token user_app token "key" later)
      world).0
    ≡ ok (record { expires_at = 950; claims = claims })
validate-mint_example =
    validate-mint user_app 1 (some 7) "active" 15 "key" world later (jwt_of-JwtLaws claims 950 refl)
      (omega arith) (omega arith)

abbrev own_claims : Fields
own_claims = service_claims "auth-service" 40 100

validate-mint_service_token_example :
    let a = app_of (jwt_of own_claims 100) in
    (validate_access_token a (mint_service_token a.jwt 40 "key" "auth-service" 60) "key" world).0
    ≡ err (app_error 401 "invalid token")
validate-mint_service_token_example =
    validate-mint_service_token (app_of (jwt_of own_claims 100)) 40 60 "auth-service" "key" world
      (jwt_of-JwtLaws own_claims 100 refl) (omega arith)

-- The check in front of files-service, which lets its health path pass.
abbrev guarded : ServiceTokenMiddleware
guarded = record { secret = "key"; exempt_paths = "/health" ∷ []; exempt_prefixes = [] }

media_checked : is_exempt guarded "/media" ≡ false
unfolding is_exempt
media_checked = refl

serve-mint_example :
    let j = jwt_of own_claims 100 in
    serve_scope j guarded 50 (checked "/media" (mint_service_token j 40 "key" "auth-service" 60))
    ≡ passed
serve-mint_example =
    serve-mint (jwt_of own_claims 100) guarded 40 50 60 "auth-service" "/media"
      (jwt_of-JwtLaws own_claims 100 refl) media_checked (omega arith) (omega arith)

serve-mint_access_token_example :
    ((mint_access_token user_app {D = AuthDb} 1 (some 7) "active" 15 "key" >>= λ (token, _).
    pure (serve_scope user_app.jwt guarded 60 (checked "/media" token)))
      world).0
    ≡ ok (responds (record { status_code = 401; detail = "invalid service token" }))
serve-mint_access_token_example =
    serve-mint_access_token user_app guarded 1 (some 7) "active" 15 60 "/media" world
      (jwt_of-JwtLaws claims 950 refl) media_checked (omega arith)
