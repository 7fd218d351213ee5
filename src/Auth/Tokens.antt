-- ===== src/Auth/Tokens.antt =====
-- services/auth-service/app/services/auth_tokens.py
pub mod Kinds
pub mod Calls
use back_end.Prelude.{ℕ, ◌+◌, ◌*◌, String, Option, none, some, [], ◌∷◌, string_eq, if◌then◌else◌}
use back_end.Prelude.Exec.{Exec, pure, ◌>>=◌}
use back_end.Shared.Json.{num, str, Fields, nil, field, opt_str}
use back_end.Shared.ServiceToken.{has_type}
use back_end.Shared.Events.{World, draw}
use back_end.Auth.App.{App}

module _ (a : App) where
  -- `str(u) if u else None`
  abbrev pub str_opt_uuid : Option ℕ → Option String
  str_opt_uuid none = none
  str_opt_uuid (some u) = some (a.str_uuid u)

  abbrev pub access_claims : ℕ → Option ℕ → String → ℕ → ℕ → Fields
  access_claims user_id tenant_id status now expires_at = field "sub" (str (a.str_uuid user_id)) (
      field "tenant_id" (opt_str (str_opt_uuid tenant_id)) (
        field "status" (str status)
          (field "iat" (num now) (field "exp" (num expires_at) (field "type" (str "user") nil)))))

  module _ {D : Type 0} where
    unfoldable pub mint_access_token :
        ℕ → Option ℕ → String → ℕ → String → Exec (World D) (String × ℕ)
    mint_access_token user_id tenant_id status ttl_minutes secret = do
      now ← draw a.time
      let expires_at = now + ttl_minutes * 60
      pure (
        a.jwt.encode (access_claims user_id tenant_id status now expires_at) secret "HS256",
        expires_at,
      )

    -- `none` is `InvalidTokenError`.
    unfoldable pub decode_access_token : String → String → Exec (World D) (Option Fields)
    decode_access_token token secret = do
      now ← draw a.time
      pure (elim (a.jwt.decode now token secret ("HS256" ∷ [])) [
        | none ↦ none
        | some claims ↦ if has_type "user" claims then some claims else none
      ])

    unfoldable pub mint_refresh_token : Exec (World D) String
    mint_refresh_token = draw (λ k. a.token_urlsafe k 32)

  unfoldable pub hash_refresh : String → String
  hash_refresh raw = a.sha256_hex raw
