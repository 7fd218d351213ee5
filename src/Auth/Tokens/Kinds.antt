-- ===== src/Auth/Tokens/Kinds.antt =====
-- Access tokens and service tokens: what each reads back as, and that neither passes for the other.
use back_end.Prelude.{
  ℕ, ◌+◌, ◌*◌, ◌≤◌, ◌<◌, String, Option, none, some, ◌≡◌, refl, arith, string_eq, leb, Bool-cases,
  inl, inr,
}
use back_end.Prelude.Exec.{ok, err, app_error, pure, ◌>>=◌}
use back_end.Shared.Json.{Fields}
use back_end.Shared.Jwt.{Jwt, JwtLaws}
use back_end.Shared.ServiceToken.{service_claims, mint_service_token, decode_service_token}
use back_end.Shared.Events.{World}
use back_end.Auth.Db.{AuthDb}
use back_end.Auth.App.{App}
use back_end.Auth.Tokens.{mint_access_token, decode_access_token, access_claims}
use back_end.Auth.Validate.{validate_access_token}

module _ (a : App) where
  -- The claims of a token that is minted at a time.
  abbrev pub minted_claims : ℕ → Option ℕ → String → ℕ → ℕ → Fields
  minted_claims user_id tenant_id status ttl_minutes now =
      access_claims a user_id tenant_id status now (now + ttl_minutes * 60)

  -- An access token that was minted at one draw validates at a later one, before it expires, to its
  -- expiry and the claims of its user; from its expiry on it is refused with 401.
  pub validate-mint :
      (user_id : ℕ) (tenant_id : Option ℕ) (status : String) (ttl_minutes : ℕ) (secret : String)
      (w w' : World AuthDb)
      → JwtLaws a.jwt (minted_claims user_id tenant_id status ttl_minutes (a.time w.draws))
      → a.time w.draws ≤ a.time w'.draws
      → a.time w'.draws < a.time w.draws + ttl_minutes * 60
      → let expires_at = a.time w.draws + ttl_minutes * 60 in
        let minted = mint_access_token a {D = AuthDb} user_id tenant_id status ttl_minutes secret in
        ((minted >>= λ (token, _) _. validate_access_token a token secret w') w).0
        ≡ ok (record {
          expires_at = expires_at;
          claims = access_claims a user_id tenant_id status (a.time w.draws) expires_at;
        })
  unfolding mint_access_token validate_access_token decode_access_token
  validate-mint user_id tenant_id status ttl_minutes secret w w' laws after before =
      rw
        (laws.decode-encode (a.time w'.draws) (a.time w.draws) (a.time w.draws + ttl_minutes * 60)
          secret "HS256" refl refl after before)
        refl

  -- From its expiry on, an access token is refused with 401.
  pub validate-mint_expired :
      (user_id : ℕ) (tenant_id : Option ℕ) (status : String) (ttl_minutes : ℕ) (secret : String)
      (w w' : World AuthDb)
      → JwtLaws a.jwt (minted_claims user_id tenant_id status ttl_minutes (a.time w.draws))
      → a.time w.draws + ttl_minutes * 60 ≤ a.time w'.draws
      → let minted = mint_access_token a {D = AuthDb} user_id tenant_id status ttl_minutes secret in
        ((minted >>= λ (token, _) _. validate_access_token a token secret w') w).0
        ≡ err (app_error 401 "invalid token")
  unfolding mint_access_token validate_access_token decode_access_token
  validate-mint_expired user_id tenant_id status ttl_minutes secret w w' laws late =
      rw
        (laws.decode_expired (a.time w'.draws) (a.time w.draws + ttl_minutes * 60) secret "HS256"
          refl late)
        refl

  -- A service token never passes for an access token, even under the same secret: from its minting
  -- on, validation refuses it with 401.
  pub validate-mint_service_token :
      (issued ttl_seconds : ℕ) (issuer secret : String) (w : World AuthDb)
      → JwtLaws a.jwt (service_claims issuer issued (issued + ttl_seconds))
      → issued ≤ a.time w.draws
      → (validate_access_token a
          (mint_service_token a.jwt issued secret issuer ttl_seconds)
          secret
          w).0
        ≡ err (app_error 401 "invalid token")
  unfolding mint_service_token validate_access_token decode_access_token
  validate-mint_service_token issued ttl_seconds issuer secret w laws after =
      elim (Bool-cases (leb (issued + ttl_seconds) (a.time w.draws))) [
        | inl expired ↦
            rw
              (laws.decode_expired (a.time w.draws) (issued + ttl_seconds) secret "HS256" refl
                (ground arith))
              refl
        | inr live ↦
            rw
              (laws.decode-encode (a.time w.draws) issued (issued + ttl_seconds) secret "HS256" refl
                refl after (ground arith))
              refl
      ]

  -- An access token never passes for a service token.
  pub decode_service_token-mint :
      (user_id : ℕ) (tenant_id : Option ℕ) (status : String) (ttl_minutes : ℕ) (secret : String)
      (w : World AuthDb) (now : ℕ)
      → JwtLaws a.jwt (minted_claims user_id tenant_id status ttl_minutes (a.time w.draws))
      → a.time w.draws ≤ now
      → let minted = mint_access_token a {D = AuthDb} user_id tenant_id status ttl_minutes secret in
        ((minted >>= λ (token, _). pure (decode_service_token a.jwt now token secret)) w).0
        ≡ ok none
  unfolding mint_access_token decode_service_token
  decode_service_token-mint user_id tenant_id status ttl_minutes secret w now laws after =
      elim (Bool-cases (leb (a.time w.draws + ttl_minutes * 60) now)) [
        | inl expired ↦
            rw
              (
                laws.decode_expired now (a.time w.draws + ttl_minutes * 60) secret "HS256" refl
                    (ground arith),
                decode_service_token,
              )
              refl
        | inr live ↦
            rw
              (
                laws.decode-encode now (a.time w.draws) (a.time w.draws + ttl_minutes * 60) secret
                    "HS256" refl refl after (ground arith),
                decode_service_token,
              )
              refl
      ]

-- A service token that was minted reads back as its claims until it expires.
pub decode-mint_service_token :
    (j : Jwt) (issued now ttl_seconds : ℕ) (secret issuer : String)
    → JwtLaws j (service_claims issuer issued (issued + ttl_seconds))
    → issued ≤ now
    → now < issued + ttl_seconds
    → decode_service_token j now (mint_service_token j issued secret issuer ttl_seconds) secret
      ≡ some (service_claims issuer issued (issued + ttl_seconds))
unfolding mint_service_token decode_service_token
decode-mint_service_token j issued now ttl_seconds secret issuer laws after before =
    rw
      (
        laws.decode-encode now issued (issued + ttl_seconds) secret "HS256" refl refl after before,
        decode_service_token,
      )
      refl
