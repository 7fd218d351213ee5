-- ===== src/Gateway/Guard/Admission.antt =====
-- Which requests `GatewayAuthMiddleware` lets through, and with which headers.
use back_end.Prelude.{
  eq_iff, ℕ, String, true, false, Option, none, some, ◌≡◌, ◌∙◌, refl, subst, arith, ◌==◌, string_eq,
  if◌then◌else◌, Bool-cases, inl, inr,
}
use back_end.Prelude.Dict
use back_end.Prelude.Dict.{Dict, get-put}
use back_end.Prelude.Distinct.{contains}
use back_end.Prelude.Text.{drop, starts_with, strip}
use back_end.Shared.Json.{Json, Fields, get, is_truthy}
use back_end.Shared.ServiceToken.{mint_service_token}
use back_end.Gateway.Guard.{
  Gateway, Scope, passes, is_public, served_locally, identity_headers, strip_headers, set_headers,
  identity_dict, identity_headers_from_claims, claim_text, str_of, decode_user_token, with_claims,
  with_identity, check_bearer, sanitized, or_empty, authenticate,
}
use back_end.Gateway.Guard.Headers.{
  get-strip_headers, get-set_headers, or_old, or_old-none, identity_dict-States,
}

module _ (g : Gateway) where
  -- The gateway's own token, where it does not serve the path itself.
  abbrev pub own_token : ℕ → String → Option String
  own_token now path =
      if served_locally path
      then none
      else some (mint_service_token g.jwt now g.inter_service_secret "api-gateway" 60)

  -- The request passes as it came, but for the identity headers: the client's are gone.
  pub record IsAnonymous (minted_at : ℕ) (before after : Scope) : Type 0 where
    pub path : after.path ≡ before.path
    pub no_user : Dict.get "x-user-id" after.headers ≡ none
    pub no_superuser : Dict.get "x-is-superuser" after.headers ≡ none
    pub no_tenant : Dict.get "x-tenant-id" after.headers ≡ none
    pub no_role : Dict.get "x-role-id" after.headers ≡ none
    pub token : Dict.get "x-service-token" after.headers ≡ own_token minted_at before.path
    pub others :
        (k : String)
        → contains k identity_headers ≡ false
        → Dict.get k after.headers ≡ Dict.get k before.headers

  stripped :
      (k : String) (d : Dict String String)
      → contains k identity_headers ≡ true
      → Dict.get k (strip_headers identity_headers d) ≡ none
  stripped k d h = get-strip_headers k identity_headers d ∙ rw h refl

  kept :
      (k : String) (d : Dict String String)
      → contains k identity_headers ≡ false
      → Dict.get k (strip_headers identity_headers d) ≡ Dict.get k d
  kept k d h = get-strip_headers k identity_headers d ∙ rw h refl

  -- The client's identity headers are gone, and a token was put in.
  tokened :
      (k token : String) (d : Dict String String)
      → contains k identity_headers ≡ true
      → ("x-service-token" == k) ≡ false
      → Dict.get k (Dict.put "x-service-token" token (strip_headers identity_headers d)) ≡ none
  tokened k token d h differs = get-put "x-service-token" k token _ ∙ rw differs (stripped k d h)

  tokened_other :
      (k token : String) (d : Dict String String)
      → contains k identity_headers ≡ false
      → Dict.get k (Dict.put "x-service-token" token (strip_headers identity_headers d))
        ≡ Dict.get k d
  unfolding contains identity_headers
  tokened_other k token d h = get-put "x-service-token" k token _ ∙ rw other (kept k d h)
    where
      other : ("x-service-token" == k) ≡ false
      other = ground arith

  pub sanitized-IsAnonymous :
      (minted_at : ℕ) (scope : Scope) → IsAnonymous minted_at scope (sanitized g minted_at scope)
  unfolding sanitized contains identity_headers
  sanitized-IsAnonymous minted_at scope = elim (Bool-cases (served_locally scope.path)) [
    | inl local ↦ rw local (record {
      path = refl;
      no_user = stripped "x-user-id" scope.headers refl;
      no_superuser = stripped "x-is-superuser" scope.headers refl;
      no_tenant = stripped "x-tenant-id" scope.headers refl;
      no_role = stripped "x-role-id" scope.headers refl;
      token = rw local (stripped "x-service-token" scope.headers refl);
      others = λ k h. kept k scope.headers h;
    })
    | inr remote ↦ rw remote (record {
      path = refl;
      no_user = tokened "x-user-id" _ scope.headers refl refl;
      no_superuser = tokened "x-is-superuser" _ scope.headers refl refl;
      no_tenant = tokened "x-tenant-id" _ scope.headers refl refl;
      no_role = tokened "x-role-id" _ scope.headers refl refl;
      token = rw remote (get-put "x-service-token" "x-service-token" _ _);
      others = λ k h. tokened_other k _ scope.headers h;
    })
  ]

  -- A request that passes with a user's identity: its bearer token decodes, its identity headers say
  -- what the token's claims say, and the rest of it is as it came.
  pub record IsVouched (minted_at now : ℕ) (before after : Scope) : Type 0 where
    pub auth : String
    pub claims : Fields
    pub sub : Json
    pub has_auth : Dict.get "authorization" before.headers ≡ some auth
    pub bearer : starts_with auth "Bearer " ≡ true
    pub decoded : decode_user_token g now (strip (drop 7 auth)) ≡ some claims
    pub has_sub : get "sub" claims ≡ some sub
    pub path : after.path ≡ before.path
    pub user : Dict.get "x-user-id" after.headers ≡ some (str_of g sub)
    pub superuser :
        Dict.get "x-is-superuser" after.headers
        ≡ some (if is_truthy (get "is_superuser" claims) then "true" else "false")
    pub tenant : Dict.get "x-tenant-id" after.headers ≡ claim_text g (get "tenant_id" claims)
    pub role : Dict.get "x-role-id" after.headers ≡ claim_text g (get "role_id" claims)
    pub token : Dict.get "x-service-token" after.headers ≡ own_token minted_at before.path
    pub others :
        (k : String)
        → contains k identity_headers ≡ false
        → Dict.get k after.headers ≡ Dict.get k before.headers

  -- The headers of a user, set on a request that has none.
  set_headers-identified :
      (k user superuser : String) (tenant role : Option String) (d : Dict String String)
      → Dict.get k (set_headers (identity_dict g user superuser tenant role) d)
        ≡ or_old (Dict.get k (identity_dict g user superuser tenant role)) (Dict.get k d)
  set_headers-identified k user superuser tenant role d =
      get-set_headers k _ d (identity_dict-States g user superuser tenant role).distinct

  -- A request of a user's token that decodes.
  with_claims-IsVouched :
      (minted_at now : ℕ) (scope clean after : Scope) (auth : String) (decoded : Option Fields)
      → IsAnonymous minted_at scope clean
      → Dict.get "authorization" scope.headers ≡ some auth
      → starts_with auth "Bearer " ≡ true
      → decode_user_token g now (strip (drop 7 auth)) ≡ decoded
      → with_claims g clean decoded ≡ passes after
      → IsVouched minted_at now scope after
  unfolding identity_headers_from_claims
  with_claims-IsVouched minted_at now scope clean after auth none anon a b d h = cc
  with_claims-IsVouched minted_at now scope clean after auth (some claims) anon a b d h =
      go (get "sub" claims) refl h
    where
      put_on : Json → Scope
      put_on sub = record clean {
        headers = set_headers (identity_headers_from_claims g sub claims) clean.headers;
      }

      same :
          (sub : Json) → with_identity g clean (some sub) claims ≡ passes after → put_on sub ≡ after
      same sub h = cc

      vouched :
          (sub : Json) → get "sub" claims ≡ some sub → IsVouched minted_at now scope (put_on sub)
      vouched sub e =
          let super = if is_truthy (get "is_superuser" claims) then "true" else "false" in
          let tenant = claim_text g (get "tenant_id" claims) in
          let role = claim_text g (get "role_id" claims) in
          let st = identity_dict-States g (str_of g sub) super tenant role in
          let set = λ (k : String).
            set_headers-identified k (str_of g sub) super tenant role clean.headers in
          record {
            auth = auth;
            claims = claims;
            sub = sub;
            has_auth = a;
            bearer = b;
            decoded = d;
            has_sub = e;
            path = anon.path;
            user = set "x-user-id" ∙ rw st.has_user refl;
            superuser = set "x-is-superuser" ∙ rw st.has_superuser refl;
            tenant = set "x-tenant-id" ∙ rw (st.has_tenant, anon.no_tenant) (or_old-none tenant);
            role = set "x-role-id" ∙ rw (st.has_role, anon.no_role) (or_old-none role);
            token = set "x-service-token" ∙ rw st.no_token anon.token;
            others = λ k h. set k ∙ rw (st.others k h) (anon.others k h);
          }

      go :
          (sub : Option Json)
          → get "sub" claims ≡ sub
          → with_identity g clean sub claims ≡ passes after
          → IsVouched minted_at now scope after
      go none e h = cc
      go (some sub) e h = subst (λ x. IsVouched minted_at now scope x) (same sub h) (vouched sub e)

  check_bearer-IsVouched :
      (minted_at now : ℕ) (scope clean after : Scope) (auth : Option String)
      → IsAnonymous minted_at scope clean
      → Dict.get "authorization" scope.headers ≡ auth
      → check_bearer g now clean (or_empty g auth) ≡ passes after
      → IsVouched minted_at now scope after
  unfolding check_bearer starts_with
  check_bearer-IsVouched minted_at now scope clean after none anon a h = cc
  check_bearer-IsVouched minted_at now scope clean after (some auth) anon a h =
      elim (Bool-cases (starts_with auth "Bearer ")) [
        | inl bearer ↦
            with_claims-IsVouched minted_at now scope clean after auth _ anon a bearer refl
              (rw bearer at h)
        | inr other ↦ absurd (refused_lem other h)
      ]
    where
      refused_lem :
          starts_with auth "Bearer " ≡ false → check_bearer g now clean auth ≡ passes after → ⊥
      refused_lem other h = cc (rw other at h)

  pub not_identity : contains "authorization" identity_headers ≡ false
  unfolding contains identity_headers
  not_identity = refl

  -- A request to a path that is not public passes only with a bearer token that decodes. The identity
  -- headers that it has then are those of the token's claims, whatever the client sent, and the rest
  -- of it is as it came.
  pub authenticate-IsVouched :
      (minted_at now : ℕ) (scope after : Scope)
      → scope.type ≡ "http"
      → is_public scope.path ≡ false
      → authenticate g minted_at now scope ≡ passes after
      → IsVouched minted_at now scope after
  unfolding authenticate sanitized
  authenticate-IsVouched minted_at now scope after http checked h =
      let anon = sanitized-IsAnonymous minted_at scope in
      let is_http : (scope.type == "http") ≡ true = (eq_iff scope.type "http").1 http in
      let unchanged = anon.others "authorization" not_identity in
      check_bearer-IsVouched minted_at now scope (sanitized g minted_at scope) after _ anon refl
        (rw (is_http, anon.path, checked, unchanged) at h)

  -- A request to a public path passes with no identity, whatever identity headers the client sent.
  pub authenticate-IsAnonymous :
      (minted_at now : ℕ) (scope : Scope)
      → scope.type ≡ "http"
      → is_public scope.path ≡ true
      → (authenticate g minted_at now scope ≡ passes (sanitized g minted_at scope))
        × IsAnonymous minted_at scope (sanitized g minted_at scope)
  unfolding authenticate
  authenticate-IsAnonymous minted_at now scope http open' =
      let anon = sanitized-IsAnonymous minted_at scope in
      let is_http : (scope.type == "http") ≡ true = (eq_iff scope.type "http").1 http in
      (rw (is_http, anon.path, open') refl, anon)
