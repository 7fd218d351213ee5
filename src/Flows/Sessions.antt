-- ===== src/Flows/Sessions.antt =====
-- A session from services/auth-service/app/services/login.py through the gateway
-- (services/api-gateway/app/utils/middleware.py and app/services/proxy.py) to services/files-service/app/auth.py.
use back_end.Prelude.{
  ℕ, ◌≤◌, ◌<◌, ◌^◌, String, true, false, Option, none, some, ◌≡◌, refl, sym, ap, ◌∙◌, string_eq,
}
use back_end.Prelude.Dict
use back_end.Prelude.Dict.{Dict}
use back_end.Prelude.Exec.{ok}
use back_end.Prelude.Text.{starts_with, strip}
use back_end.Shared.Json.{Fields, str, get, opt_str}
use back_end.Shared.Jwt.{JwtLaws}
use back_end.Shared.Events.{World}
use back_end.Shared.Middleware.{is_in}
use back_end.Auth.Models.{value}
use back_end.Auth.Db.{AuthDb}
use back_end.Auth.App.{App}
use back_end.Auth.Tokens.{access_claims, str_opt_uuid}
use back_end.Auth.Login.{LoginOutcome, authenticate_and_open_session}
use back_end.Auth.Login.Access.{HandsOut, authenticate_and_open_session-HandsOut}
use back_end.Gateway.Guard.{
  Gateway, Scope, passes, is_public, str_of, claim_text, decode_user_token, authenticate,
}
use back_end.Gateway.Guard.Admission.{IsVouched, authenticate-IsVouched}
use back_end.Gateway.Guard.Bearer.{bearer, put_on, authenticate-put_on, claims-bearer}
use back_end.Gateway.Proxy.{without, hop_by_hop}
use back_end.Files.Auth.{calls, dispatch}
use back_end.Files.Auth.Caller.{get-without}
use back_end.Files.Auth.Vouched.{LowerLaws, not_hop}
use back_end.Flows.Identities.{UuidLaws, IsBounded, identify-str}

-- The services are set up alike: one JWT package, one signing key, one text form of UUIDs.
pub record SharesTokens (a : App) (g : Gateway) (parse : String → Option ℕ)
    (lower : String → String) : Type 0 where
  pub jwt : g.jwt ≡ a.jwt
  pub secret_key : g.secret_key ≡ a.secret_key
  pub uuids : UuidLaws parse a.str_uuid
  pub lowered : LowerLaws lower
  pub tenant_header : lower "x-tenant-id" ≡ "x-tenant-id"

-- The gateway lets the request pass, and files-service takes what it forwards as a call of the user who
-- logged in, in the user's tenant and without the superuser mark.
pub record IsServed (g : Gateway) (parse : String → Option ℕ) (lower : String → String)
    (minted_at now : ℕ) (scope : Scope) (path : String) (out : LoginOutcome) : Type 0 where
  pub after : Scope
  pub let_through : authenticate g minted_at now scope ≡ passes after
  pub caller :
      dispatch parse lower path (without lower hop_by_hop after.headers)
      ≡ calls (
          some (record {
            user_id = out.user.id;
            tenant_id = out.user.tenant_id;
            is_superuser = false;
          }))

tenant_not_hop : is_in "x-tenant-id" hop_by_hop ≡ false
unfolding hop_by_hop
tenant_not_hop = refl

module _ (a : App) (g : Gateway) (parse : String → Option ℕ) (lower : String → String)
    (shares : SharesTokens a g parse lower) where
  abbrev claims_of : LoginOutcome → ℕ → Fields
  claims_of out issued =
      access_claims a out.user.id out.user.tenant_id (value out.user.status) issued out.expires_at

  decode-access_token :
      (out : LoginOutcome) (issued now : ℕ)
      → JwtLaws a.jwt (claims_of out issued)
      → HandsOut a issued out
      → issued ≤ now
      → now < out.expires_at
      → decode_user_token g now out.access_token ≡ some (claims_of out issued)
  unfolding decode_user_token
  decode-access_token out issued now laws hands after before =
      rw (hands.token, shares.jwt, shares.secret_key)
        (laws.decode-encode now issued out.expires_at a.secret_key "HS256" refl refl after before)

  forwarded :
      (minted_at now : ℕ) (scope after : Scope) (path : String) (out : LoginOutcome) (issued : ℕ)
      (v : IsVouched g minted_at now scope after)
      → v.claims ≡ claims_of out issued
      → out.user.id < 2 ^ 128
      → IsBounded out.user.tenant_id
      → starts_with path "/public" ≡ true
      → dispatch parse lower path (without lower hop_by_hop after.headers)
        ≡ calls (
            some (record {
              user_id = out.user.id;
              tenant_id = out.user.tenant_id;
              is_superuser = false;
            }))
  unfolding dispatch
  forwarded minted_at now scope after path out issued v same bound tenant_bound public' =
      let kept = λ (name : String) (e : is_in (lower name) hop_by_hop ≡ false).
        get-without lower hop_by_hop name after.headers e in
      let user : Dict.get "x-user-id" (without lower hop_by_hop after.headers)
          ≡ some (a.str_uuid out.user.id) =
        kept "x-user-id" (rw shares.lowered.user_header not_hop.0) ∙ v.user ∙ ap some sub in
      let mark =
        kept "x-is-superuser" (rw shares.lowered.superuser_header not_hop.1) ∙ v.superuser in
      let tenant = kept "x-tenant-id" (rw shares.tenant_header tenant_not_hop) ∙ v.tenant in
      rw (public', user)
        (identify-str parse lower a out.user.id out.user.tenant_id _ shares.uuids shares.lowered
          bound tenant_bound (rw same at mark)
          (rw same at tenant ∙ claim_text-opt out.user.tenant_id))
    where
      sub : str_of g v.sub ≡ a.str_uuid out.user.id
      sub =
          let read : some v.sub ≡ some (str (a.str_uuid out.user.id)) =
            sym v.has_sub ∙ ap (get "sub") same in
          let is : v.sub ≡ str (a.str_uuid out.user.id) = cc read in ap (str_of g) is

      claim_text-opt :
          (tenant : Option ℕ)
          → claim_text g (some (opt_str (str_opt_uuid a tenant))) ≡ str_opt_uuid a tenant
      claim_text-opt none = refl
      claim_text-opt (some u) = refl

  -- The access token that a login hands out gets a request through the gateway until the token expires, and
  -- files-service then takes the request as a call of the user who logged in, in the user's tenant and
  -- without the superuser mark; provided the request bears the token, goes to a path that both services
  -- check, and the services share the signing key, the JWT package and the text form of UUIDs.
  pub dispatch-authenticate_and_open_session :
      (email password : String) (ip ua : Option String) (w : World AuthDb) (out : LoginOutcome)
      (minted_at now : ℕ) (scope : Scope) (path : String)
      → (authenticate_and_open_session a email password ip ua w).0 ≡ ok out
      → JwtLaws a.jwt (claims_of out (a.time w.draws))
      → out.user.id < 2 ^ 128
      → IsBounded out.user.tenant_id
      → scope.type ≡ "http"
      → is_public scope.path ≡ false
      → Dict.get "authorization" scope.headers ≡ some (bearer out.access_token)
      → strip out.access_token ≡ out.access_token
      → a.time w.draws ≤ now
      → now < out.expires_at
      → starts_with path "/public" ≡ true
      → IsServed g parse lower minted_at now scope path out
  dispatch-authenticate_and_open_session email password ip ua w out minted_at now scope path
        logged_in laws bound tenant_bound http checked auth no_space after before public' =
      let issued = a.time w.draws in
      let hands = authenticate_and_open_session-HandsOut a email password ip ua w out logged_in in
      let decoded = decode-access_token out issued now laws hands after before in
      let claims = claims_of out issued in
      let sub = str (a.str_uuid out.user.id) in
      let passed =
        authenticate-put_on g minted_at now scope out.access_token sub claims http checked auth
          no_space decoded refl in
      let served = put_on g minted_at scope sub claims in
      let v = authenticate-IsVouched g minted_at now scope served http checked passed in
      record {
        after = served;
        let_through = passed;
        caller =
            forwarded minted_at now scope served path out issued v
              (claims-bearer g minted_at now scope served out.access_token claims v auth no_space
                decoded)
              bound tenant_bound public';
      }
