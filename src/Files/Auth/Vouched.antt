-- ===== src/Files/Auth/Vouched.antt =====
-- A request from the gateway's middleware (services/api-gateway/app/utils/middleware.py) through its proxy
-- (app/services/proxy.py) to the identity that services/files-service/app/auth.py makes of it.
use back_end.Prelude.{ℕ, String, Bool, true, false, Option, some, ◌≡◌, refl, ap, ◌∙◌, if◌then◌else◌}
use back_end.Prelude.Text.{starts_with}
use back_end.Shared.Json.{get, is_truthy}
use back_end.Shared.Middleware.{is_in}
use back_end.Gateway.Guard.{Gateway, Scope, passes, is_public, str_of, authenticate}
use back_end.Gateway.Guard.Admission.{IsVouched, authenticate-IsVouched}
use back_end.Gateway.Proxy.{without, hop_by_hop}
use back_end.Files.Auth.{Identity, calls, superuser, dispatch}
use back_end.Files.Auth.Caller.{get-without, identify-calls}

-- `str.lower` on the lower-case texts of the program.
pub record LowerLaws (lower : String → String) : Type 0 where
  pub user_header : lower "x-user-id" ≡ "x-user-id"
  pub superuser_header : lower "x-is-superuser" ≡ "x-is-superuser"
  pub true_text : lower "true" ≡ "true"
  pub false_text : lower "false" ≡ "false"

-- The caller is the user of a bearer token that the gateway has decoded.
pub record IsCaller (g : Gateway) (parse : String → Option ℕ) (minted_at now : ℕ)
    (before after : Scope) (state : Option Identity) : Type 0 where
  pub vouched : IsVouched g minted_at now before after
  pub identity : Identity
  pub resolved : state ≡ some identity
  pub user : parse (str_of g vouched.sub) ≡ some identity.user_id
  pub superuser : identity.is_superuser ≡ is_truthy (get "is_superuser" vouched.claims)

superuser-flag :
    (parse : String → Option ℕ) (lower : String → String) (b : Bool)
    → LowerLaws lower
    → superuser parse lower (some (if b then "true" else "false")) ≡ b
superuser-flag parse lower true laws = rw laws.true_text refl
superuser-flag parse lower false laws = rw laws.false_text refl

pub not_hop : (is_in "x-user-id" hop_by_hop ≡ false) × (is_in "x-is-superuser" hop_by_hop ≡ false)
unfolding hop_by_hop
not_hop = (refl, refl)

-- A request that the gateway lets through to a checked path, and that files-service accepts after the
-- gateway forwarded its headers, has as caller the user of a bearer token that the gateway decoded: its
-- claim `sub`, and its superuser mark. What the client's own headers say of either has no effect.
pub dispatch-authenticate :
    (g : Gateway) (parse : String → Option ℕ) (lower : String → String) (minted_at now : ℕ)
    (scope after : Scope) (path : String) {state : Option Identity}
    → LowerLaws lower
    → scope.type ≡ "http"
    → is_public scope.path ≡ false
    → authenticate g minted_at now scope ≡ passes after
    → starts_with path "/public" ≡ true
    → dispatch parse lower path (without lower hop_by_hop after.headers) ≡ calls state
    → IsCaller g parse minted_at now scope after state
unfolding dispatch
dispatch-authenticate g parse lower minted_at now scope after path laws http checked let_in public'
      accepted =
    let v = authenticate-IsVouched g minted_at now scope after http checked let_in in
    let kept = λ (name : String) (e : is_in (lower name) hop_by_hop ≡ false).
      get-without lower hop_by_hop name after.headers e in
    let user = kept "x-user-id" (rw laws.user_header not_hop.0) ∙ v.user in
    let mark = kept "x-is-superuser" (rw laws.superuser_header not_hop.1) ∙ v.superuser in
    let r = identify-calls parse lower _ _ (rw (public', user) at accepted) in
    record {
      vouched = v;
      identity = r.0;
      resolved = r.1;
      user = r.2;
      superuser = r.3 ∙ ap (superuser parse lower) mark ∙ superuser-flag parse lower _ laws;
    }
