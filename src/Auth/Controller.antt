-- ===== src/Auth/Controller.antt =====
-- services/auth-service/app/controller.py: one function per endpoint. The response object is the
-- list of the cookies that were set on it.
pub mod Onboarding
use back_end.Prelude.{
  ℕ, ◌+◌, ◌*◌, String, Bool, true, Option, none, some, List, [], ◌∷◌, ◌==◌, nat_eq, string_eq,
  if◌then◌else◌,
}
use back_end.Prelude.Exec.{Exec, Result, ok, err, app_error, raised, raise, pure, ◌>>=◌, ◌>>◌}
use back_end.Shared.Host.{minutes}
use back_end.Shared.Json.{Json, str, obj, Fields, nil, field, get, opt_str}
use back_end.Shared.Events.{World, draw, query, write, event_envelope, publish}
use back_end.Auth.Models.{User, UserStatus, value, active}
use back_end.Prelude.Text.{starts_with, after_first_word, strip}
use back_end.Auth.Registry.{Registry, Call, OnboardingCompletion, wait_for}
use back_end.Auth.Db.{AuthDb, user_by_id, put_user, commit_token}
use back_end.Auth.App.{App}
use back_end.Auth.Tokens.{str_opt_uuid, mint_access_token, mint_refresh_token}
use back_end.Auth.Login.{LoginOutcome, authenticate_and_open_session, new_refresh_row}
use back_end.Auth.Refresh.{rotate_refresh}
use back_end.Auth.Logout.{revoke_session_for_token}
use back_end.Auth.Users.{get_user_by_id, update_user}
use back_end.Auth.Validate.{ValidateResult, validate_access_token}
use back_end.Auth.Avatars.{get_avatar_summary}
use back_end.Auth.Onboarding.{OnboardingRequest, start_onboarding, publish_pending, uuid_of}

pub data SetCookie : Type 0 where
  -- key, value, httponly, secure, samesite, path, domain, max_age
  set_cookie : String → String → Bool → Bool → String → String → Option String → ℕ → SetCookie
  -- key, path, domain
  delete_cookie : String → String → Option String → SetCookie

-- What the endpoints read of a request.
pub record Request : Type 0 where
  pub client_ip : Option String
  pub user_agent : Option String

pub record UserResponse : Type 0 where
  pub user_id : String
  pub tenant_id : Option String
  pub email : String
  pub full_name : Option String
  pub phone : Option String
  pub status : String
  pub has_avatar : Bool
  pub avatar_url : Json
  pub created_at : String
  pub modified_at : String

-- `LoginResponse`, and `OnboardingCompletedResponse` with the same fields
pub record LoginResponse : Type 0 where
  pub access_token : String
  pub token_type : String
  pub expires_in : ℕ
  pub user : UserResponse

module _ (a : App) where
  abbrev or_none : String → Option String
  or_none s = if s == "" then none else some s

  -- `_set_refresh_cookie` and `_clear_refresh_cookie`
  abbrev pub refresh_cookie : String → SetCookie
  refresh_cookie raw =
      set_cookie "refresh_token" raw true a.cookie_secure a.cookie_samesite a.cookie_path
        (or_none a.cookie_domain) (a.refresh_token_expire_minutes * 60)

  abbrev pub cleared_cookie : SetCookie
  cleared_cookie = delete_cookie "refresh_token" a.cookie_path (or_none a.cookie_domain)

  unfoldable pub build_user_response : User → Exec (World AuthDb) UserResponse
  unfolding get_avatar_summary
  build_user_response user = do
    summary ← get_avatar_summary a user.id
    pure (record {
      user_id = a.str_uuid user.id;
      tenant_id = str_opt_uuid a user.tenant_id;
      email = user.email;
      full_name = user.full_name;
      phone = user.phone;
      status = value user.status;
      has_avatar = summary.has_avatar;
      avatar_url = summary.avatar_url;
      created_at = a.isoformat user.created_at;
      modified_at = a.isoformat user.modified_at;
    })

  abbrev pub login_response : String → UserResponse → LoginResponse
  login_response access_token user = record {
    access_token = access_token;
    token_type = "bearer";
    expires_in = a.access_token_expire_minutes * 60;
    user = user;
  }

  -- From the outcome of the service on.
  abbrev pub logged_in : LoginOutcome → Exec (World AuthDb) (LoginResponse × List SetCookie)
  logged_in outcome = do
    user ← build_user_response outcome.user
    pure (login_response outcome.access_token user, refresh_cookie outcome.refresh_token ∷ [])

  unfoldable pub login :
      String → String → Request → Exec (World AuthDb) (LoginResponse × List SetCookie)
  unfolding authenticate_and_open_session build_user_response
  login email password request =
      authenticate_and_open_session a email password request.client_ip request.user_agent
      >>= logged_in

  unfoldable pub logout : Option String → Exec (World AuthDb) (List SetCookie)
  unfolding revoke_session_for_token
  logout cookie_token = do revoke_session_for_token a cookie_token; pure (cleared_cookie ∷ [])

  unfoldable pub refresh_with :
      String → Request → Exec (World AuthDb) (LoginResponse × List SetCookie)
  unfolding rotate_refresh build_user_response
  refresh_with cookie_token request = do
    outcome ← rotate_refresh a cookie_token request.client_ip request.user_agent
    user ← build_user_response outcome.user
    pure (login_response outcome.access_token user, refresh_cookie outcome.new_refresh_token ∷ [])

  unfoldable pub refresh :
      Option String → Request → Exec (World AuthDb) (LoginResponse × List SetCookie)
  unfolding refresh_with
  refresh none request = raise (app_error 401 "invalid refresh token")
  refresh (some token) request =
      if token == ""
      then raise (app_error 401 "invalid refresh token")
      else refresh_with token request

  -- The token of an `Authorization` header; with nothing after the scheme, `[1]` raises.
  unfoldable pub bearer_token : Option String → Result String
  unfolding starts_with after_first_word strip
  bearer_token none = err (app_error 401 "invalid token")
  bearer_token (some authorization) =
      if starts_with (a.lower authorization) "bearer "
      then elim (after_first_word authorization) [
        | none ↦ err (raised "IndexError")
        | some token ↦ ok (strip token)
      ]
      else err (app_error 401 "invalid token")

  abbrev lift_result : {A : Type 0} → Result A → Exec (World AuthDb) A
  lift_result r w = (r, w)

  unfoldable pub validate : Option String → Exec (World AuthDb) ValidateResult
  unfolding bearer_token validate_access_token
  validate authorization = do
    token ← lift_result (bearer_token authorization)
    validate_access_token a token a.secret_key

  -- `uuid.UUID(result.claims["sub"])`, of a valid token
  unfoldable pub token_user_id : Option String → Exec (World AuthDb) ℕ
  unfolding validate uuid_of
  token_user_id authorization = do
    result ← validate authorization
    lift_result (uuid_of a (get "sub" result.claims))

  unfoldable pub get_me : Option String → Exec (World AuthDb) UserResponse
  unfolding token_user_id get_user_by_id build_user_response
  get_me authorization = do
    user_id ← token_user_id authorization
    user ← get_user_by_id user_id
    build_user_response user

  abbrev change : String → Option String → Fields → Fields
  change key none rest = rest
  change key (some v) rest = field key (str v) rest

  unfoldable pub patch_me :
      Option String → Option String → Option String → Exec (World AuthDb) UserResponse
  unfolding token_user_id get_user_by_id update_user event_envelope publish build_user_response
  patch_me authorization full_name phone = do
    user_id ← token_user_id authorization
    get_user_by_id user_id
    changed ← update_user user_id full_name phone
    event ←
        event_envelope a.host "user.updated" (a.str_uuid changed.id)
          (opt_str (str_opt_uuid a changed.tenant_id))
          (field "user_id" (str (a.str_uuid changed.id))
            (field "changes" (obj (change "full_name" full_name (change "phone" phone nil))) nil))
    publish a.host "auth" event
    build_user_response changed
