-- ===== src/Auth/Router.antt =====
-- services/auth-service/app/router.py: the endpoints, from a request's body to the response that is sent.
pub mod Cookies
use back_end.Prelude.{ℕ, String, Bool, Option, none, some, List, [], ◌∷◌}
use back_end.Prelude.Exec.{Exec, Result, pure, ◌>>=◌}
use back_end.Shared.Events.{World}
use back_end.Auth.App.{App}
use back_end.Auth.Db.{AuthDb}
use back_end.Auth.Registry.{Registry, Call}
use back_end.Auth.Onboarding.{OnboardingRequest}
use back_end.Auth.Schemas.{Validators, onboarding_request, login_request, user_update_request}
use back_end.Auth.Validate.{ValidateResult}
use back_end.Auth.Controller.{
  SetCookie, Request, UserResponse, LoginResponse, login, logout, refresh, validate, get_me,
  patch_me,
}
use back_end.Auth.Controller.Onboarding.{OnboardingReply, accepted, completed, onboarding}

-- A response: its status, its body and its Set-Cookie header, if any.
pub record Reply (A : Type 0) : Type 0 where
  pub status_code : ℕ
  pub content : A
  pub set_cookie : Option SetCookie

-- The assignment of a header replaces the one before, so that of several cookies the last stays.
abbrev pub last_cookie : List SetCookie → Option SetCookie
last_cookie [] = none
last_cookie (c ∷ []) = some c
last_cookie (c ∷ d ∷ cs) = last_cookie (d ∷ cs)

-- `_with_set_cookie`
abbrev pub with_set_cookie : {A : Type 0} → A → List SetCookie → ℕ → Reply A
with_set_cookie payload cookies status_code = record {
  status_code = status_code;
  content = payload;
  set_cookie = last_cookie cookies;
}

module _ (a : App) (v : Validators) where
  abbrev validated : {A : Type 0} → Result A → Exec (World AuthDb) A
  validated r w = (r, w)

  -- 200 if the payload has an access token, and else 202
  abbrev pub onboarding_reply : OnboardingReply → Reply (OnboardingReply)
  onboarding_reply (accepted user_id status) = with_set_cookie (accepted user_id status) [] 202
  onboarding_reply (completed response cookies) =
      with_set_cookie (completed response cookies) cookies 200

  unfoldable pub onboarding_endpoint :
      OnboardingRequest
      → Request
      → List Call
      → List Call
      → (AuthDb → AuthDb)
      → Registry
      → Exec (World AuthDb) (Reply (OnboardingReply) × Registry)
  unfolding onboarding_request onboarding
  onboarding_endpoint body request during after meanwhile registry = do
    data' ← validated (onboarding_request v body)
    (reply, registry') ← onboarding a data' request during after meanwhile registry
    pure (onboarding_reply reply, registry')

  abbrev pub reply_of : LoginResponse × List SetCookie → Reply LoginResponse
  reply_of (response, cookies) = with_set_cookie response cookies 200

  -- From the validated body on.
  abbrev pub send_login : Request → String × String → Exec (World AuthDb) (Reply LoginResponse)
  send_login request (email, password) = do
    response ← login a email password request
    pure (reply_of response)

  unfoldable pub login_endpoint :
      String → String → Request → Exec (World AuthDb) (Reply LoginResponse)
  unfolding login_request login
  login_endpoint email password request =
      validated (login_request v email password) >>= send_login request

  unfoldable pub logout_endpoint : Option String → Exec (World AuthDb) (Reply Unit)
  unfolding logout
  logout_endpoint cookie_token = do
    cookies ← logout a cookie_token
    pure (with_set_cookie tt cookies 204)

  unfoldable pub refresh_endpoint :
      Option String → Request → Exec (World AuthDb) (Reply LoginResponse)
  unfolding refresh
  refresh_endpoint cookie_token request = do
    response ← refresh a cookie_token request
    pure (reply_of response)

  abbrev plain : {A : Type 0} → A → Reply A
  plain content = record { status_code = 200; content = content; set_cookie = none }

  unfoldable pub validate_endpoint : Option String → Exec (World AuthDb) (Reply ValidateResult)
  unfolding validate
  validate_endpoint authorization = do result ← validate a authorization; pure (plain result)

  unfoldable pub get_me_endpoint : Option String → Exec (World AuthDb) (Reply UserResponse)
  unfolding get_me
  get_me_endpoint authorization = do user ← get_me a authorization; pure (plain user)

  unfoldable pub patch_me_endpoint :
      Option String → Option String → Option String → Exec (World AuthDb) (Reply UserResponse)
  unfolding user_update_request patch_me
  patch_me_endpoint authorization full_name phone = do
    (full_name', phone') ← validated (user_update_request full_name phone)
    user ← patch_me a authorization full_name' phone'
    pure (plain user)
