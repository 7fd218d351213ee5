-- ===== src/Auth/Controller/Onboarding.antt =====
-- services/auth-service/app/controller.py: the endpoint that onboards, and the session that it opens.
use back_end.Prelude.{ℕ, ◌+◌, Option, none, some, List, [], ◌∷◌, nat_eq, string_eq}
use back_end.Prelude.Exec.{Exec, raised, raise, pure, ◌>>=◌, ◌>>◌}
use back_end.Shared.Host.{minutes}
use back_end.Shared.Events.{World, draw, query, write}
use back_end.Auth.Models.{User, UserStatus, value, active}
use back_end.Auth.Registry.{Registry, Call, OnboardingCompletion, wait_for}
use back_end.Auth.Db.{AuthDb, user_by_id, put_user, commit_token}
use back_end.Auth.App.{App}
use back_end.Auth.Tokens.{mint_access_token, mint_refresh_token}
use back_end.Auth.Login.{new_refresh_row}
use back_end.Auth.Onboarding.{OnboardingRequest, start_onboarding, publish_pending}
use back_end.Auth.Controller.{
  SetCookie, Request, LoginResponse, refresh_cookie, build_user_response, login_response,
}

pub data OnboardingReply : Type 0 where
  -- `OnboardingAcceptedResponse(user_id, status)`
  accepted : ℕ → UserStatus → OnboardingReply
  completed : LoginResponse → List SetCookie → OnboardingReply

module _ (a : App) where
  -- `_open_session`. The commit also writes the user's row, which the caller has changed.
  unfoldable pub open_session :
      User → Request → Exec (World AuthDb) (LoginResponse × List SetCookie)
  unfolding mint_access_token mint_refresh_token new_refresh_row build_user_response
  open_session user request = do
    access ←
        mint_access_token a user.id user.tenant_id (value user.status) a.access_token_expire_minutes
          a.secret_key
    refresh_raw ← mint_refresh_token a
    now ← draw a.utcnow
    row ←
        new_refresh_row a user refresh_raw (now + minutes a.refresh_token_expire_minutes)
          request.client_ip request.user_agent
    db ← query (λ db. db)
    commit_token row (put_user user db.users) db.refresh_tokens
    response ← build_user_response a user
    pure (login_response a access.0 response, refresh_cookie a refresh_raw ∷ [])

  -- The values of the completion are put in the row that was read, and the session is opened.
  abbrev pub complete_found :
      Option User → ℕ → Request → Exec (World AuthDb) (LoginResponse × List SetCookie)
  complete_found none tenant_id request = raise (raised "InvalidRequestError")
  complete_found (some user) tenant_id request =
      open_session (record user { tenant_id = some tenant_id; status = active }) request

  -- From the completion on: the row is read again.
  unfoldable pub complete_onboarding :
      ℕ → ℕ → Request → Exec (World AuthDb) (LoginResponse × List SetCookie)
  unfolding open_session
  complete_onboarding user_id tenant_id request = do
    found ← query (λ db. user_by_id user_id db.users)
    complete_found found tenant_id request

  -- `onboarding` up to the wait.
  unfoldable pub begin_onboarding : OnboardingRequest → Exec (World AuthDb) User
  unfolding start_onboarding publish_pending
  begin_onboarding data' = do
    user ← start_onboarding a data'
    publish_pending a user data'
    pure user

  -- `onboarding` from the test of the completion on.
  abbrev pub reply_to :
      Option OnboardingCompletion
      → User
      → Request
      → Registry
      → Exec (World AuthDb) (OnboardingReply × Registry)
  reply_to none user request registry = pure (accepted user.id user.status, registry)
  reply_to (some c) user request registry = do
    (response, cookies) ← complete_onboarding user.id c.tenant_id request
    pure (completed response cookies, registry)

  -- `onboarding`. While it waits other threads call the registry (`during`, and `after` between
  -- the wake-up and the reading of the result) and change the tables (`meanwhile`).
  unfoldable pub onboarding :
      OnboardingRequest
      → Request
      → List Call
      → List Call
      → (AuthDb → AuthDb)
      → Registry
      → Exec (World AuthDb) (OnboardingReply × Registry)
  unfolding begin_onboarding wait_for complete_onboarding
  onboarding data' request during after meanwhile registry = do
    user ← begin_onboarding data'
    let (completion, registry') = wait_for user.id during after registry
    db ← query (λ db. db)
    write (meanwhile db)
    reply_to completion user request registry'
