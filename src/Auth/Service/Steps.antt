-- ===== src/Auth/Service/Steps.antt =====
-- Every request and event of the auth service changes the tables as Service/Grows.antt says.
use back_end.Prelude.{
  ℕ, String, Option, none, some, List, [], ◌∷◌, ◌≡◌, refl, subst, sym, ◌==◌, string_eq, Bool-cases,
  inl, inr,
}
use back_end.Shared.Events.{World, event_envelope, publish}
use back_end.Shared.Events.Laws.{publish-db}
use back_end.Shared.Events.Same.{Same, Same-bind, Same-pure}
use back_end.Auth.Models.{User}
use back_end.Auth.Db.{AuthDb, user_by_id}
use back_end.Auth.App.{App}
use back_end.Auth.Registry.{Call, Registry, OnboardingCompletion, wait_for}
use back_end.Auth.Login.{authenticate_and_open_session}
use back_end.Auth.Users.{get_user_by_id, update_user}
use back_end.Auth.Onboarding.{OnboardingRequest, publish_pending}
use back_end.Auth.Controller.{
  Request, login, refresh_with, refresh, logout, token_user_id, patch_me,
}
use back_end.Auth.Controller.Onboarding.{
  open_session, complete_found, complete_onboarding, reply_to, onboarding, begin_onboarding,
}
use back_end.Auth.Service.{
  Op, logs_in, refreshes, logs_out, validates, gets_me, patches_me, onboards, ends_onboarding,
  receives, serve, serve_all,
}
use back_end.Auth.Service.Grows.{
  Grows, Grows-refl, Grows-trans, commit_token-Grows, put_user-Grows, continue-Grows, Same-Grows,
}
use back_end.Auth.Service.Calls.{
  owner, rotate_refresh-Grows, admit-Grows, logout-Grows, onboards-Grows, updates-Grows,
  receives-Grows,
}
use back_end.Auth.Service.Reads.{
  build_user_response-Same, validate-Same, token_user_id-Same, get_user_by_id-Same, get_me-Same,
}

module _ (a : App) where
  login-Grows :
      (email password : String) (request : Request) (w : World AuthDb)
      → Grows w.db (login a email password request w).1.db
  unfolding login authenticate_and_open_session
  login-Grows email password request w =
      continue-Grows _ _ (admit-Grows a _ request.client_ip request.user_agent w) (λ out.
        Same-Grows (Same-bind _ _ (build_user_response-Same a out.user) (λ user. Same-pure _)))

  refresh_with-Grows :
      (token : String) (request : Request) (w : World AuthDb)
      → Grows w.db (refresh_with a token request w).1.db
  unfolding refresh_with
  refresh_with-Grows token request w =
      continue-Grows _ _ (rotate_refresh-Grows a token request.client_ip request.user_agent w)
        (λ out.
          Same-Grows (Same-bind _ _ (build_user_response-Same a out.user) (λ user. Same-pure _)))

  refresh-Grows :
      (cookie_token : Option String) (request : Request) (w : World AuthDb)
      → Grows w.db (refresh a cookie_token request w).1.db
  unfolding refresh
  refresh-Grows none request w = Grows-refl
  refresh-Grows (some token) request w = elim (Bool-cases (token == "")) [
    | inl no_text ↦ rw no_text Grows-refl
    | inr text ↦ rw text (refresh_with-Grows token request w)
  ]

  -- The session of a completed onboarding is a new row, and its user's row is written with it.
  open_session-Grows :
      (user old : User) (request : Request) (w : World AuthDb)
      → user_by_id user.id w.db.users ≡ some old
      → user.email ≡ old.email
      → Grows w.db (open_session a user request w).1.db
  unfolding open_session
  open_session-Grows user old request w found same_email =
      continue-Grows _ _
        (commit_token-Grows _ _ _ _ (put_user-Grows user old w.db found same_email))
        (λ _.
          Same-Grows (Same-bind _ _ (build_user_response-Same a user) (λ response. Same-pure _)))

  ends_onboarding-Grows :
      (user_id tenant_id : ℕ) (request : Request) (w : World AuthDb)
      → Grows w.db (complete_onboarding a user_id tenant_id request w).1.db
  unfolding complete_onboarding
  ends_onboarding-Grows user_id tenant_id request w = go (user_by_id user_id w.db.users) refl
    where
      go :
          (o : Option User)
          → user_by_id user_id w.db.users ≡ o
          → Grows w.db (complete_found a o tenant_id request w).1.db
      go none h = Grows-refl
      go (some user) h = open_session-Grows _ user request w (owner user_id w.db.users h) refl

  publish_pending-Same :
      (user : User) (data' : OnboardingRequest) → Same (publish_pending a user data')
  unfolding publish_pending event_envelope
  publish_pending-Same user data' = record { keeps = λ w. publish-db a.host "onboarding" _ _ }

  begin_onboarding-Grows :
      (data' : OnboardingRequest) (w : World AuthDb) → Grows w.db (begin_onboarding a data' w).1.db
  unfolding begin_onboarding
  begin_onboarding-Grows data' w =
      continue-Grows _ _ (onboards-Grows a data' w) (λ user.
        Same-Grows (Same-bind _ _ (publish_pending-Same user data') (λ id. Same-pure user)))

  reply_to-Grows :
      (completion : Option OnboardingCompletion) (user : User) (request : Request)
      (registry : Registry) (w : World AuthDb)
      → Grows w.db (reply_to a completion user request registry w).1.db
  reply_to-Grows none user request registry w = Grows-refl
  reply_to-Grows (some c) user request registry w =
      continue-Grows (complete_onboarding a user.id c.tenant_id request w) _
        (ends_onboarding-Grows user.id c.tenant_id request w) (λ _ _. Grows-refl)

  -- A request that onboards, as a whole: the tables change so if those that other threads change while
  -- it waits do.
  onboarding-Grows :
      (data' : OnboardingRequest) (request : Request) (during after : List Call)
      (meanwhile : AuthDb → AuthDb) (registry : Registry) (w : World AuthDb)
      → ((db : AuthDb) → Grows db (meanwhile db))
      → Grows w.db (onboarding a data' request during after meanwhile registry w).1.db
  unfolding onboarding
  onboarding-Grows data' request during after meanwhile registry w others =
      continue-Grows (begin_onboarding a data' w) _ (begin_onboarding-Grows data' w) (λ user w₁.
        Grows-trans (others w₁.db)
          (reply_to-Grows (wait_for user.id during after registry).0 user request _ _))

  patch_me-Grows :
      (authorization full_name phone : Option String) (w : World AuthDb)
      → Grows w.db (patch_me a authorization full_name phone w).1.db
  unfolding patch_me
  patch_me-Grows authorization full_name phone w =
      continue-Grows (token_user_id a authorization w) _
        (Same-Grows (token_user_id-Same a authorization) w)
        (λ user_id w₁.
          continue-Grows (get_user_by_id user_id w₁) _
            (Same-Grows (get_user_by_id-Same a user_id) w₁)
            (λ _ w₂.
              continue-Grows (update_user user_id full_name phone w₂) _
                (updates-Grows a user_id full_name phone w₂)
                (λ changed w₃.
                  continue-Grows (publish a.host "auth" _ _) _
                    (subst (Grows w₃.db) (sym (publish-db a.host "auth" _ _)) Grows-refl)
                    (λ _. Same-Grows (build_user_response-Same a changed)))))

  pub serve-Grows : (op : Op) (w : World AuthDb) → Grows w.db (serve a op w).db
  unfolding serve logout
  serve-Grows (logs_in email password request) w = login-Grows email password request w
  serve-Grows (refreshes cookie_token request) w = refresh-Grows cookie_token request w
  serve-Grows (logs_out cookie_token) w =
      continue-Grows _ _ (logout-Grows a cookie_token w) (λ _ _. Grows-refl)
  serve-Grows (validates authorization) w = Same-Grows (validate-Same a authorization) w
  serve-Grows (gets_me authorization) w = Same-Grows (get_me-Same a authorization) w
  serve-Grows (patches_me authorization full_name phone) w =
      patch_me-Grows authorization full_name phone w
  serve-Grows (onboards data') w = begin_onboarding-Grows data' w
  serve-Grows (ends_onboarding user_id tenant_id request) w =
      ends_onboarding-Grows user_id tenant_id request w
  serve-Grows (receives event) w = receives-Grows a event w

  -- Over any sequence of requests and events, failed ones and both steps of an onboarding included, from
  -- tables that meet their constraints: the constraints stay met, and each session stays in the table
  -- with its user, digest and expiry, and stays revoked once it is.
  pub serve_all-Grows : (ops : List Op) (w : World AuthDb) → Grows w.db (serve_all a ops w).db
  unfolding serve_all
  serve_all-Grows [] w = Grows-refl
  serve_all-Grows (op ∷ ops) w = Grows-trans (serve-Grows op w) (serve_all-Grows ops (serve a op w))
