-- ===== src/Auth/Service.antt =====
-- The requests and events of services/auth-service, one after the other: the controller's functions
-- (app/controller.py) and the consumer's handler (app/services/onboarding.py). A request that onboards
-- waits in between for a completion, and is two steps: the one up to the wait, and, if the completion
-- comes in time, the one that opens the session. Any other steps may stand between the two.
pub mod Reads
pub mod Grows
pub mod Calls
pub mod Steps
pub mod Replays
use back_end.Prelude.{ℕ, String, Option, List, [], ◌∷◌}
use back_end.Shared.Events.{EventEnvelope, World}
use back_end.Auth.Db.{AuthDb}
use back_end.Auth.App.{App}
use back_end.Auth.Onboarding.{OnboardingRequest, handle_tenant_created}
use back_end.Auth.Controller.{Request, login, logout, refresh, validate, get_me, patch_me}
use back_end.Auth.Controller.Onboarding.{begin_onboarding, complete_onboarding}

pub data Op : Type 0 where
  logs_in : String → String → Request → Op
  -- with the refresh cookie, as the next one
  refreshes : Option String → Request → Op
  logs_out : Option String → Op
  -- with the `Authorization` header, as the next two
  validates : Option String → Op
  gets_me : Option String → Op
  patches_me : Option String → Option String → Option String → Op
  onboards : OnboardingRequest → Op
  -- the ids of the user and of the tenant that the completion carries
  ends_onboarding : ℕ → ℕ → Request → Op
  receives : EventEnvelope → Op

module _ (a : App) where
  -- The state after a step, whether it returned or raised.
  unfoldable pub serve : Op → World AuthDb → World AuthDb
  unfolding begin_onboarding complete_onboarding login logout refresh validate get_me patch_me
      handle_tenant_created
  serve (logs_in email password request) w = (login a email password request w).1
  serve (refreshes cookie_token request) w = (refresh a cookie_token request w).1
  serve (logs_out cookie_token) w = (logout a cookie_token w).1
  serve (validates authorization) w = (validate a authorization w).1
  serve (gets_me authorization) w = (get_me a authorization w).1
  serve (patches_me authorization full_name phone) w =
      (patch_me a authorization full_name phone w).1
  serve (onboards data') w = (begin_onboarding a data' w).1
  serve (ends_onboarding user_id tenant_id request) w =
      (complete_onboarding a user_id tenant_id request w).1
  serve (receives event) w = (handle_tenant_created a event w).1

  unfoldable pub serve_all : List Op → World AuthDb → World AuthDb
  unfolding serve
  serve_all [] w = w
  serve_all (op ∷ ops) w = serve_all ops (serve op w)
