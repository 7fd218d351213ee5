-- ===== src/Auth/Service/Reads.antt =====
-- What the endpoints of services/auth-service only read.
use back_end.Prelude.{ℕ, String, Option, arith}
use back_end.Shared.Events.Same.{Same, Same-bind, Same-pure, Same-lift}
use back_end.Auth.Models.{User}
use back_end.Auth.App.{App}
use back_end.Auth.Avatars.Reads.{get_avatar_summary-Same}
use back_end.Auth.Tokens.{decode_access_token}
use back_end.Auth.Validate.{validate_access_token}
use back_end.Auth.Users.{get_user_by_id}
use back_end.Auth.Controller.{build_user_response, validate, token_user_id, bearer_token, get_me}

module _ (a : App) where
  pub build_user_response-Same : (user : User) → Same (build_user_response a user)
  unfolding build_user_response
  build_user_response-Same user =
      Same-bind _ _ (get_avatar_summary-Same a user.id) (λ summary. Same-pure _)

  validate_access_token-Same : (token secret : String) → Same (validate_access_token a token secret)
  unfolding validate_access_token decode_access_token
  validate_access_token-Same token secret = record { keeps = λ w. ground arith }

  pub validate-Same : (authorization : Option String) → Same (validate a authorization)
  unfolding validate
  validate-Same authorization =
      Same-bind _ _ (Same-lift (bearer_token a authorization))
        (λ token. validate_access_token-Same token a.secret_key)

  pub token_user_id-Same : (authorization : Option String) → Same (token_user_id a authorization)
  unfolding token_user_id
  token_user_id-Same authorization =
      Same-bind _ _ (validate-Same authorization) (λ result. Same-lift _)

  pub get_user_by_id-Same : (user_id : ℕ) → Same (get_user_by_id user_id)
  unfolding get_user_by_id
  get_user_by_id-Same user_id = record { keeps = λ w. ground arith }

  pub get_me-Same : (authorization : Option String) → Same (get_me a authorization)
  unfolding get_me
  get_me-Same authorization = Same-bind _ _ (token_user_id-Same authorization) (λ user_id.
      Same-bind _ _ (get_user_by_id-Same user_id) (λ user. build_user_response-Same user))
