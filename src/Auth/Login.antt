-- ===== src/Auth/Login.antt =====
-- services/auth-service/app/services/login.py
pub mod Sessions
pub mod Access
pub mod Decisions
use back_end.Prelude.{
  ℕ, ◌+◌, String, Bool, false, Option, none, some, ◌==◌, string_eq, if◌then◌else◌,
}
use back_end.Prelude.Exec.{Exec, app_error, raise, pure, ◌>>=◌, ◌>>◌}
use back_end.Shared.Host.{minutes}
use back_end.Shared.Exceptions.{forbidden_error}
use back_end.Shared.Events.{World, draw, query}
use back_end.Auth.Models.{User, RefreshToken, value, is_active}
use back_end.Auth.Db.{AuthDb, user_by_email, commit_token}
use back_end.Auth.App.{App}
use back_end.Auth.Tokens.{mint_access_token, mint_refresh_token, hash_refresh}

pub record LoginOutcome : Type 0 where
  pub user : User
  pub access_token : String
  pub expires_at : ℕ
  pub refresh_token : String
  pub refresh_expires_at : ℕ
  pub refresh_row : RefreshToken

module _ (a : App) where
  abbrev or_false : Option Bool → Bool
  or_false none = false
  or_false (some b) = b

  -- `_verify_password`: no hash, an empty one, and one that the package cannot read all fail.
  unfoldable pub verify_password : String → Option String → Bool
  verify_password plain none = false
  verify_password plain (some hashed) =
      if hashed == "" then false else or_false (a.bcrypt_verify plain hashed)

  -- `user is None or not _verify_password(…)`, negated: the user, if the password is theirs.
  unfoldable pub authenticate : String → Option User → Option User
  unfolding verify_password
  authenticate password none = none
  authenticate password (some user) =
      if verify_password password user.password_hash then some user else none

  -- The row of a new session: its primary key and creation time are the model's defaults.
  unfoldable pub new_refresh_row :
      User → String → ℕ → Option String → Option String → Exec (World AuthDb) RefreshToken
  new_refresh_row user raw expires_at ip user_agent = do
    id ← draw a.uuid4
    created_at ← draw a.utcnow
    pure (record {
      id = id;
      user_id = user.id;
      tenant_id = user.tenant_id;
      token_hash = hash_refresh a raw;
      created_at = created_at;
      expires_at = expires_at;
      revoked_at = none;
      revoked_reason = none;
      ip = ip;
      user_agent = user_agent;
    })

  -- From `mint_access_token` on.
  unfoldable pub open_login :
      User → Option String → Option String → Exec (World AuthDb) LoginOutcome
  unfolding new_refresh_row mint_access_token mint_refresh_token
  open_login user ip user_agent = do
    access ←
        mint_access_token a user.id user.tenant_id (value user.status) a.access_token_expire_minutes
          a.secret_key
    refresh_raw ← mint_refresh_token a
    now ← draw a.utcnow
    let refresh_expires_at = now + minutes a.refresh_token_expire_minutes
    row ← new_refresh_row user refresh_raw refresh_expires_at ip user_agent
    users ← query (λ db. db.users)
    tokens ← query (λ db. db.refresh_tokens)
    commit_token row users tokens
    pure (record {
      user = user;
      access_token = access.0;
      expires_at = access.1;
      refresh_token = refresh_raw;
      refresh_expires_at = refresh_expires_at;
      refresh_row = row;
    })

  -- From the first `raise` on, for the user whose password it was.
  unfoldable pub admit :
      Option User → Option String → Option String → Exec (World AuthDb) LoginOutcome
  unfolding open_login
  admit none ip user_agent = raise (app_error 401 "invalid credentials")
  admit (some user) ip user_agent =
      if is_active user.status
      then open_login user ip user_agent
      else raise (forbidden_error "user not active")

  unfoldable pub authenticate_and_open_session :
      String → String → Option String → Option String → Exec (World AuthDb) LoginOutcome
  unfolding authenticate admit
  authenticate_and_open_session email password ip user_agent = do
    found ← query (λ db. user_by_email email db.users)
    admit (authenticate password found) ip user_agent
