-- ===== src/Auth/Refresh.antt =====
-- services/auth-service/app/services/refresh.py
pub mod Rotation
pub mod Reuse
use back_end.Prelude.{
  ℕ, ◌+◌, String, Bool, true, false, Option, none, some, List, [], ◌∷◌, map, ◌==◌, string_eq,
  nat_eq, if◌then◌else◌, ◌&&◌, leb,
}
use back_end.Prelude.Exec.{Exec, app_error, raise, pure, ◌>>=◌, ◌>>◌}
use back_end.Shared.Host.{minutes}
use back_end.Shared.Events.{World, draw, query, write}
use back_end.Auth.Models.{User, RefreshToken, value, is_active}
use back_end.Auth.Db.{AuthDb, user_by_id, token_by_hash, put_token, commit_token}
use back_end.Auth.App.{App}
use back_end.Auth.Tokens.{mint_access_token, mint_refresh_token, hash_refresh}
use back_end.Auth.Login.{new_refresh_row}

pub record RefreshOutcome : Type 0 where
  pub user : User
  pub access_token : String
  pub expires_at : ℕ
  pub new_refresh_token : String
  pub refresh_expires_at : ℕ
  pub new_refresh_row : RefreshToken

-- `RefreshToken.revoked_at.is_(None)`
abbrev pub is_unrevoked : Option ℕ → Bool
is_unrevoked none = true
is_unrevoked (some _) = false

-- One row under `UPDATE … SET revoked_at = now, revoked_reason = 'reuse_detected' WHERE …`
unfoldable pub revoke_row : ℕ → ℕ → RefreshToken → RefreshToken
revoke_row user_id now t =
    if t.user_id == user_id && is_unrevoked t.revoked_at
    then record t { revoked_at = some now; revoked_reason = some "reuse_detected" }
    else t

-- How many rows the update matches: `result.rowcount`.
pub revoke_count : ℕ → List RefreshToken → ℕ
revoke_count user_id [] = 0
revoke_count user_id (t ∷ ts) =
    let rest = revoke_count user_id ts in
    if t.user_id == user_id && is_unrevoked t.revoked_at then rest + 1 else rest

module _ (a : App) where
  -- `_revoke_all_for_user`
  unfoldable pub revoke_all_for_user : ℕ → Exec (World AuthDb) ℕ
  unfolding revoke_row revoke_count
  revoke_all_for_user user_id = do
    now ← draw a.utcnow
    db ← query (λ db. db)
    write (record db { refresh_tokens = map (revoke_row user_id now) db.refresh_tokens })
    pure (revoke_count user_id db.refresh_tokens)

  -- From `mint_access_token` on: the new row and the old one's end are one transaction.
  unfoldable pub rotate :
      RefreshToken → User → Option String → Option String → Exec (World AuthDb) RefreshOutcome
  unfolding new_refresh_row mint_access_token mint_refresh_token
  rotate row user ip user_agent = do
    access ←
        mint_access_token a user.id user.tenant_id (value user.status) a.access_token_expire_minutes
          a.secret_key
    new_raw ← mint_refresh_token a
    now ← draw a.utcnow
    let new_expires_at = now + minutes a.refresh_token_expire_minutes
    new_row ← new_refresh_row a user new_raw new_expires_at ip user_agent
    revoked_at ← draw a.utcnow
    db ← query (λ db. db)
    let rotated = record row { revoked_at = some revoked_at; revoked_reason = some "rotated" }
    commit_token new_row db.users (put_token rotated db.refresh_tokens)
    pure (record {
      user = user;
      access_token = access.0;
      expires_at = access.1;
      new_refresh_token = new_raw;
      refresh_expires_at = new_expires_at;
      new_refresh_row = new_row;
    })

  abbrev reject : {A : Type 0} → Exec (World AuthDb) A
  reject = raise (app_error 401 "invalid refresh token")

  -- A live row: its user must exist and be active.
  unfoldable pub rotate_owner :
      RefreshToken
      → Option User
      → Option String
      → Option String
      → Exec (World AuthDb) RefreshOutcome
  rotate_owner row none ip user_agent = reject
  rotate_owner row (some user) ip user_agent =
      if is_active user.status then rotate row user ip user_agent else reject

  unfoldable pub rotate_live :
      RefreshToken → Option String → Option String → Exec (World AuthDb) RefreshOutcome
  unfolding rotate_owner
  rotate_live row ip user_agent = do
    found ← query (λ db. user_by_id row.user_id db.users)
    rotate_owner row found ip user_agent

  -- `row.revoked_at is not None or row.expires_at <= datetime.utcnow()`: the clock is read only
  -- if the first test fails.
  unfoldable pub is_dead : Option ℕ → ℕ → Exec (World AuthDb) Bool
  is_dead (some _) expires_at = pure true
  is_dead none expires_at = do now ← draw a.utcnow; pure (leb expires_at now)

  -- A dead row ends every session of its user.
  unfoldable pub rotate_unless_dead :
      RefreshToken → Option String → Option String → Bool → Exec (World AuthDb) RefreshOutcome
  unfolding rotate_live
  rotate_unless_dead row ip user_agent true = do revoke_all_for_user row.user_id; reject
  rotate_unless_dead row ip user_agent false = rotate_live row ip user_agent

  unfoldable pub rotate_found :
      Option RefreshToken → Option String → Option String → Exec (World AuthDb) RefreshOutcome
  unfolding is_dead rotate_unless_dead
  rotate_found none ip user_agent = reject
  rotate_found (some row) ip user_agent = do
    dead ← is_dead row.revoked_at row.expires_at
    rotate_unless_dead row ip user_agent dead

  unfoldable pub rotate_refresh :
      String → Option String → Option String → Exec (World AuthDb) RefreshOutcome
  unfolding rotate_found
  rotate_refresh raw_refresh_token ip user_agent = do
    found ← query (λ db. token_by_hash (hash_refresh a raw_refresh_token) db.refresh_tokens)
    rotate_found found ip user_agent
