-- ===== src/Auth/Logout.antt =====
-- services/auth-service/app/services/logout.py
use back_end.Prelude.{String, Bool, true, false, Option, none, some, ◌==◌, string_eq, if◌then◌else◌}
use back_end.Prelude.Exec.{Exec, pure, ◌>>=◌, ◌>>◌}
use back_end.Shared.Events.{World, draw, query, write}
use back_end.Auth.Models.{RefreshToken}
use back_end.Auth.Db.{AuthDb, token_by_hash, put_token}
use back_end.Auth.App.{App}
use back_end.Auth.Tokens.{hash_refresh}

module _ (a : App) where
  -- The row's `revoked_at` and `revoked_reason` are written, whatever they were.
  unfoldable pub end_session : RefreshToken → Exec (World AuthDb) Bool
  end_session row = do
    now ← draw a.utcnow
    db ← query (λ db. db)
    let ended = record row { revoked_at = some now; revoked_reason = some "user_logout" }
    write (record db { refresh_tokens = put_token ended db.refresh_tokens })
    pure true

  unfoldable pub end_found : Option RefreshToken → Exec (World AuthDb) Bool
  unfolding end_session
  end_found none = pure false
  end_found (some row) = end_session row

  unfoldable pub revoke_digest : String → Exec (World AuthDb) Bool
  unfolding end_found
  revoke_digest digest = do
    found ← query (λ db. token_by_hash digest db.refresh_tokens)
    end_found found

  unfoldable pub revoke_session_for_token : Option String → Exec (World AuthDb) Bool
  unfolding revoke_digest
  revoke_session_for_token none = pure false
  revoke_session_for_token (some raw) =
      if raw == "" then pure false else revoke_digest (hash_refresh a raw)
