-- ===== src/Auth/Service/Replays.antt =====
-- What becomes of a session's token over the requests that follow.
use back_end.Prelude.{
  String, Option, none, some, false, ◌==◌, string_eq, eq_iff, subst, refl, List, ◌≡◌, ◌≢◌, arith,
  inl, ap, ◌∙◌, sym,
}
use back_end.Prelude.Exec.{ok}
use back_end.Shared.Events.{World}
use back_end.Auth.Models.{User, RefreshToken}
use back_end.Auth.Db.{AuthDb, token_by_hash}
use back_end.Auth.Db.Laws.{IsValid, user_by_id-id, token_by_hash-put_self}
use back_end.Auth.App.{App}
use back_end.Auth.Tokens.{hash_refresh}
use back_end.Auth.Refresh.{RefreshOutcome, rotate_refresh}
use back_end.Auth.Refresh.Rotation.{rotate_refresh-Renews, ended}
use back_end.Auth.Refresh.Reuse.{Ends, rotate_refresh_over}
use back_end.Auth.Logout.{revoke_session_for_token, revoke_digest, end_found}
use back_end.Auth.Service.{Op, serve_all}
use back_end.Auth.Service.Calls.{logout-Grows}
use back_end.Auth.Service.Steps.{serve_all-Grows}

module _ (a : App) where
  -- A logout with a session's token ends that session.
  revoke_session-found :
      (raw : String) (row : RefreshToken) (w : World AuthDb)
      → IsValid w.db
      → raw ≢ ""
      → token_by_hash (hash_refresh a raw) w.db.refresh_tokens ≡ some row
      → token_by_hash
          (hash_refresh a raw)
          (revoke_session_for_token a (some raw) w).1.db.refresh_tokens
        ≡ some (ended row (a.utcnow w.draws) "user_logout")
  unfolding revoke_session_for_token revoke_digest end_found
  revoke_session-found raw row w v text found =
      let no_text : (raw == "") ≡ false = ground (arith, eq_iff raw "") in
      rw (no_text, found)
        (token_by_hash-put_self (hash_refresh a raw) _ row w.db.refresh_tokens v.ids_of_tokens found
          refl refl)

  -- Once a token is revoked, it is refused after any requests and events in between, completed
  -- onboardings included, and the attempt ends every session of its user then.
  pub rotate_refresh_revoked :
      (raw : String) (row : RefreshToken) (ops : List Op) (ip ua : Option String) (w : World AuthDb)
      → IsValid w.db
      → token_by_hash (hash_refresh a raw) w.db.refresh_tokens ≡ some row
      → row.revoked_at ≢ none
      → let w' = serve_all a ops w in
        let (r, w'') = rotate_refresh a raw ip ua w' in Ends row.user_id r w'.db w''.db
  rotate_refresh_revoked raw row ops ip ua w v found revoked =
      let f = (serve_all-Grows a ops w).finds v (hash_refresh a raw) row found in
      let w' = serve_all a ops w in
      subst
        (λ u. Ends u (rotate_refresh a raw ip ua w').0 w'.db (rotate_refresh a raw ip ua w').1.db)
        f.kept.same_user
        (rotate_refresh_over a raw f.later ip ua w' f.found (inl (f.kept.stays_revoked revoked)))

  -- A token renews its session once: after a call that did, and any requests and events in between,
  -- completed onboardings included, a second call with it is refused and ends every session of that
  -- user, the renewed one included.
  pub rotate_refresh_once :
      (raw : String) (ip ua ip' ua' : Option String) (w : World AuthDb) (out : RefreshOutcome)
      (ops : List Op)
      → IsValid w.db
      → (rotate_refresh a raw ip ua w).0 ≡ ok out
      → let w' = serve_all a ops (rotate_refresh a raw ip ua w).1 in
        let (r, w'') = rotate_refresh a raw ip' ua' w' in Ends out.user.id r w'.db w''.db
  rotate_refresh_once raw ip ua ip' ua' w out ops v h =
      let n = rotate_refresh-Renews a raw ip ua w out v h in
      let w' = (rotate_refresh a raw ip ua w).1 in
      let w'' = serve_all a ops w' in
      let owner : n.row.user_id ≡ out.user.id =
        sym (user_by_id-id n.row.user_id w.db.users n.owner)
        ∙ ap (λ (u : User). u.id) (sym n.rotates.same_user) in
      subst
        (λ u.
          Ends u (rotate_refresh a raw ip' ua' w'').0 w''.db
            (rotate_refresh a raw ip' ua' w'').1.db)
        owner
        (rotate_refresh_revoked raw _ ops ip' ua' w' n.rotates.rotated.valid
          n.rotates.rotated.old_ended (λ e. cc))

  -- After a logout with a session's token, and any requests and events in between, completed
  -- onboardings included, the token is refused, and the attempt ends every session of its user.
  pub logout_refused :
      (raw : String) (row : RefreshToken) (ops : List Op) (ip ua : Option String) (w : World AuthDb)
      → IsValid w.db
      → raw ≢ ""
      → token_by_hash (hash_refresh a raw) w.db.refresh_tokens ≡ some row
      → let w' = serve_all a ops (revoke_session_for_token a (some raw) w).1 in
        let (r, w'') = rotate_refresh a raw ip ua w' in Ends row.user_id r w'.db w''.db
  logout_refused raw row ops ip ua w v text found =
      rotate_refresh_revoked raw (ended row (a.utcnow w.draws) "user_logout") ops ip ua
        (revoke_session_for_token a (some raw) w).1 ((logout-Grows a (some raw) w).valid v)
        (revoke_session-found raw row w v text found) (λ e. cc)
