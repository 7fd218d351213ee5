-- ===== src/Auth/Refresh/Reuse.antt =====
-- What `rotate_refresh` does with a token that is revoked or expired.
use back_end.Prelude.{
  All, ℕ, ◌≤◌, String, true, Option, none, some, List, [], ◌∷◌, map, ◌≡◌, ◌≢◌, ◌⊎◌, refl, arith,
  ◌==◌, string_eq, nat_eq, if◌then◌else◌, leb, inl, inr, nat_beq_iff,
}
use back_end.Prelude.Exec.{Result, err, app_error, ◌>>=◌}
use back_end.Shared.Events.{World}
use back_end.Auth.Models.{RefreshToken}
use back_end.Auth.Db.{AuthDb, token_by_hash}
use back_end.Auth.Db.Laws.{SameKeys}
use back_end.Auth.App.{App}
use back_end.Auth.Tokens.{hash_refresh}
use back_end.Auth.Refresh.{
  RefreshOutcome, rotate_refresh, rotate_found, rotate_unless_dead, is_dead, revoke_row,
  revoke_all_for_user,
}

-- Every session of the user is over.
abbrev pub AllEnded : ℕ → List RefreshToken → Type 0
AllEnded user_id = All (λ t. t.user_id ≡ user_id → t.revoked_at ≢ none)

-- The sessions of other users are as they were.
abbrev others : ℕ → List RefreshToken → List RefreshToken
others user_id [] = []
others user_id (t ∷ ts) =
    let rest = others user_id ts in if t.user_id == user_id then rest else t ∷ rest

map-revoke_row-AllEnded :
    (user_id now : ℕ) (ts : List RefreshToken) → AllEnded user_id (map (revoke_row user_id now) ts)
unfolding revoke_row
map-revoke_row-AllEnded user_id now [] = tt
map-revoke_row-AllEnded user_id now (t ∷ ts) =
    ((λ e. ground (arith, nat_beq_iff t.user_id user_id)), map-revoke_row-AllEnded user_id now ts)

others-revoke_row :
    (user_id now : ℕ) (ts : List RefreshToken)
    → others user_id (map (revoke_row user_id now) ts) ≡ others user_id ts
unfolding revoke_row
others-revoke_row user_id now [] = refl
others-revoke_row user_id now (t ∷ ts) = ground (arith, others-revoke_row user_id now ts)

pub map-revoke_row-SameKeys :
    (user_id now : ℕ) (ts : List RefreshToken) → SameKeys ts (map (revoke_row user_id now) ts)
unfolding revoke_row
map-revoke_row-SameKeys user_id now [] = record { same_ids = refl; same_hashes = refl }
map-revoke_row-SameKeys user_id now (t ∷ ts) =
    let rest = map-revoke_row-SameKeys user_id now ts in
    record {
      same_ids = ground (arith, rest.same_ids);
      same_hashes = ground (arith, rest.same_hashes);
    }

-- The session of the row is over: it was revoked, or it has run out.
abbrev pub IsOver : ℕ → RefreshToken → Type 0
IsOver now t = (t.revoked_at ≢ none) ⊎ (t.expires_at ≤ now)

-- The call was refused, and ended every session of the user, and of no one else.
pub record Ends (user_id : ℕ) (r : Result RefreshOutcome) (before after : AuthDb) : Type 0 where
  pub refused : r ≡ err (app_error 401 "invalid refresh token")
  pub all_ended : AllEnded user_id after.refresh_tokens
  pub rest : others user_id after.refresh_tokens ≡ others user_id before.refresh_tokens
  pub users : after.users ≡ before.users

module _ (a : App) where
  rotate_unless_dead-Ends :
      (row : RefreshToken) (ip ua : Option String) (w : World AuthDb)
      → let (r, w') = rotate_unless_dead a row ip ua true w in Ends row.user_id r w.db w'.db
  unfolding rotate_unless_dead revoke_all_for_user
  rotate_unless_dead-Ends row ip ua w = record {
    refused = refl;
    all_ended = map-revoke_row-AllEnded row.user_id (a.utcnow w.draws) w.db.refresh_tokens;
    rest = others-revoke_row row.user_id (a.utcnow w.draws) w.db.refresh_tokens;
    users = refl;
  }

  is_dead-Ends :
      (row : RefreshToken) (revoked : Option ℕ) (ip ua : Option String) (w : World AuthDb)
      → row.revoked_at ≡ revoked
      → IsOver (a.utcnow w.draws) row
      → let (r, w') = (is_dead a revoked row.expires_at >>= rotate_unless_dead a row ip ua) w in
        Ends row.user_id r w.db w'.db
  unfolding is_dead
  is_dead-Ends row (some at) ip ua w e over = rotate_unless_dead-Ends row ip ua w
  is_dead-Ends row none ip ua w e (inl revoked) = absurd (revoked e)
  is_dead-Ends row none ip ua w e (inr expired) =
      let over : leb row.expires_at (a.utcnow w.draws) ≡ true = ground arith in
      rw over (rotate_unless_dead-Ends row ip ua _)

  rotate_found-Ends :
      (row : RefreshToken) (o : Option RefreshToken) (ip ua : Option String) (w : World AuthDb)
      → o ≡ some row
      → IsOver (a.utcnow w.draws) row
      → let (r, w') = rotate_found a o ip ua w in Ends row.user_id r w.db w'.db
  unfolding rotate_found
  rotate_found-Ends row none ip ua w e over = cc
  rotate_found-Ends row (some x) ip ua w e over =
      let same : row ≡ x = cc in
      rw same (is_dead-Ends x x.revoked_at ip ua w refl (rw same at over))

  -- A token whose session is over is refused with 401, and every session of its user ends; the
  -- users and the sessions of other users stay as they are.
  pub rotate_refresh_over :
      (raw : String) (row : RefreshToken) (ip ua : Option String) (w : World AuthDb)
      → token_by_hash (hash_refresh a raw) w.db.refresh_tokens ≡ some row
      → IsOver (a.utcnow w.draws) row
      → let (r, w') = rotate_refresh a raw ip ua w in Ends row.user_id r w.db w'.db
  unfolding rotate_refresh
  rotate_refresh_over raw row ip ua w found over = rotate_found-Ends row _ ip ua w found over
