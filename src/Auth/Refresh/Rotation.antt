-- ===== src/Auth/Refresh/Rotation.antt =====
-- What `rotate_refresh` does to the session whose token it is given.
use back_end.Prelude.{
  ℕ, ◌<◌, String, Bool, true, false, Option, none, some, List, [], ◌∷◌, ◌++◌, ◌≡◌, refl, subst,
  arith, string_eq, nat_eq, leb, Bool-cases, inl, inr,
}
use back_end.Prelude.Exec.{ok, pure, ◌>>=◌, ◌>>◌}
use back_end.Prelude.Distinct.{contains, find-snoc_self, find-snoc_old}
use back_end.Shared.Events.{World}
use back_end.Auth.Models.{User, RefreshToken, is_active}
use back_end.Auth.Db.{AuthDb, user_by_id, token_by_hash, put_token, commit_token}
use back_end.Auth.Db.Laws.{
  IsValid, SameKeys, SameKeys-IsValid, token_by_hash-id, put_token-SameKeys, hashes, token_ids,
  with_token-IsValid, commit_token_cases, token_by_hash-put_self,
}
use back_end.Auth.App.{App}
use back_end.Auth.Tokens.{hash_refresh}
use back_end.Auth.Refresh.{
  RefreshOutcome, rotate_refresh, rotate_found, rotate_unless_dead, rotate_owner, rotate, is_dead,
  revoke_all_for_user,
}

-- The session of a row is open: the row is neither revoked nor expired at the time.
abbrev pub IsOpen : ℕ → RefreshToken → Type 0
IsOpen now t = (t.revoked_at ≡ none) × (now < t.expires_at)

-- A row that was rotated out.
abbrev pub ended : RefreshToken → ℕ → String → RefreshToken
ended row now reason = record row { revoked_at = some now; revoked_reason = some reason }

-- The tables after the token with a digest was rotated out for `new`: it is found revoked, the new
-- one is found as it was made, and the other tables and constraints are as they were.
pub record IsRotated (digest : String) (old new : RefreshToken) (before after : AuthDb)
    : Type 0 where
  pub users : after.users ≡ before.users
  pub revoked_at : ℕ
  pub old_ended : token_by_hash digest after.refresh_tokens ≡ some (ended old revoked_at "rotated")
  pub new_found : token_by_hash new.token_hash after.refresh_tokens ≡ some new
  pub valid : IsValid after

module _ (digest : String) (row new : RefreshToken) (now draws : ℕ) (out : RefreshOutcome)
    (w : World AuthDb) (v : IsValid w.db)
    (found : token_by_hash digest w.db.refresh_tokens ≡ some row) where
  abbrev rest : List RefreshToken
  rest = put_token (ended row now "rotated") w.db.refresh_tokens

  rest-SameKeys : SameKeys w.db.refresh_tokens rest
  rest-SameKeys =
      put_token-SameKeys (ended row now "rotated") row w.db.refresh_tokens v.ids_of_tokens
        (token_by_hash-id digest w.db.refresh_tokens v.ids_of_tokens found) refl

  rest-found : token_by_hash digest rest ≡ some (ended row now "rotated")
  rest-found =
      token_by_hash-put_self digest (ended row now "rotated") row w.db.refresh_tokens
        v.ids_of_tokens found refl refl

  commit-IsRotated :
      contains new.id (token_ids rest) ≡ false
      → contains new.token_hash (hashes rest) ≡ false
      → IsRotated digest row new w.db
          (record { users = w.db.users; refresh_tokens = rest ++ new ∷ [] })
  unfolding token_by_hash
  commit-IsRotated new_id new_hash = record {
    users = refl;
    revoked_at = now;
    old_ended =
        find-snoc_old (λ t. t.token_hash) digest new (ended row now "rotated") rest rest-found;
    new_found = find-snoc_self (λ t. t.token_hash) new rest new_hash;
    valid =
        with_token-IsValid new w.db.users rest w new_id new_hash (SameKeys-IsValid rest-SameKeys v);
  }

  rotate_commit :
      {out' : RefreshOutcome}
      → let call = (commit_token new w.db.users rest >> pure out) (record w { draws = draws }) in
        call.0 ≡ ok out' → (out ≡ out') × IsRotated digest row new w.db call.1.db
  rotate_commit h = elim (commit_token_cases new w.db.users rest (record w { draws = draws })) [
    | inl e ↦ ground (arith, e)
    | inr (new_id, new_hash, e) ↦ rw (e, ◌>>◌) (ground (arith, e), commit-IsRotated new_id new_hash)
  ]

module _ (a : App) where
  -- What a rotation of the session of `row` returned and did.
  pub record Rotates (digest : String) (row : RefreshToken) (user : User) (out : RefreshOutcome)
      (before after : AuthDb) : Type 0 where
    pub same_user : out.user ≡ user
    pub user_of_new : out.new_refresh_row.user_id ≡ user.id
    pub digest_of_new : out.new_refresh_row.token_hash ≡ hash_refresh a out.new_refresh_token
    pub new_unrevoked : out.new_refresh_row.revoked_at ≡ none
    pub rotated : IsRotated digest row out.new_refresh_row before after

  rotate-Rotates :
      (digest : String) (row : RefreshToken) (user : User) (ip ua : Option String)
      (w : World AuthDb) {out : RefreshOutcome}
      → IsValid w.db
      → token_by_hash digest w.db.refresh_tokens ≡ some row
      → (rotate a row user ip ua w).0 ≡ ok out
      → Rotates digest row user out w.db (rotate a row user ip ua w).1.db
  unfolding rotate
  rotate-Rotates digest row user ip ua w {out} v found h =
      let (same, r) = rotate_commit digest row _ _ _ _ w v found h in
      subst (λ o. Rotates digest row user o w.db (rotate a row user ip ua w).1.db) same
        (record {
          same_user = refl;
          user_of_new = refl;
          digest_of_new = refl;
          new_unrevoked = refl;
          rotated = r;
        })

  -- The session that a call of `rotate_refresh` renewed was open, and its user active.
  pub record Renews (digest : String) (now : ℕ) (out : RefreshOutcome) (before after : AuthDb)
      : Type 0 where
    pub row : RefreshToken
    pub found : token_by_hash digest before.refresh_tokens ≡ some row
    pub was_open : IsOpen now row
    pub user : User
    pub owner : user_by_id row.user_id before.users ≡ some user
    pub active_user : is_active user.status ≡ true
    pub rotates : Rotates digest row user out before after

  rotate_owner-Renews :
      (digest : String) (now : ℕ) (row : RefreshToken) (o : Option User) (ip ua : Option String)
      (w : World AuthDb) {out : RefreshOutcome}
      → IsValid w.db
      → token_by_hash digest w.db.refresh_tokens ≡ some row
      → IsOpen now row
      → user_by_id row.user_id w.db.users ≡ o
      → (rotate_owner a row o ip ua w).0 ≡ ok out
      → Renews digest now out w.db (rotate_owner a row o ip ua w).1.db
  unfolding rotate_owner
  rotate_owner-Renews digest now row none ip ua w v found opened own h = cc
  rotate_owner-Renews digest now row (some user) ip ua w {out} v found opened own h =
      elim (Bool-cases (is_active user.status)) [
        | inl is ↦
            let r = rotate-Rotates digest row user ip ua w v found (rw is at h) in
            rw is (record {
              row = row;
              found = found;
              was_open = opened;
              user = user;
              owner = own;
              active_user = is;
              rotates = r;
            })
        | inr not_active ↦ ground arith
      ]

  rotate_unless_dead-Renews :
      (digest : String) (now : ℕ) (row : RefreshToken) (ip ua : Option String) (dead : Bool)
      (w : World AuthDb) {out : RefreshOutcome}
      → IsValid w.db
      → token_by_hash digest w.db.refresh_tokens ≡ some row
      → (dead ≡ false → IsOpen now row)
      → (rotate_unless_dead a row ip ua dead w).0 ≡ ok out
      → Renews digest now out w.db (rotate_unless_dead a row ip ua dead w).1.db
  unfolding rotate_unless_dead revoke_all_for_user
  rotate_unless_dead-Renews digest now row ip ua true w v found opened h = cc
  rotate_unless_dead-Renews digest now row ip ua false w v found opened h =
      rotate_owner-Renews digest now row (user_by_id row.user_id w.db.users) ip ua w v found
        (opened refl) refl h

  rotate_found-Renews :
      (digest : String) (row : RefreshToken) (revoked : Option ℕ) (ip ua : Option String)
      (w : World AuthDb) {out : RefreshOutcome}
      → IsValid w.db
      → token_by_hash digest w.db.refresh_tokens ≡ some row
      → row.revoked_at ≡ revoked
      → let call = (is_dead a revoked row.expires_at >>= rotate_unless_dead a row ip ua) w in
        call.0 ≡ ok out → Renews digest (a.utcnow w.draws) out w.db call.1.db
  unfolding is_dead
  rotate_found-Renews digest row (some at) ip ua w v found e h =
      rotate_unless_dead-Renews digest (a.utcnow w.draws) row ip ua true w v found (λ f. cc) h
  rotate_found-Renews digest row none ip ua w v found e h =
      rotate_unless_dead-Renews digest (a.utcnow w.draws) row ip ua
        (leb row.expires_at (a.utcnow w.draws)) _ v found (λ f. (e, ground arith)) h

  rotate_option-Renews :
      (digest : String) (o : Option RefreshToken) (ip ua : Option String) (w : World AuthDb)
      {out : RefreshOutcome}
      → IsValid w.db
      → token_by_hash digest w.db.refresh_tokens ≡ o
      → (rotate_found a o ip ua w).0 ≡ ok out
      → Renews digest (a.utcnow w.draws) out w.db (rotate_found a o ip ua w).1.db
  unfolding rotate_found
  rotate_option-Renews digest none ip ua w v found h = cc
  rotate_option-Renews digest (some row) ip ua w v found h =
      rotate_found-Renews digest row row.revoked_at ip ua w v found refl h

  -- When `rotate_refresh` returns, the token's session was open and its user existed and was active;
  -- afterwards the token is found revoked, the new token is found, unrevoked and of the same user,
  -- and the unique columns are still unique.
  pub rotate_refresh-Renews :
      (raw : String) (ip ua : Option String) (w : World AuthDb) (out : RefreshOutcome)
      → IsValid w.db
      → (rotate_refresh a raw ip ua w).0 ≡ ok out
      → Renews (hash_refresh a raw) (a.utcnow w.draws) out w.db (rotate_refresh a raw ip ua w).1.db
  unfolding rotate_refresh
  rotate_refresh-Renews raw ip ua w out v h =
      rotate_option-Renews (hash_refresh a raw) _ ip ua w v refl h
