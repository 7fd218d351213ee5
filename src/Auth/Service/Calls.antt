-- ===== src/Auth/Service/Calls.antt =====
-- The calls of the services that write to the tables change them as Service/Grows.antt says.
use back_end.Prelude.{
  ℕ, String, Bool, true, false, Option, none, some, List, ◌≡◌, refl, subst, sym, arith, inl, inr,
  ◌==◌, nat_eq, string_eq, Bool-cases, leb,
}
use back_end.Prelude.Exec.{Result, ok, err, ◌>>=◌}
use back_end.Shared.Events.{query, EventEnvelope, World}
use back_end.Auth.Models.{User, RefreshToken, is_active}
use back_end.Auth.Db.{AuthDb, user_by_email, user_by_id, token_by_hash}
use back_end.Auth.Db.Laws.{user_by_id-id}
use back_end.Shared.Json.{str, get}
use back_end.Shared.Events.Laws.{publish-db}
use back_end.Auth.App.{App}
use back_end.Auth.Tokens.{hash_refresh}
use back_end.Auth.Login.{admit, open_login}
use back_end.Auth.Refresh.{
  rotate_refresh, rotate_found, rotate_unless_dead, rotate_owner, rotate, is_dead,
  revoke_all_for_user, revoke_row,
}
use back_end.Auth.Refresh.Reuse.{map-revoke_row-SameKeys}
use back_end.Auth.Logout.{revoke_session_for_token, revoke_digest, end_found}
use back_end.Auth.Users.{or_not_found, write_user, get_user_by_id, update_user}
use back_end.Auth.Onboarding.{
  OnboardingRequest, new_user, add_user, add_unless, assign_to, lift, start_onboarding,
  handle_tenant_created, assign_tenant, uuid_of,
}
use back_end.Auth.Service.Grows.{
  Grows, IsKept, Grows-refl, map-Grows, put_token-Grows, commit_token-Grows, commit_user-Grows,
  put_user-Grows, continue-Grows,
}

revoke_row-IsKept : (user_id now : ℕ) (t : RefreshToken) → IsKept t (revoke_row user_id now t)
unfolding revoke_row
revoke_row-IsKept user_id now t = record {
  same_user = ground arith;
  same_hash = ground arith;
  same_expiry = ground arith;
  stays_revoked = λ h e. ground arith;
}

-- The user that an id finds is found by its own id.
pub owner :
    (id : ℕ) (us : List User) {u : User} → user_by_id id us ≡ some u → user_by_id u.id us ≡ some u
owner id us {u} h = subst (λ i. user_by_id i us ≡ some u) (sym (user_by_id-id id us h)) h

module _ (a : App) where
  rotate-Grows :
      (digest : String) (row : RefreshToken) (user : User) (ip ua : Option String)
      (w : World AuthDb)
      → token_by_hash digest w.db.refresh_tokens ≡ some row
      → Grows w.db (rotate a row user ip ua w).1.db
  unfolding rotate
  rotate-Grows digest row user ip ua w h =
      continue-Grows _ _
        (commit_token-Grows _ _ _ _ (
          put_token-Grows digest row _ w.db h refl (record {
            same_user = refl;
            same_hash = refl;
            same_expiry = refl;
            stays_revoked = λ _ e. cc;
          })))
        (λ _ _. Grows-refl)

  rotate_owner-Grows :
      (digest : String) (row : RefreshToken) (o : Option User) (ip ua : Option String)
      (w : World AuthDb)
      → token_by_hash digest w.db.refresh_tokens ≡ some row
      → Grows w.db (rotate_owner a row o ip ua w).1.db
  unfolding rotate_owner
  rotate_owner-Grows digest row none ip ua w h = Grows-refl
  rotate_owner-Grows digest row (some user) ip ua w h = elim (Bool-cases (is_active user.status)) [
    | inl is ↦ rw is (rotate-Grows digest row user ip ua w h)
    | inr not_active ↦ rw not_active Grows-refl
  ]

  rotate_unless_dead-Grows :
      (digest : String) (row : RefreshToken) (dead : Bool) (ip ua : Option String)
      (w : World AuthDb)
      → token_by_hash digest w.db.refresh_tokens ≡ some row
      → Grows w.db (rotate_unless_dead a row ip ua dead w).1.db
  unfolding rotate_unless_dead revoke_all_for_user
  rotate_unless_dead-Grows digest row true ip ua w h =
      map-Grows (revoke_row row.user_id (a.utcnow w.draws)) w.db
        (λ _. map-revoke_row-SameKeys row.user_id (a.utcnow w.draws) w.db.refresh_tokens)
        (λ _ t _ _. revoke_row-IsKept row.user_id (a.utcnow w.draws) t)
  rotate_unless_dead-Grows digest row false ip ua w h =
      rotate_owner-Grows digest row (user_by_id row.user_id w.db.users) ip ua w h

  rotate_found-Grows :
      (digest : String) (o : Option RefreshToken) (ip ua : Option String) (w : World AuthDb)
      → token_by_hash digest w.db.refresh_tokens ≡ o
      → Grows w.db (rotate_found a o ip ua w).1.db
  unfolding rotate_found is_dead
  rotate_found-Grows digest none ip ua w h = Grows-refl
  rotate_found-Grows digest (some row) ip ua w h = go row.revoked_at
    where
      go :
          (revoked : Option ℕ)
          → Grows w.db
              ((is_dead a revoked row.expires_at >>= rotate_unless_dead a row ip ua) w).1.db
      go none =
          rotate_unless_dead-Grows digest row (leb row.expires_at (a.utcnow w.draws)) ip ua _ h
      go (some _) = rotate_unless_dead-Grows digest row true ip ua w h

  pub rotate_refresh-Grows :
      (raw : String) (ip ua : Option String) (w : World AuthDb)
      → Grows w.db (rotate_refresh a raw ip ua w).1.db
  unfolding rotate_refresh
  rotate_refresh-Grows raw ip ua w = rotate_found-Grows (hash_refresh a raw) _ ip ua w refl

  pub admit-Grows :
      (o : Option User) (ip ua : Option String) (w : World AuthDb)
      → Grows w.db (admit a o ip ua w).1.db
  unfolding admit open_login
  admit-Grows none ip ua w = Grows-refl
  admit-Grows (some user) ip ua w = elim (Bool-cases (is_active user.status)) [
    | inl is ↦
        let committed = commit_token-Grows _ _ _ _ Grows-refl in
        rw is (continue-Grows _ _ committed (λ _ _. Grows-refl))
    | inr not_active ↦ rw not_active Grows-refl
  ]

  end_found-Grows :
      (digest : String) (o : Option RefreshToken) (w : World AuthDb)
      → token_by_hash digest w.db.refresh_tokens ≡ o
      → Grows w.db (end_found a o w).1.db
  unfolding end_found
  end_found-Grows digest none w h = Grows-refl
  end_found-Grows digest (some row) w h =
      put_token-Grows digest row _ w.db h refl (record {
        same_user = refl;
        same_hash = refl;
        same_expiry = refl;
        stays_revoked = λ _ e. cc;
      })

  pub logout-Grows :
      (raw : Option String) (w : World AuthDb) → Grows w.db (revoke_session_for_token a raw w).1.db
  unfolding revoke_session_for_token revoke_digest
  logout-Grows none w = Grows-refl
  logout-Grows (some raw) w = elim (Bool-cases (raw == "")) [
    | inl no_text ↦ rw no_text Grows-refl
    | inr text ↦ rw text (end_found-Grows (hash_refresh a raw) _ w refl)
  ]

  pub onboards-Grows :
      (request : OnboardingRequest) (w : World AuthDb)
      → Grows w.db (start_onboarding a request w).1.db
  unfolding start_onboarding add_user new_user
  onboards-Grows request w = go (user_by_email request.email w.db.users)
    where
      go : (o : Option User) → Grows w.db (add_unless a o request w).1.db
      go none = continue-Grows _ _ (commit_user-Grows _ _) (λ _ _. Grows-refl)
      go (some _) = Grows-refl

  pub updates-Grows :
      (user_id : ℕ) (full_name phone : Option String) (w : World AuthDb)
      → Grows w.db (update_user user_id full_name phone w).1.db
  unfolding update_user get_user_by_id write_user
  updates-Grows user_id full_name phone w = go (user_by_id user_id w.db.users) refl
    where
      go :
          (o : Option User)
          → user_by_id user_id w.db.users ≡ o
          → Grows w.db ((or_not_found o >>= λ user. write_user user full_name phone) w).1.db
      go none h = Grows-refl
      go (some user) h = put_user-Grows _ user w.db (owner user_id w.db.users h) refl

  -- The assignment is written whether or not its event is published.
  assign_to-Grows :
      (event : EventEnvelope) (user_id tenant_id : ℕ) (user : User) (w : World AuthDb)
      → user_by_id user_id w.db.users ≡ some user
      → Grows w.db (assign_to a tenant_id event user w).1.db
  unfolding assign_to
  assign_to-Grows event user_id tenant_id user w h =
      continue-Grows _ _
        (subst (Grows w.db) (sym (publish-db a.host "onboarding" _ _))
          (put_user-Grows _ user w.db (owner user_id w.db.users h) refl))
        (λ _ _. Grows-refl)

  assign_tenant-Grows :
      (event : EventEnvelope) (user_id : ℕ) (o : Option User) (w : World AuthDb)
      → user_by_id user_id w.db.users ≡ o
      → Grows w.db (assign_tenant a event o w).1.db
  unfolding assign_tenant
  assign_tenant-Grows event user_id none w h = Grows-refl
  assign_tenant-Grows event user_id (some user) w h = elim (Bool-cases (is_active user.status)) [
    | inl is ↦ rw is Grows-refl
    | inr not_active ↦ rw not_active (go (uuid_of a (get "tenant_id" event.payload)))
  ]
    where
      go : (r : Result ℕ) → Grows w.db ((lift a r >>= λ t. assign_to a t event user) w).1.db
      go (ok t) = assign_to-Grows event user_id t user w h
      go (err _) = Grows-refl

  pub receives-Grows :
      (event : EventEnvelope) (w : World AuthDb) → Grows w.db (handle_tenant_created a event w).1.db
  unfolding handle_tenant_created
  receives-Grows event w = go (uuid_of a (some (str event.aggregate_id)))
    where
      go :
          (r : Result ℕ)
          → Grows w.db
              ((lift a r >>= λ u. query (λ db. user_by_id u db.users) >>= assign_tenant a event)
                w).1.db
      go (ok u) = assign_tenant-Grows event u _ w refl
      go (err _) = Grows-refl
