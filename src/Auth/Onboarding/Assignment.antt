-- ===== src/Auth/Onboarding/Assignment.antt =====
-- What the consumer of `tenant.created` does to a user, and how it meets a redelivered event.
use back_end.Prelude.{
  ℕ, suc, String, true, false, Option, none, some, List, [], ◌∷◌, ◌≡◌, refl, sym, subst, arith, ◌∙◌,
  ap, nat_eq, string_eq, find, nat_beq_iff,
}
use back_end.Prelude.Distinct.{overwrite}
use back_end.Prelude.Exec.{Result, ok, err, raised, pure, continue}
use back_end.Shared.Json.{str, get}
use back_end.Shared.Events.{EventEnvelope, World, publish, event_envelope}
use back_end.Shared.Events.Laws.{publish-db}
use back_end.Auth.Models.{User, active, is_active}
use back_end.Auth.Db.{AuthDb, user_by_id, put_user}
use back_end.Auth.Db.Laws.{user_by_id-id}
use back_end.Auth.App.{App}
use back_end.Auth.Onboarding.{uuid_of, assign_to, assign_tenant, handle_tenant_created}

-- The user with the tenant.
abbrev pub activated : User → ℕ → User
activated user tenant_id = record user { tenant_id = some tenant_id; status = active }

pub user_by_id-put_self :
    (u old : User) (us : List User)
    → user_by_id u.id us ≡ some old
    → user_by_id u.id (put_user u us) ≡ some u
unfolding user_by_id put_user overwrite find
user_by_id-put_self u old [] h = cc
user_by_id-put_self u old (x ∷ us) h =
    ground (arith, nat_beq_iff x.id u.id, user_by_id-put_self u old us)

module _ (a : App) where
  -- The id of an event's user, or of its tenant, as the handler reads it.
  abbrev pub user_of : EventEnvelope → Result ℕ
  user_of event = uuid_of a (some (str event.aggregate_id))

  abbrev pub tenant_of : EventEnvelope → Result ℕ
  tenant_of event = uuid_of a (get "tenant_id" event.payload)

  -- An event for a user who is active already, or for nobody, changes nothing and says nothing.
  handle_tenant_created_idle :
      (event : EventEnvelope) (user_id : ℕ) (o : Option User) (w : World AuthDb)
      → user_of event ≡ ok user_id
      → user_by_id user_id w.db.users ≡ o
      → ((user : User) → o ≡ some user → is_active user.status ≡ true)
      → handle_tenant_created a event w ≡ (ok none, w)
  unfolding handle_tenant_created assign_tenant
  handle_tenant_created_idle event user_id none w e found idle = rw (e, found) refl
  handle_tenant_created_idle event user_id (some user) w e found idle =
      rw (e, found, idle user refl) refl

  assign_to-users :
      (event : EventEnvelope) (tenant_id : ℕ) (user : User) (w : World AuthDb)
      → (assign_to a tenant_id event user w).1.db.users
        ≡ put_user (activated user tenant_id) w.db.users
  unfolding assign_to
  assign_to-users event tenant_id user w =
      continue-db _ (publish a.host "onboarding" _ _)
      ∙ ap (λ (db : AuthDb). db.users) (publish-db a.host "onboarding" _ _)
    where
      continue-db :
          (x : Option User) (r : Result String × World AuthDb)
          → (continue r (λ _. pure x)).1.db.users ≡ r.1.db.users
      continue-db x (ok _, w) = refl
      continue-db x (err _, w) = refl

  -- The first event of a user who is not active yet.
  handle_tenant_created-assign :
      (event : EventEnvelope) (user_id tenant_id : ℕ) (user : User) (w : World AuthDb)
      → user_of event ≡ ok user_id
      → tenant_of event ≡ ok tenant_id
      → user_by_id user_id w.db.users ≡ some user
      → is_active user.status ≡ false
      → handle_tenant_created a event w ≡ assign_to a tenant_id event user w
  unfolding handle_tenant_created assign_tenant
  handle_tenant_created-assign event user_id tenant_id user w e t found not_active =
      rw (e, found, not_active, t) refl

  -- A user who is not active yet gets the event's tenant and becomes active, whether or not the
  -- completion could be published; the same event delivered again changes nothing.
  pub handle_tenant_created_again :
      (event : EventEnvelope) (user_id tenant_id : ℕ) (user : User) (w : World AuthDb)
      → user_of event ≡ ok user_id
      → tenant_of event ≡ ok tenant_id
      → user_by_id user_id w.db.users ≡ some user
      → is_active user.status ≡ false
      → let w' = (handle_tenant_created a event w).1 in
        (user_by_id user_id w'.db.users ≡ some (activated user tenant_id))
        × (handle_tenant_created a event w' ≡ (ok none, w'))
  handle_tenant_created_again event user_id tenant_id user w e t found not_active =
      (seen, handle_tenant_created_idle event user_id _ w' e seen (λ u same. ground arith))
    where
      w' : World AuthDb
      w' = (handle_tenant_created a event w).1

      u : User
      u = activated user tenant_id

      own : user.id ≡ user_id
      own = user_by_id-id user_id w.db.users found

      users : w'.db.users ≡ put_user u w.db.users
      users =
          ap (λ (r : Result (Option User) × World AuthDb). r.1.db.users)
            (handle_tenant_created-assign event user_id tenant_id user w e t found not_active)
          ∙ assign_to-users event tenant_id user w

      seen : user_by_id user_id w'.db.users ≡ some (activated user tenant_id)
      seen =
          subst (λ us. user_by_id user_id us ≡ some (activated user tenant_id)) (sym users)
            (subst (λ i. user_by_id i (put_user u w.db.users) ≡ some u) own
              (user_by_id-put_self u user w.db.users
                (subst (λ i. user_by_id i w.db.users ≡ some user) (sym own) found)))

  assign_to_down :
      (event : EventEnvelope) (tenant_id : ℕ) (user : User) (w : World AuthDb)
      → a.redis_up (suc (suc w.draws)) ≡ false
      → let (r, w') = assign_to a tenant_id event user w in
        (r ≡ err (raised "ConnectionError")) × (w'.published ≡ w.published)
  unfolding assign_to event_envelope publish
  assign_to_down event tenant_id user w down = rw down (refl, refl)

  -- If Redis is down when a user's completion is to be published, the handler raises after its
  -- commit; delivered again, the event is skipped, and the completion is never published.
  pub handle_tenant_created_lost :
      (event : EventEnvelope) (user_id tenant_id : ℕ) (user : User) (w : World AuthDb)
      → user_of event ≡ ok user_id
      → tenant_of event ≡ ok tenant_id
      → user_by_id user_id w.db.users ≡ some user
      → is_active user.status ≡ false
      → a.redis_up (suc (suc w.draws)) ≡ false
      → let (r, w') = handle_tenant_created a event w in
        let (r', w'') = handle_tenant_created a event w' in
        (r ≡ err (raised "ConnectionError")) × (r' ≡ ok none) × (w''.published ≡ w.published)
  handle_tenant_created_lost event user_id tenant_id user w e t found not_active down =
      let (_, again) =
        handle_tenant_created_again event user_id tenant_id user w e t found not_active in
      let first =
        handle_tenant_created-assign event user_id tenant_id user w e t found not_active in
      let (fails, quiet) = assign_to_down event tenant_id user w down in
      (
        ap (λ (r : Result (Option User) × World AuthDb). r.0) first ∙ fails,
        ap (λ (r : Result (Option User) × World AuthDb). r.0) again,
        ap (λ (r : Result (Option User) × World AuthDb). r.1.published) again
            ∙ ap (λ (r : Result (Option User) × World AuthDb). r.1.published) first
            ∙ quiet,
      )
