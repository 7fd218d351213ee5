-- ===== src/Flows/Onboarding.antt =====
-- A new account from services/auth-service/app/services/onboarding.py through
-- services/tenant-service/app/events.py and back.
use back_end.Prelude.{
  ℕ, ◌<◌, ◌^◌, String, false, some, List, [], ◌∷◌, ◌++◌, ◌≡◌, refl, ap, ◌∙◌, Bool-cases, inl, inr,
}
use back_end.Prelude.Exec.{ok, pure, ◌>>=◌, ◌>>◌}
use back_end.Shared.Host.{Host, HostLaws}
use back_end.Shared.Json.{str, null, get}
use back_end.Shared.Events.{EventEnvelope, World, stream_name}
use back_end.Flows.Publishes.{Publishes, Publishes-inj, envelope, emit-Publishes, emit-db}
use back_end.Auth.Models.{User, is_active}
use back_end.Auth.Db.{AuthDb, user_by_id}
use back_end.Auth.App.{App}
use back_end.Auth.Onboarding.{
  OnboardingRequest, pending_payload, publish_pending, uuid_of, handle_tenant_created,
}
use back_end.Auth.Onboarding.Assignment.{activated, handle_tenant_created_again}
use back_end.Tenant.Onboarding.Deliveries.{IsComplete}
use back_end.Tenant.Onboarding.{
  Tenant, tenant_conflicts, commit_tenant, text_at, new_tenant, handle_onboarding_pending,
  announce_for, announce, handler, created_payload,
}

-- The event of a new account has the account's payload.
payload-publish_pending :
    (a : App) (user : User) (request : OnboardingRequest) (w : World AuthDb)
    (pending : EventEnvelope) {m : String}
    → (publish_pending a user request w).0 ≡ ok m
    → Publishes w (publish_pending a user request w).1 pending
    → pending.payload ≡ pending_payload a user request
unfolding publish_pending
payload-publish_pending a user request w pending done published =
    let payload = pending_payload a user request in
    ap (λ (e : EventEnvelope). e.payload)
      (Publishes-inj w (publish_pending a user request w).1 pending
        (envelope a.host "onboarding.pending" (a.str_uuid user.id) null payload w) published
        (emit-Publishes a.host "onboarding.pending" (a.str_uuid user.id) null payload w done))

-- What a delivery that returns leaves: one more tenant, and the event that tells it to its user.
record IsCreated (h : Host) (business user : String) (before after : World (List Tenant))
    : Type 0 where
  tenant : Tenant
  created : EventEnvelope
  added : after.db ≡ before.db ++ tenant ∷ []
  name : tenant.business_name ≡ business
  bound : tenant.id < 2 ^ 128
  published : Publishes before after created
  addressee : created.aggregate_id ≡ user
  id : get "tenant_id" created.payload ≡ some (str (h.str_uuid tenant.id))

module _ (h : Host) (lower : String → String) (hex : ℕ → String) where
  announce-IsCreated :
      (event : EventEnvelope) (user : String) (t : Tenant) (before w : World (List Tenant))
      {m : String}
      → text_at (get "user_id" event.payload) ≡ ok user
      → t.id < 2 ^ 128
      → w.published ≡ before.published
      → w.db ≡ before.db ++ t ∷ []
      → (announce h lower hex event (t.id, t.slug) w).0 ≡ ok m
      → IsCreated h t.business_name user before (announce h lower hex event (t.id, t.slug) w).1
  unfolding announce announce_for
  announce-IsCreated event user t before w has_user bound same added done =
      let tenant_id = str (h.str_uuid t.id) in
      let payload = created_payload h lower hex user t.id t.slug event.payload in
      rw has_user (record {
        tenant = t;
        created = envelope h "tenant.created" user tenant_id payload w;
        added = emit-db h "tenant.created" user tenant_id payload w ∙ added;
        name = refl;
        bound = bound;
        published =
            emit-Publishes h "tenant.created" user tenant_id payload w (rw has_user at done)
            ∙ ap
                (λ l.
                  l
                  ++ (
                    stream_name "onboarding",
                    envelope h "tenant.created" user tenant_id payload w,
                  )
                    ∷ [])
                same;
        addressee = refl;
        id = refl;
      })

  commit-IsCreated :
      (event : EventEnvelope) (user : String) (t : Tenant) (before w : World (List Tenant))
      {m : String}
      → text_at (get "user_id" event.payload) ≡ ok user
      → t.id < 2 ^ 128
      → w.published ≡ before.published
      → w.db ≡ before.db
      → (((commit_tenant t >> pure (t.id, t.slug)) >>= announce h lower hex event) w).0 ≡ ok m
      → IsCreated h t.business_name user before
          (((commit_tenant t >> pure (t.id, t.slug)) >>= announce h lower hex event) w).1
  unfolding commit_tenant
  commit-IsCreated event user t before w has_user bound same db done =
      elim (Bool-cases (tenant_conflicts t w.db)) [
        | inl taken ↦ cc (rw (taken, ◌>>◌) at done)
        | inr free ↦
            rw (free, ◌>>◌)
              (announce-IsCreated event user t before (record w { db = w.db ++ t ∷ [] }) has_user
                bound same (ap (λ ts. ts ++ t ∷ []) db) (rw (free, ◌>>◌) at done))
      ]

  handler-IsCreated :
      (laws : HostLaws h) (event : EventEnvelope) (user : String) (w : World (List Tenant))
      (full : IsComplete event) {m : String}
      → text_at (get "user_id" event.payload) ≡ ok user
      → (handler h lower hex event w).0 ≡ ok m
      → IsCreated h full.business user w (handler h lower hex event w).1
  unfolding handler handle_onboarding_pending new_tenant
  handler-IsCreated laws event user w full has_user done =
      rw (full.has_business, full.has_timezone, full.has_legal_name, full.has_support_inbox)
        (commit-IsCreated event user _ w _ has_user (laws.uuid4_bound _) refl refl (
          rw (full.has_business, full.has_timezone, full.has_legal_name, full.has_support_inbox) at
            done))

-- The two services write and read UUIDs in one form.
pub record SharesUuids (a : App) (h : Host) : Type 0 where
  pub of_user : (u : ℕ) → u < 2 ^ 128 → a.parse_uuid (a.str_uuid u) ≡ some u
  pub of_tenant : (u : ℕ) → u < 2 ^ 128 → a.parse_uuid (h.str_uuid u) ≡ some u

-- The payload of a new account is what tenant-service asks for.
pending-IsComplete :
    (a : App) (user : User) (request : OnboardingRequest) (event : EventEnvelope)
    → event.payload ≡ pending_payload a user request
    → IsComplete event
pending-IsComplete a user request event e = record {
  business = request.business_name;
  timezone = request.timezone;
  legal_name = request.legal_name;
  support_inbox = request.support_inbox;
  has_business = ap (λ p. text_at (get "business_name" p)) e;
  has_timezone = ap (λ p. text_at (get "timezone" p)) e;
  has_legal_name = ap (λ p. text_at (get "legal_name" p)) e;
  has_support_inbox = ap (λ p. text_at (get "support_inbox" p)) e;
}

uuid_of_text :
    (a : App) (s : String) (u : ℕ) → a.parse_uuid s ≡ some u → uuid_of a (some (str s)) ≡ ok u
unfolding uuid_of
uuid_of_text a s u e = rw (e, uuid_of) refl

-- What a new account has led to: one more tenant with the name of the business, and the user is active in
-- it.
pub record IsOnboarded (request : OnboardingRequest) (user : User)
    (before after : World (List Tenant)) (users : List User) : Type 0 where
  pub tenant : Tenant
  pub added : after.db ≡ before.db ++ tenant ∷ []
  pub name : tenant.business_name ≡ request.business_name
  pub active : user_by_id user.id users ≡ some (activated user tenant.id)

-- The event that auth-service publishes of a new account, handled by tenant-service, gives one more tenant
-- for the account's business, and the event that tenant-service then publishes makes the account's user
-- active in that tenant; provided both publications return, the tenant's slug and id are free, the services
-- have the same text form of a UUID, and the user is still waiting when the second event comes.
pub handle_tenant_created-publish_pending :
    (a : App) (h : Host) (lower : String → String) (hex : ℕ → String) (request : OnboardingRequest)
    (user : User) (registered assigned : World AuthDb) (tenants : World (List Tenant))
    (pending created : EventEnvelope) {m m' : String}
    → SharesUuids a h
    → HostLaws h
    → user.id < 2 ^ 128
    → (publish_pending a user request registered).0 ≡ ok m
    → Publishes registered (publish_pending a user request registered).1 pending
    → (handler h lower hex pending tenants).0 ≡ ok m'
    → Publishes tenants (handler h lower hex pending tenants).1 created
    → user_by_id user.id assigned.db.users ≡ some user
    → is_active user.status ≡ false
    → IsOnboarded request user tenants
        (handler h lower hex pending tenants).1
        (handle_tenant_created a created assigned).1.db.users
unfolding pending-IsComplete
handle_tenant_created-publish_pending a h lower hex request user registered assigned tenants pending
      created texts laws bound sent out handled out' found waiting =
    let e = payload-publish_pending a user request registered pending sent out in
    let has_user : text_at (get "user_id" pending.payload) ≡ ok (a.str_uuid user.id) =
      ap (λ p. text_at (get "user_id" p)) e in
    let c =
      handler-IsCreated h lower hex laws pending (a.str_uuid user.id) tenants
        (pending-IsComplete a user request pending e) has_user handled in
    let same =
      Publishes-inj tenants (handler h lower hex pending tenants).1 created c.created out'
        c.published in
    let user_id : uuid_of a (some (str created.aggregate_id)) ≡ ok user.id =
      rw (same, c.addressee) (uuid_of_text a _ _ (texts.of_user user.id bound)) in
    let tenant_id : uuid_of a (get "tenant_id" created.payload) ≡ ok c.tenant.id =
      rw (same, c.id) (uuid_of_text a _ _ (texts.of_tenant c.tenant.id c.bound)) in
    record {
      tenant = c.tenant;
      added = c.added;
      name = c.name;
      active =
          (handle_tenant_created_again a created user.id c.tenant.id user assigned user_id tenant_id
            found waiting).0;
    }
