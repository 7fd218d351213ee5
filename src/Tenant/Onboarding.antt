-- ===== src/Tenant/Onboarding.antt =====
-- services/tenant-service/app/services/onboarding.py, events.py and models: the tenant's row and the
-- handler of `onboarding.pending`. The table is the list of its committed rows.
pub mod Deliveries
use back_end.Prelude.{
  ℕ, String, Bool, true, false, Option, none, some, List, [], ◌∷◌, ◌++◌, ◌==◌, nat_eq, string_eq,
  if◌then◌else◌, ◌||◌, find, join,
}
use back_end.Prelude.Text.{take}
use back_end.Prelude.Exec.{Exec, Result, ok, err, raised, pure, ◌>>=◌, ◌>>◌}
use back_end.Shared.Host.{Host}
use back_end.Shared.Json.{Json, str, Fields, nil, field, get, get_or}
use back_end.Shared.Events.{EventEnvelope, World, draw, event_envelope, publish}
use back_end.Tenant.Slug.{slugify}

pub data TenantStatus : Type 0 where
  trial active suspended cancelled : TenantStatus

pub record Tenant : Type 0 where
  pub id : ℕ
  pub name : String
  pub slug : String
  pub business_name : String
  pub timezone : String
  pub legal_name : String
  pub support_inbox : String
  pub status : TenantStatus
  pub is_active : Bool
  pub created_at : ℕ
  pub modified_at : ℕ

abbrev is_found : Option Tenant → Bool
is_found none = false
is_found (some _) = true

-- The primary key or the unique slug of a row is in the table already.
unfoldable pub tenant_conflicts : Tenant → List Tenant → Bool
tenant_conflicts t ts = is_found (find (λ x. x.id == t.id || x.slug == t.slug) ts)

-- `db.add(tenant)`, `db.commit()`
unfoldable pub commit_tenant : Tenant → Exec (World (List Tenant)) Unit
commit_tenant t w =
    if tenant_conflicts t w.db
    then (err (raised "IntegrityError"), w)
    else (ok tt, record w { db = w.db ++ t ∷ [] })

-- `payload[key]`, for a column of text. A value that is no text is refused too, by `lower`, by the
-- envelope's validation or by the commit.
abbrev pub text_at : Option Json → Result String
text_at none = err (raised "KeyError")
text_at (some (str s)) = ok s
text_at (some _) = err (raised "DataError")

abbrev pub with_result : {A : Type 0} → Result A → Exec (World (List Tenant)) A
with_result r w = (r, w)

-- `str.lower` and `uuid.UUID.hex`
module _ (h : Host) (lower : String → String) (hex : ℕ → String) where
  unfoldable pub new_tenant : String → String → String → String → Exec (World (List Tenant)) Tenant
  unfolding slugify take
  new_tenant business timezone legal_name support_inbox = do
    suffix ← draw h.uuid4
    id ← draw h.uuid4
    created_at ← draw h.utcnow
    modified_at ← draw h.utcnow
    pure (record {
      id = id;
      name = business;
      slug = join (slugify lower business ∷ "-" ∷ take 6 (hex suffix) ∷ []);
      business_name = business;
      timezone = timezone;
      legal_name = legal_name;
      support_inbox = support_inbox;
      status = trial;
      is_active = true;
      created_at = created_at;
      modified_at = modified_at;
    })

  -- The row's id and slug; the id is a text in the source, made of it here where it is used.
  unfoldable pub handle_onboarding_pending : EventEnvelope → Exec (World (List Tenant)) (ℕ × String)
  unfolding new_tenant
  handle_onboarding_pending event = do
    business ← with_result (text_at (get "business_name" event.payload))
    timezone ← with_result (text_at (get "timezone" event.payload))
    legal_name ← with_result (text_at (get "legal_name" event.payload))
    support_inbox ← with_result (text_at (get "support_inbox" event.payload))
    tenant ← new_tenant business timezone legal_name support_inbox
    commit_tenant tenant
    pure (tenant.id, tenant.slug)

  abbrev pub created_payload : String → ℕ → String → Fields → Fields
  created_payload user_id tenant_id slug payload = field "user_id" (str user_id) (
      field "tenant_id" (str (h.str_uuid tenant_id)) (
        field "tenant_slug" (str slug) (
          field "business_name" (get_or "business_name" (str "") payload) (
            field "timezone" (get_or "timezone" (str "") payload)
              (field "support_inbox" (get_or "support_inbox" (str "") payload) nil)))))

  unfoldable pub announce_for :
      String → EventEnvelope → ℕ × String → Exec (World (List Tenant)) String
  unfolding event_envelope publish
  announce_for user_id event made = do
    created ←
        event_envelope h "tenant.created" user_id (str (h.str_uuid made.0))
          (created_payload user_id made.0 made.1 event.payload)
    publish h "onboarding" created

  -- From the row's commit on.
  unfoldable pub announce : EventEnvelope → ℕ × String → Exec (World (List Tenant)) String
  unfolding announce_for
  announce event made = do
    user_id ← with_result (text_at (get "user_id" event.payload))
    announce_for user_id event made

  -- `_handler` of `build_handlers`
  unfoldable pub handler : EventEnvelope → Exec (World (List Tenant)) String
  unfolding handle_onboarding_pending announce
  handler event = handle_onboarding_pending event >>= announce event
