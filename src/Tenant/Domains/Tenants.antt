-- ===== src/Tenant/Domains/Tenants.antt =====
-- services/tenant-service/app/_archived/cloudflare_domains/tenants.py. The defaults of limits and features are not in
-- the repository and are arguments, as are the columns that a tenant's constructor fills in.
use back_end.Prelude.{
  ℕ, ◌+◌, ◌-◌, ◌*◌, String, Bool, true, false, Option, none, some, List, ◌++◌, ◌==◌, string_eq,
  nat_eq, if◌then◌else◌, ◌&&◌, find, take, drop, length,
}
use back_end.Prelude.Distinct.{overwrite}
use back_end.Prelude.Exec.{Exec, ok, err, raised, raise, pure, ◌>>=◌, ◌>>◌}
use back_end.Shared.Json.{Fields, nil}
use back_end.Shared.Events.{draw, query, write}
use back_end.Tenant.Domains.{
  Cloud, Domains, Tables, Tenant, TenantStatus, trial, active, suspended, cancelled, TenantDomain,
  is_verified, domain_by_id,
}
use back_end.Tenant.Domains.Service.{matches_slug, check_domain_status}
use back_end.Tenant.Domains.Service as cloudflare

abbrev pub is_text : Option String → String → Bool
is_text none s = false
is_text (some t) s = t == s

abbrev pub status_eq : TenantStatus → TenantStatus → Bool
status_eq trial trial = true
status_eq active active = true
status_eq suspended suspended = true
status_eq cancelled cancelled = true
status_eq _ _ = false

unfoldable pub get_tenant : String → List Tenant → Option Tenant
get_tenant tenant_id = find (λ t. t.id == tenant_id)

unfoldable pub get_tenant_by_slug : String → List Tenant → Option Tenant
get_tenant_by_slug slug = find (λ t. t.slug == slug)

-- `TenantDomain.domain == domain, TenantDomain.status == DomainStatus.ACTIVE`
unfoldable pub active_domain : String → List TenantDomain → Option TenantDomain
active_domain domain = find (λ d. d.domain == domain && is_verified d.status)

abbrev pub tenant_of_domain : Option TenantDomain → List Tenant → Option Tenant
tenant_of_domain none ts = none
tenant_of_domain (some d) ts = get_tenant d.tenant_id ts

abbrev pub or_else : Option Tenant → Option Tenant → Option Tenant
or_else none other = other
or_else (some t) other = some t

unfoldable pub get_tenant_by_domain : String → Tables → Option Tenant
unfolding get_tenant active_domain
get_tenant_by_domain domain db =
    or_else (find (λ t. is_text t.custom_domain domain) db.tenants)
      (tenant_of_domain (active_domain domain db.domains) db.tenants)

module _ (c : Cloud) where
  -- What `Tenant(…)` is given.
  pub record TenantCreateRequest : Type 0 where
    pub name : String
    pub slug : String
    pub owner_email : String
    pub settings : Option Fields
    pub branding : Option Fields

  abbrev pub or_nil : Option Fields → Fields
  or_nil none = nil
  or_nil (some d) = d

  module _ (limits features : Fields) (default_tenant : ℕ → Tenant)
      (conflicts : Tenant → List Tenant → Bool) where
    abbrev pub commit_tenant : Tenant → Exec Domains Tenant
    commit_tenant t w =
        if conflicts t w.db.tenants
        then (err (raised "IntegrityError"), w)
        else (ok t, record w { db = record w.db { tenants = w.db.tenants ++ List.◌∷◌ t List.[] } })

    -- By the tenant that has the slug already.
    abbrev pub add_tenant : TenantCreateRequest → Option Tenant → Exec Domains Tenant
    add_tenant data' (some _) = raise (raised "ValueError")
    add_tenant data' none = do
      now ← draw c.utcnow
      t ← draw default_tenant
      commit_tenant (record t {
        name = data'.name;
        slug = data'.slug;
        owner_email = some data'.owner_email;
        status = trial;
        trial_ends_at = some (now + 14 * 24 * 60 * 60 * 1000000);
        settings = or_nil data'.settings;
        branding = or_nil data'.branding;
        limits = limits;
        features = features;
      })

    unfoldable pub create_tenant : TenantCreateRequest → Exec Domains Tenant
    unfolding matches_slug get_tenant_by_slug
    create_tenant data' =
        if matches_slug data'.slug
        then query (λ db. get_tenant_by_slug data'.slug db.tenants) >>= add_tenant data'
        else raise (raised "ValueError")

-- The fields that `TenantUpdateRequest` has set; a field that is `None` is left as it is.
pub record TenantUpdateRequest : Type 0 where
  pub name : Option String
  pub status : Option TenantStatus
  pub settings : Option Fields
  pub branding : Option Fields
  pub limits : Option Fields
  pub features : Option Fields
  pub billing_email : Option String

abbrev pub or_keep : {A : Type 0} → Option A → A → A
or_keep none old = old
or_keep (some new) old = new

abbrev pub or_keep_opt : Option String → Option String → Option String
or_keep_opt none old = old
or_keep_opt (some new) old = some new

-- `setattr` for every field that is set
abbrev pub updated : TenantUpdateRequest → ℕ → Tenant → Tenant
updated updates now t = record t {
  name = or_keep updates.name t.name;
  status = or_keep updates.status t.status;
  settings = or_keep updates.settings t.settings;
  branding = or_keep updates.branding t.branding;
  limits = or_keep updates.limits t.limits;
  features = or_keep updates.features t.features;
  billing_email = or_keep_opt updates.billing_email t.billing_email;
  modified_at = now;
}

unfoldable pub put_tenant : Tenant → List Tenant → List Tenant
unfolding overwrite
put_tenant = overwrite (λ t. t.id)

module _ (c : Cloud) where
  abbrev pub update_found : TenantUpdateRequest → Option Tenant → Exec Domains (Option Tenant)
  update_found updates none = pure none
  update_found updates (some t) = do
    now ← draw c.utcnow
    db ← query (λ db. db)
    write (record db { tenants = put_tenant (updated updates now t) db.tenants })
    pure (some (updated updates now t))

  unfoldable pub update_tenant : String → TenantUpdateRequest → Exec Domains (Option Tenant)
  unfolding get_tenant put_tenant
  update_tenant tenant_id updates =
      query (λ db. get_tenant tenant_id db.tenants) >>= update_found updates

-- Newest first; `sorted` is the database's ordering by `created_at`.
module _ (sorted : List Tenant → List Tenant) where
  abbrev pub has_status : Option TenantStatus → Tenant → Bool
  has_status none t = true
  has_status (some status) t = status_eq t.status status

  unfoldable pub where_status : Option TenantStatus → List Tenant → List Tenant
  where_status status List.[] = List.[]
  where_status status (List.◌∷◌ t ts) =
      let rest = where_status status ts in if has_status status t then List.◌∷◌ t rest else rest

  -- The page, and the number of all tenants with the status.
  unfoldable pub list_tenants : ℕ → ℕ → Option TenantStatus → List Tenant → List Tenant × ℕ
  unfolding where_status take drop
  list_tenants page page_size status ts =
      let matching = where_status status ts in
      (take page_size (drop ((page - 1) * page_size) (sorted matching)), length matching)

  abbrev pub ids_of : List Tenant → List String
  ids_of List.[] = List.[]
  ids_of (List.◌∷◌ t ts) = List.◌∷◌ t.id (ids_of ts)

  unfoldable pub list_active_tenant_ids : List Tenant → List String
  unfolding list_tenants
  list_active_tenant_ids ts = ids_of (list_tenants 1 1000 (some active) ts).0

-- `select(TenantDomain).where(TenantDomain.tenant_id == tenant_id)`
unfoldable pub list_domains : String → List TenantDomain → List TenantDomain
list_domains tenant_id List.[] = List.[]
list_domains tenant_id (List.◌∷◌ d ds) =
    let rest = list_domains tenant_id ds in
    if d.tenant_id == tenant_id then List.◌∷◌ d rest else rest

-- What a call returns: a value, or the coroutine of an `async` function.
pub data Called (A : Type 0) : Type 0 where
  value : A → Called A
  coroutine : Exec Domains A → Called A

-- Whether the domain is the tenant's.
abbrev pub is_own : String → Option TenantDomain → Bool
is_own tenant_id none = false
is_own tenant_id (some d) = d.tenant_id == tenant_id

module _ (c : Cloud) where
  unfoldable pub get_domain : String → String → Exec Domains (Called (Option TenantDomain))
  get_domain tenant_id domain_id = do
    domain ← query (λ db. domain_by_id domain_id db.domains)
    pure (
        if is_own tenant_id domain then coroutine (check_domain_status c domain_id) else value none)

  unfoldable pub delete_domain : String → String → Exec Domains (Called Bool)
  delete_domain tenant_id domain_id = do
    domain ← query (λ db. domain_by_id domain_id db.domains)
    pure (
        if is_own tenant_id domain
        then coroutine (cloudflare.delete_domain c domain_id)
        else value false)
