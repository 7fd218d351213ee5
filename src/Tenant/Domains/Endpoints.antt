-- ===== src/Tenant/Domains/Endpoints.antt =====
-- The domains of services/tenant-service/app/_archived/cloudflare_domains/controller.py. An endpoint gives the rows that its
-- serializers, which are not in the repository, make the response of.
use back_end.Prelude.{
  String, Bool, true, false, Option, none, some, ◌==◌, string_eq, if◌then◌else◌, ◌≡◌, refl,
}
use back_end.Prelude.Exec.{Exec, Exn, Result, ok, err, app_error, raised, raise, pure, catch, ◌>>=◌}
use back_end.Shared.Json.{Fields, bool, get_or, is_truthy}
use back_end.Shared.Events.{query}
use back_end.Tenant.Domains.{Cloud, Domains, Tenant, TenantDomain, DomainStatus, domain_by_id}
use back_end.Tenant.Domains.Service.{check_domain_status}
use back_end.Tenant.Domains.Service as cloudflare
use back_end.Tenant.Domains.Tenants.{
  Called, value, coroutine, get_tenant, is_own, get_tenant_by_slug,
}
use back_end.Tenant.Domains.Resolution.{resolve_tenant, resolve_tenant_by_email}
use back_end.Tenant.Domains.Tenants as tenants

-- `TenantContextResponse`
pub record TenantContext : Type 0 where
  pub id : String
  pub slug : String
  pub features : Fields
  pub limits : Fields

abbrev pub context_of : Tenant → TenantContext
context_of t = record { id = t.id; slug = t.slug; features = t.features; limits = t.limits }

abbrev pub answer_of : String → Option Tenant → Result TenantContext
answer_of detail none = err (app_error 404 detail)
answer_of detail (some t) =
    if t.is_active then ok (context_of t) else err (app_error 403 "Tenant is inactive")

-- `get_verification_instructions`, less its text
pub record Verification : Type 0 where
  pub domain : String
  pub status : DomainStatus
  pub verification_type : String
  -- the CNAME record that the tenant is to make
  pub record_type : String
  pub record_name : String
  pub record_value : String

-- `await` on what a call returned; a plain value is no awaitable.
abbrev pub await : {A : Type 0} → Called A → Exec Domains A
await (value _) = raise (raised "TypeError")
await (coroutine m) = m

-- `except ValueError as e: raise AppError(400, str(e))`
abbrev pub bad_request : {A : Type 0} → Exn → Exec Domains A
bad_request (raised name) =
    if name == "ValueError" then raise (app_error 400 name) else raise (raised name)
bad_request (app_error status detail) = raise (app_error status detail)

module _ (c : Cloud) where
  unfoldable pub resolve : String → Exec Domains TenantContext
  unfolding resolve_tenant
  resolve request_host w = (answer_of "Tenant not found" (resolve_tenant c request_host w.db), w)

  unfoldable pub resolve_email : String → Exec Domains TenantContext
  unfolding resolve_tenant_by_email
  resolve_email email w =
      (answer_of "Tenant not found for email" (resolve_tenant_by_email c email w.db), w)

  abbrev pub slug_answer : Option Tenant → Result TenantContext
  slug_answer none = err (app_error 404 "Tenant not found")
  slug_answer (some t) = ok (context_of t)

  unfoldable pub resolve_slug : String → Exec Domains TenantContext
  unfolding get_tenant_by_slug
  resolve_slug slug w = (slug_answer (get_tenant_by_slug slug w.db.tenants), w)

  -- With the tenant that is found, or 404.
  abbrev pub with_tenant : {A : Type 0} → Option Tenant → (Tenant → Exec Domains A) → Exec Domains A
  with_tenant none f = raise (app_error 404 "Tenant not found")
  with_tenant (some t) f = f t

  abbrev pub find_tenant : String → Exec Domains (Option Tenant)
  find_tenant tenant_id = query (λ db. get_tenant tenant_id db.tenants)

  unfoldable pub create_subdomain : String → String → Exec Domains TenantDomain
  unfolding get_tenant cloudflare.create_subdomain
  create_subdomain tenant_id subdomain = do
    tenant ← find_tenant tenant_id
    with_tenant tenant (λ t. catch (cloudflare.create_subdomain c tenant_id subdomain) bad_request)

  -- `get_verification_instructions`
  abbrev pub instructions : TenantDomain → Verification
  instructions d = record {
    domain = d.domain;
    status = d.status;
    verification_type = "CNAME";
    record_type = "CNAME";
    record_name = d.domain;
    record_value = c.cname_target;
  }

  abbrev pub add_custom_domain : String → String → Exec Domains Verification
  add_custom_domain tenant_id domain = do
    row ← catch (cloudflare.create_custom_domain c tenant_id domain) bad_request
    pure (instructions row)

  unfoldable pub create_custom_domain : String → String → Exec Domains Verification
  unfolding get_tenant cloudflare.create_custom_domain
  create_custom_domain tenant_id domain = do
    tenant ← find_tenant tenant_id
    with_tenant tenant (λ t.
        if is_truthy (some (get_or "custom_domain" (bool false) t.features))
        then add_custom_domain tenant_id domain
        else raise (app_error 403 "Custom domains are not available for this tenant"))

  abbrev pub found_domain : Option TenantDomain → Exec Domains TenantDomain
  found_domain none = raise (app_error 404 "Domain not found")
  found_domain (some d) = pure d

  unfoldable pub get_domain : String → String → Exec Domains TenantDomain
  unfolding tenants.get_domain
  get_domain tenant_id domain_id = do
    called ← tenants.get_domain c tenant_id domain_id
    domain ← await called
    found_domain domain

  -- `{"message": "Domain deleted"}`
  abbrev pub deleted : Bool → Exec Domains String
  deleted true = pure "Domain deleted"
  deleted false = raise (app_error 404 "Domain not found")

  unfoldable pub delete_domain : String → String → Exec Domains String
  unfolding tenants.delete_domain
  delete_domain tenant_id domain_id = do
    called ← tenants.delete_domain c tenant_id domain_id
    is_deleted ← await called
    deleted is_deleted

  -- A domain that does not exist, or is another tenant's, is not answered with 404: what the service
  -- returns then is no coroutine, and `await` raises `TypeError`. The tables stay as they are.
  pub get_domain_missing :
      (tenant_id domain_id : String) (w : Domains)
      → is_own tenant_id (domain_by_id domain_id w.db.domains) ≡ false
      → (get_domain tenant_id domain_id w ≡ (err (raised "TypeError"), w))
        × (delete_domain tenant_id domain_id w ≡ (err (raised "TypeError"), w))
  unfolding get_domain delete_domain tenants.get_domain tenants.delete_domain
  get_domain_missing tenant_id domain_id w h = (rw h refl, rw h refl)

  -- A domain that is the tenant's is answered with what the check of it gives.
  get_domain_own :
      (tenant_id domain_id : String) (w : Domains)
      → is_own tenant_id (domain_by_id domain_id w.db.domains) ≡ true
      → get_domain tenant_id domain_id w ≡ (check_domain_status c domain_id >>= found_domain) w
  unfolding get_domain tenants.get_domain
  get_domain_own tenant_id domain_id w h = rw h refl
