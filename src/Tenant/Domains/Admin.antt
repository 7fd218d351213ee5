-- ===== src/Tenant/Domains/Admin.antt =====
-- The tenants of services/tenant-service/app/_archived/cloudflare_domains/controller.py, as the rows that the missing
-- serializers make the responses of.
use back_end.Prelude.{ℕ, String, Bool, Option, none, some, List, if◌then◌else◌}
use back_end.Prelude.Exec.{Exec, Result, ok, err, raise, app_error, pure, catch, ◌>>=◌}
use back_end.Shared.Json.{Fields}
use back_end.Shared.Events.{query}
use back_end.Tenant.Domains.{Cloud, Domains, Tenant, TenantStatus, TenantDomain}
use back_end.Tenant.Domains.Credentials.{ParsedUrl, Credentials, get_tenant_db_credentials}
use back_end.Tenant.Domains.Endpoints.{find_tenant, with_tenant, bad_request}
use back_end.Tenant.Domains.Tenants.{TenantCreateRequest, TenantUpdateRequest}
use back_end.Tenant.Domains.Tenants as tenants

module _ (c : Cloud) where
  unfoldable pub create_tenant :
      Fields
      → Fields
      → (ℕ → Tenant)
      → (Tenant → List Tenant → Bool)
      → TenantCreateRequest c
      → Exec Domains Tenant
  unfolding tenants.create_tenant
  create_tenant limits features default_tenant conflicts data' =
      catch (tenants.create_tenant c limits features default_tenant conflicts data') bad_request

  abbrev pub or_404 : Option Tenant → Exec Domains Tenant
  or_404 none = raise (app_error 404 "Tenant not found")
  or_404 (some t) = pure t

  unfoldable pub get_tenant : String → Exec Domains Tenant
  unfolding tenants.get_tenant
  get_tenant tenant_id = find_tenant c tenant_id >>= or_404

  unfoldable pub update_tenant : String → TenantUpdateRequest → Exec Domains Tenant
  unfolding tenants.update_tenant
  update_tenant tenant_id updates = tenants.update_tenant c tenant_id updates >>= or_404

  unfoldable pub list_tenants :
      (List Tenant → List Tenant) → ℕ → ℕ → Option TenantStatus → Exec Domains (List Tenant)
  unfolding tenants.list_tenants
  list_tenants sorted page page_size status =
      query (λ db. (tenants.list_tenants sorted page page_size status db.tenants).0)

  unfoldable pub list_active_ids : (List Tenant → List Tenant) → Exec Domains (List String)
  unfolding tenants.list_active_tenant_ids
  list_active_ids sorted = query (λ db. tenants.list_active_tenant_ids sorted db.tenants)

  unfoldable pub list_domains : String → Exec Domains (List TenantDomain)
  unfolding tenants.list_domains
  list_domains tenant_id = query (λ db. tenants.list_domains tenant_id db.domains)

  -- The only exception of `get_tenant_db_credentials` is `ValueError`.
  abbrev pub or_invalid_url : Result Credentials → Exec Domains Credentials
  or_invalid_url (ok credentials) = pure credentials
  or_invalid_url (err e) = raise (app_error 500 "Invalid DATABASE_URL")

  unfoldable pub db_credentials :
      (String → Option ℕ) → ParsedUrl → String → Exec Domains Credentials
  unfolding tenants.get_tenant get_tenant_db_credentials
  db_credentials parse_int url tenant_id = do
    tenant ← find_tenant c tenant_id
    with_tenant c tenant (λ t.
        if t.is_active
        then or_invalid_url (get_tenant_db_credentials parse_int url)
        else raise (app_error 404 "Tenant is not active"))
