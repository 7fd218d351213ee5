-- ===== src/Tenant/Domains/Tests.antt =====
-- Two domains of a shop, and the theorems at work on them.
use back_end.Prelude.{
  String, true, none, some, List, [], ◌∷◌, ◌==◌, string_eq, eq_iff, find, ◌≡◌, ◌≢◌, refl,
}
use back_end.Prelude.Distinct.{contains, overwrite}
use back_end.Prelude.Text.{starts_with, len}
use back_end.Prelude.Exec.{ok, err, raised}
use back_end.Shared.Json.{Fields, bool, str, obj, nil, field}
use back_end.Auth.Tests.Setup.{tally}
use back_end.Tenant.Domains.{
  Cloud, Domains, TenantDomain, active, pending, trial, domain_by_id, put_domain,
}
use back_end.Tenant.Domains.Cloudflare.{get_quietly, request}
use back_end.Tenant.Domains.Service.{
  check_domain_status, check_or_none, check_found, save_statuses, next_status,
}
use back_end.Tenant.Domains.Requests.{
  Op, adds_subdomain, adds_custom_domain, checks, deletes, serve_all,
}
use back_end.Tenant.Domains.Requests.Rows.{ids}
use back_end.Tenant.Domains.Requests.Valid.{HasPrimaryKey, IsValidTable, serve_all-IsValid}
use back_end.Tenant.Domains.Requests.Active.{domain_by_id-serve_all}
use back_end.Tenant.Domains.Endpoints.{get_domain, delete_domain, get_domain_missing}
use back_end.Tenant.Domains.Tenants.{get_tenant_by_slug}
use back_end.Tenant.Domains.Resolution.{
  resolve_tenant, resolve_domain, ends_with, before_colon, remove_all,
}

abbrev shop : TenantDomain
shop = record {
  id = "d1";
  tenant_id = "t1";
  domain = "shop.leads.io";
  domain_type = "subdomain";
  status = active;
  cloudflare_record_id = some "r1";
  cloudflare_hostname_id = none;
  verification_token = none;
  ssl_status = "active";
  verified_at = some 5;
  modified_at = 5;
}

abbrev own : TenantDomain
own = record shop {
  id = "d2";
  domain = "shop.example.com";
  domain_type = "custom";
  status = pending;
  cloudflare_record_id = none;
  cloudflare_hostname_id = some "h2";
  ssl_status = "pending_validation";
  verified_at = none;
}

-- What Cloudflare answers: every hostname is active.
abbrev answer : Fields
answer = field "success" (bool true) (
    field "result"
      (obj (
        field "id" (str "h9") (
          field "status" (str "active")
            (field "ssl" (obj (field "status" (str "active") nil)) nil))))
      nil)

abbrev cloud : Cloud
cloud = record {
  api_token = "token";
  zone_id = "zone";
  base_domain = "leads.io";
  cname_target = "customers.leads.io";
  request = λ k method endpoint data'. some answer;
  default_domain = λ k. record own { id = tally k; cloudflare_hostname_id = none };
  conflicts = λ row ds. contains row.id (ids ds);
  token_urlsafe = λ k n. tally k;
  utcnow = λ k. 1000;
  lower = λ s. s;
}

key : HasPrimaryKey cloud
key = record { refuses = λ row ds free. free }

abbrev world : Domains
world = record {
  db = record { tenants = []; domains = shop ∷ own ∷ [] };
  published = [];
  draws = 0;
}

world-IsValid : IsValidTable world.db
unfolding contains
world-IsValid = record {
  by_id = (refl, (refl, tt));
  by_name = (refl, (refl, tt));
  dated = ((λ e. refl), ((λ e. cc), tt));
}

abbrev requests : List Op
requests =
    adds_subdomain "t2" "boat"
    ∷ adds_custom_domain "t2" "boat.example.com"
    ∷ checks "d2"
    ∷ deletes "d2"
    ∷ []

serve_all-IsValid_example : IsValidTable (serve_all cloud requests world).db
serve_all-IsValid_example = serve_all-IsValid cloud key requests world world-IsValid

shop_found : domain_by_id "d1" world.db.domains ≡ some shop
unfolding domain_by_id find
shop_found = refl

abbrev shops_id : String
shops_id = "d1"

abbrev owns_id : String
owns_id = "d2"

others : owns_id ≢ shops_id
others e = let same : (owns_id == shops_id) ≡ true = (eq_iff owns_id shops_id).1 e in cc

domain_by_id-serve_all_example :
    domain_by_id "d1" (serve_all cloud requests world).db.domains ≡ some shop
domain_by_id-serve_all_example =
    domain_by_id-serve_all cloud "d1" shop refl requests world (tt, (tt, (tt, (others, tt))))
      shop_found

get_domain_missing_example :
    (get_domain cloud "t2" "d1" world ≡ (err (raised "TypeError"), world))
    × (delete_domain cloud "t2" "d1" world ≡ (err (raised "TypeError"), world))
unfolding domain_by_id find
get_domain_missing_example = get_domain_missing cloud "t2" "d1" world refl

-- The pending domain is active once Cloudflare says so.
own_checked :
    (check_domain_status cloud "d2" world).0
    ≡ ok (
        some (record own {
          status = active;
          ssl_status = "active";
          verified_at = some 1000;
          modified_at = 1000;
        }))
unfolding check_domain_status check_or_none check_found domain_by_id find get_quietly request
    save_statuses next_status put_domain overwrite
own_checked = refl

-- The tenant of a subdomain is looked up by its slug, and not by the subdomain's row.
shop_unresolved :
    resolve_tenant cloud "shop.leads.io" (record world.db {
      tenants =
          record {
            id = "t1";
            name = "Shop";
            slug = "our-shop";
            custom_domain = none;
            status = trial;
            trial_ends_at = none;
            owner_email = none;
            billing_email = none;
            settings = nil;
            branding = nil;
            limits = nil;
            features = nil;
            is_active = true;
            created_at = 0;
            modified_at = 0;
          }
          ∷ [];
    })
    ≡ none
unfolding resolve_tenant resolve_domain get_tenant_by_slug ends_with before_colon remove_all find
    starts_with len
shop_unresolved = refl
