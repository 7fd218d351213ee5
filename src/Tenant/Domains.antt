-- ===== src/Tenant/Domains.antt =====
-- The tables of services/tenant-service/app/_archived/cloudflare_domains. The class `TenantDomain` is
-- not in the repository: its rows have the columns that the code names, and its defaults and its
-- table's constraints are an argument.
pub mod Cloudflare
pub mod Service
pub mod Requests
pub mod Tenants
pub mod Resolution
pub mod Credentials
pub mod Endpoints
pub mod Admin
mod Tests
use back_end.Prelude.{
  ℕ, String, Bool, true, false, Option, none, some, List, [], ◌∷◌, ◌++◌, ◌==◌, string_eq,
  if◌then◌else◌, ◌&&◌, ◌||◌, not, find, join,
}
use back_end.Prelude.Distinct.{overwrite}
use back_end.Prelude.Exec.{Exec, Result, ok, err, raised, raise, pure, ◌>>=◌, ◌>>◌}
use back_end.Shared.Json.{Json, null, str, obj, Fields, nil, get, get_or, is_truthy}
use back_end.Shared.Events.{World, draw, query, write}

pub data DomainStatus : Type 0 where
  pending verifying active failed : DomainStatus

abbrev pub is_verified : DomainStatus → Bool
is_verified active = true
is_verified _ = false

pub record TenantDomain : Type 0 where
  pub id : String
  pub tenant_id : String
  pub domain : String
  pub domain_type : String
  pub status : DomainStatus
  pub cloudflare_record_id : Option String
  pub cloudflare_hostname_id : Option String
  pub verification_token : Option String
  pub ssl_status : String
  pub verified_at : Option ℕ
  pub modified_at : ℕ

-- `db.get(TenantDomain, domain_id)`
unfoldable pub domain_by_id : String → List TenantDomain → Option TenantDomain
domain_by_id id = find (λ d. d.id == id)

-- `select(TenantDomain).where(TenantDomain.domain == name)`
unfoldable pub domain_by_name : String → List TenantDomain → Option TenantDomain
domain_by_name name = find (λ d. d.domain == name)

-- `UPDATE` by the primary key
unfoldable pub put_domain : TenantDomain → List TenantDomain → List TenantDomain
unfolding overwrite
put_domain = overwrite (λ d. d.id)

-- `DELETE` by the primary key
unfoldable pub drop_domain : String → List TenantDomain → List TenantDomain
drop_domain id [] = []
drop_domain id (d ∷ ds) = let rest = drop_domain id ds in if d.id == id then rest else d ∷ rest

-- The settings that the code reads, the client's request, and what the missing class does: a row of its
-- defaults, and whether a commit refuses a row. Further a random token, the clock and `str.lower`.
pub record Cloud : Type 0 where
  pub api_token : String
  pub zone_id : String
  pub base_domain : String
  pub cname_target : String
  -- the JSON object of the answer to a method, an endpoint and a body; `none` where the client or
  -- the reading of the answer raises
  pub request : ℕ → String → String → Fields → Option Fields
  pub default_domain : ℕ → TenantDomain
  pub conflicts : TenantDomain → List TenantDomain → Bool
  pub token_urlsafe : ℕ → ℕ → String
  pub utcnow : ℕ → ℕ
  pub lower : String → String

-- `Tenant` of tenant.py, less the columns that no code of the directory reads or writes.
pub data TenantStatus : Type 0 where
  trial active suspended cancelled : TenantStatus

pub record Tenant : Type 0 where
  pub id : String
  pub name : String
  pub slug : String
  pub custom_domain : Option String
  pub status : TenantStatus
  pub trial_ends_at : Option ℕ
  pub owner_email : Option String
  pub billing_email : Option String
  pub settings : Fields
  pub branding : Fields
  pub limits : Fields
  pub features : Fields
  pub is_active : Bool
  pub created_at : ℕ
  pub modified_at : ℕ

pub record Tables : Type 0 where
  pub tenants : List Tenant
  pub domains : List TenantDomain

abbrev pub Domains : Type 0
Domains = World Tables

abbrev pub lift : {A : Type 0} → Result A → Exec Domains A
lift r w = (r, w)

-- A value for a column of text; the commit refuses one that is no text.
abbrev pub column : Option Json → Result (Option String)
column none = ok none
column (some null) = ok none
column (some (str s)) = ok (some s)
column (some _) = err (raised "DataError")
