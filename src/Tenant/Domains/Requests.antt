-- ===== src/Tenant/Domains/Requests.antt =====
-- Sequences of the requests that change the domains.
pub mod Same
pub mod Rows
pub mod Steps
pub mod Additions
pub mod Valid
pub mod Active
use back_end.Prelude.{String, List, [], ◌∷◌}
use back_end.Tenant.Domains.{Cloud, Domains}
use back_end.Tenant.Domains.Service.{
  create_subdomain, create_custom_domain, check_domain_status, delete_domain,
}

-- One request: its function and its arguments.
pub data Op : Type 0 where
  -- the tenant, and the subdomain or the domain
  adds_subdomain adds_custom_domain : String → String → Op
  -- the domain's id
  checks deletes : String → Op

module _ (c : Cloud) where
  unfoldable pub serve : Op → Domains → Domains
  unfolding create_subdomain create_custom_domain check_domain_status delete_domain
  serve (adds_subdomain tenant_id subdomain) w = (create_subdomain c tenant_id subdomain w).1
  serve (adds_custom_domain tenant_id domain) w = (create_custom_domain c tenant_id domain w).1
  serve (checks domain_id) w = (check_domain_status c domain_id w).1
  serve (deletes domain_id) w = (delete_domain c domain_id w).1

  unfoldable pub serve_all : List Op → Domains → Domains
  unfolding serve
  serve_all [] w = w
  serve_all (op ∷ ops) w = serve_all ops (serve op w)
