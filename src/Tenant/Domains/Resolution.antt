-- ===== src/Tenant/Domains/Resolution.antt =====
-- How services/tenant-service/app/_archived/cloudflare_domains/tenants.py finds the tenant of a host or of an
-- e-mail address.
use Prim.Native.String.{[], ◌∷◌}
use back_end.Prelude.{
  ℕ, zero, suc, ◌-◌, String, Bool, Option, none, List, ◌==◌, string_eq, nat_eq, if◌then◌else◌, ◌&&◌,
  ◌||◌, not, find, join, code,
}
use back_end.Prelude.Text.{len, starts_with, is_empty, strip}
use back_end.Tenant.Domains.{Cloud, Tables, Tenant}
use back_end.Tenant.Domains.Tenants.{is_text, get_tenant_by_slug, get_tenant_by_domain}

-- `host.split(":")[0]`
unfoldable pub before_colon : String → String
before_colon [] = []
before_colon (c ∷ s) = let rest = before_colon s in if code c == 58 then [] else c ∷ rest

unfoldable pub ends_with : String → String → Bool
ends_with [] part = is_empty part
ends_with (c ∷ s) part = (c ∷ s) == part || ends_with s part

-- `s.replace(part, "")` for a part that is not empty; the first argument is what is left to skip.
unfoldable pub remove_all : ℕ → String → String → String
unfolding starts_with len
remove_all k part [] = []
remove_all (suc k) part (c ∷ s) = remove_all k part s
remove_all zero part (c ∷ s) =
    let skipped = remove_all (len part - 1) part s in
    let kept = remove_all zero part s in if starts_with (c ∷ s) part then skipped else c ∷ kept

module _ (c : Cloud) where
  abbrev pub suffix : String
  suffix = join (List.◌∷◌ "." (List.◌∷◌ (c.lower c.base_domain) List.[]))

  -- From the lower-case domain on.
  unfoldable pub resolve_domain : String → Tables → Option Tenant
  unfolding ends_with remove_all get_tenant_by_slug get_tenant_by_domain
  resolve_domain domain db =
      let slug = remove_all 0 suffix domain in
      if ends_with domain suffix && not (is_empty slug) && not (slug == "www")
      then get_tenant_by_slug slug db.tenants
      else get_tenant_by_domain domain db

  unfoldable pub resolve_tenant : String → Tables → Option Tenant
  unfolding before_colon resolve_domain
  resolve_tenant host db =
      if is_empty host then none else resolve_domain (c.lower (before_colon host)) db

  unfoldable pub resolve_tenant_by_email : String → Tables → Option Tenant
  unfolding strip
  resolve_tenant_by_email email db =
      let normalized = c.lower (strip email) in
      if is_empty email
      then none
      else find (λ t. is_text t.owner_email normalized || is_text t.billing_email normalized)
          db.tenants
