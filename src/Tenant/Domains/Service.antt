-- ===== src/Tenant/Domains/Service.antt =====
-- The domain functions of services/tenant-service/app/_archived/cloudflare_domains/cloudflare.py, over one session of the
-- database, whose refused commits leave the tables as they were.
use Prim.Native.String.{[], ◌∷◌}
use back_end.Prelude.{
  ℕ, String, Bool, true, false, Option, none, some, List, ◌++◌, ◌==◌, string_eq, nat_eq,
  if◌then◌else◌, ◌&&◌, ◌||◌, code, join,
}
use back_end.Prelude.Text.{is_empty, strip}
use back_end.Prelude.Exec.{Exec, Result, ok, err, raised, raise, pure, ◌>>=◌, ◌>>◌}
use back_end.Shared.Json.{Json, str, obj, nil, get, get_or, is_truthy}
use back_end.Shared.Events.{draw, query, write}
use back_end.Tenant.Slug.{is_slug_char}
use back_end.Tenant.Domains.{
  Cloud, Domains, DomainStatus, pending, verifying, active, failed, is_verified, TenantDomain,
  domain_by_id, domain_by_name, put_domain, drop_domain, lift, column,
}
use back_end.Tenant.Domains.Cloudflare.{
  create_dns_record, delete_dns_record, create_custom_hostname, get_custom_hostname,
  delete_custom_hostname,
}

-- `re.match(r"^[a-z0-9-]+$", text)`; `$` also matches before a newline at the end.
unfoldable pub slug_tail : String → Bool
slug_tail [] = true
slug_tail (c ∷ s) =
    let rest = slug_tail s in (is_slug_char c && rest) || (code c == 10 && is_empty s)

unfoldable pub matches_slug : String → Bool
unfolding slug_tail
matches_slug [] = false
matches_slug (c ∷ s) = is_slug_char c && slug_tail s

-- `answer.get("id")`, for a column of text
abbrev pub id_of : Json → Result (Option String)
id_of (obj d) = column (get "id" d)
id_of _ = err (raised "AttributeError")

abbrev pub text_of : Json → Json → Result (Json × String)
text_of cf_status (str s) = ok (cf_status, s)
text_of cf_status _ = err (raised "DataError")

abbrev pub ssl_of : Json → Json → Result (Json × String)
ssl_of cf_status (obj ssl) = text_of cf_status (get_or "status" (str "pending") ssl)
ssl_of cf_status _ = err (raised "AttributeError")

-- `cf_status` and `ssl_status` of an answer
abbrev pub statuses_of : Json → Result (Json × String)
statuses_of (obj d) = ssl_of (get_or "status" (str "pending") d) (get_or "ssl" (obj nil) d)
statuses_of _ = err (raised "AttributeError")

abbrev pub is_text : String → Json → Bool
is_text s (str t) = t == s
is_text s _ = false

-- The status that an answer of Cloudflare gives a domain.
unfoldable pub next_status : Json → DomainStatus → DomainStatus
next_status cf_status status =
    if is_text "active" cf_status
    then active
    else if is_text "pending" cf_status
    then verifying
    else if is_text "moved" cf_status || is_text "deleted" cf_status
    then failed
    else status

module _ (c : Cloud) where
  -- `db.add(domain)`, `db.commit()`
  unfoldable pub add_domain : TenantDomain → Exec Domains TenantDomain
  add_domain row w = if c.conflicts row w.db.domains then (err (raised "IntegrityError"), w) else (
    ok row,
    record w { db = record w.db { domains = w.db.domains ++ List.◌∷◌ row List.[] } },
  )

  abbrev pub full_domain : String → String
  full_domain subdomain = join (List.◌∷◌ subdomain (List.◌∷◌ "." (List.◌∷◌ c.base_domain List.[])))

  -- The row of a subdomain, from its record's id on.
  unfoldable pub insert_subdomain : String → String → Option String → Exec Domains TenantDomain
  unfolding add_domain
  insert_subdomain tenant_id subdomain record_id = do
    verified_at ← draw c.utcnow
    row ← draw c.default_domain
    add_domain (record row {
      tenant_id = tenant_id;
      domain = full_domain subdomain;
      domain_type = "subdomain";
      status = active;
      cloudflare_record_id = record_id;
      ssl_status = "active";
      verified_at = some verified_at;
    })

  abbrev pub save_subdomain : String → String → Json → Exec Domains TenantDomain
  save_subdomain tenant_id subdomain dns_record =
      lift (id_of dns_record) >>= insert_subdomain tenant_id subdomain

  -- `create_subdomain`, by what is found under its name
  unfoldable pub add_subdomain : String → String → Option TenantDomain → Exec Domains TenantDomain
  unfolding create_dns_record insert_subdomain
  add_subdomain tenant_id subdomain (some _) = raise (raised "ValueError")
  add_subdomain tenant_id subdomain none =
      create_dns_record c subdomain c.cname_target "CNAME" true 1
      >>= save_subdomain tenant_id subdomain

  unfoldable pub create_subdomain : String → String → Exec Domains TenantDomain
  unfolding add_subdomain matches_slug
  create_subdomain tenant_id subdomain =
      if matches_slug subdomain
      then query (λ db. domain_by_name (full_domain subdomain) db.domains)
        >>= add_subdomain tenant_id subdomain
      else raise (raised "ValueError")

  -- The row of a custom domain, from its hostname's id on.
  unfoldable pub insert_custom_domain :
      String → String → String → Option String → Exec Domains TenantDomain
  unfolding add_domain
  insert_custom_domain tenant_id domain verification_token hostname_id = do
    row ← draw c.default_domain
    add_domain (record row {
      tenant_id = tenant_id;
      domain = domain;
      domain_type = "custom";
      status = pending;
      cloudflare_hostname_id = hostname_id;
      verification_token = some verification_token;
      ssl_status = "pending_validation";
    })

  abbrev pub save_custom_domain : String → String → String → Json → Exec Domains TenantDomain
  save_custom_domain tenant_id domain verification_token hostname_result =
      lift (id_of hostname_result) >>= insert_custom_domain tenant_id domain verification_token

  -- `create_custom_domain`, by what is found under the domain
  unfoldable pub add_custom_domain :
      String → String → Option TenantDomain → Exec Domains TenantDomain
  unfolding create_custom_hostname insert_custom_domain
  add_custom_domain tenant_id domain (some _) = raise (raised "ValueError")
  add_custom_domain tenant_id domain none = do
    verification_token ← draw (λ k. c.token_urlsafe k 32)
    hostname_result ← create_custom_hostname c domain "http"
    save_custom_domain tenant_id domain verification_token hostname_result

  unfoldable pub create_custom_domain : String → String → Exec Domains TenantDomain
  unfolding add_custom_domain strip
  create_custom_domain tenant_id domain = do
    let domain' = strip (c.lower domain)
    existing ← query (λ db. domain_by_name domain' db.domains)
    add_custom_domain tenant_id domain' existing

  abbrev pub verified_when : Bool → ℕ → Option ℕ → Option ℕ
  verified_when true now old = some now
  verified_when false now old = old

  -- What the answer of Cloudflare changes of the row, and the commit.
  unfoldable pub save_statuses : TenantDomain → Json × String → Exec Domains TenantDomain
  unfolding next_status put_domain
  save_statuses row (cf_status, ssl_status) = do
    verified_at ← draw c.utcnow
    modified_at ← draw c.utcnow
    let row' = record row {
      status = next_status cf_status row.status;
      verified_at = verified_when (is_text "active" cf_status) verified_at row.verified_at;
      ssl_status = ssl_status;
      modified_at = modified_at;
    }
    db ← query (λ db. db)
    write (record db { domains = put_domain row' db.domains })
    pure row'

  abbrev pub update_domain : TenantDomain → Json → Exec Domains TenantDomain
  update_domain row hostname = lift (statuses_of hostname) >>= save_statuses row

  abbrev pub use_hostname : TenantDomain → Option Json → Exec Domains TenantDomain
  use_hostname row none = pure row
  use_hostname row (some hostname) =
      if is_truthy (some hostname) then update_domain row hostname else pure row

  abbrev pub ask_cloudflare : TenantDomain → Option String → Exec Domains TenantDomain
  ask_cloudflare row none = pure row
  ask_cloudflare row (some hostname_id) =
      if hostname_id == "" then pure row else get_custom_hostname c hostname_id >>= use_hostname row

  unfoldable pub check_found : TenantDomain → Exec Domains TenantDomain
  unfolding save_statuses
  check_found row =
      if is_verified row.status then pure row else ask_cloudflare row row.cloudflare_hostname_id

  abbrev pub return_found : TenantDomain → Exec Domains (Option TenantDomain)
  return_found row = pure (some row)

  -- `check_domain_status`, by the row with the id
  unfoldable pub check_or_none : Option TenantDomain → Exec Domains (Option TenantDomain)
  unfolding check_found
  check_or_none none = pure none
  check_or_none (some row) = check_found row >>= return_found

  unfoldable pub check_domain_status : String → Exec Domains (Option TenantDomain)
  unfolding check_or_none
  check_domain_status domain_id = query (λ db. domain_by_id domain_id db.domains) >>= check_or_none

  abbrev pub if_there : Option String → (String → Exec Domains Bool) → Exec Domains Bool
  if_there none f = pure true
  if_there (some id) f = if id == "" then pure true else f id

  unfoldable pub delete_found : TenantDomain → Exec Domains Bool
  unfolding drop_domain
  delete_found row = do
    if_there row.cloudflare_record_id (delete_dns_record c)
    if_there row.cloudflare_hostname_id (delete_custom_hostname c)
    db ← query (λ db. db)
    write (record db { domains = drop_domain row.id db.domains })
    pure true

  -- `delete_domain`, by the row with the id
  unfoldable pub delete_or_none : Option TenantDomain → Exec Domains Bool
  unfolding delete_found
  delete_or_none none = pure false
  delete_or_none (some row) = delete_found row

  unfoldable pub delete_domain : String → Exec Domains Bool
  unfolding delete_or_none
  delete_domain domain_id = query (λ db. domain_by_id domain_id db.domains) >>= delete_or_none
