-- ===== src/Tenant/Domains/Requests/Additions.antt =====
-- What an addition makes of the tables, whatever Cloudflare answers: nothing, or one more row.
use back_end.Prelude.{
  suc, String, true, false, Option, none, [], ◌∷◌, ◌++◌, ◌≡◌, refl, sym, subst, Bool-cases, inl,
  inr, string_eq,
}
use back_end.Prelude.Exec.{Result, ok, err, continue}
use back_end.Tenant.Domains.{Cloud, Domains, Tables, TenantDomain, lift}
use back_end.Tenant.Domains.Cloudflare.{create_dns_record, create_custom_hostname}
use back_end.Tenant.Domains.Service.{
  add_domain, id_of, full_domain, insert_subdomain, save_subdomain, add_subdomain,
  insert_custom_domain, save_custom_domain, add_custom_domain,
}
use back_end.Shared.Events.Same.{after-Same}
use back_end.Tenant.Domains.Requests.Same.{create_dns_record-Same, create_custom_hostname-Same}
use back_end.Tenant.Domains.Requests.Rows.{IsDated}
use back_end.Tenant.Domains.Requests.Steps.{with_domains}

module _ (c : Cloud) (Q : Tables → Type 0) where
  add_domain_lem :
      (row : TenantDomain) (w : Domains)
      → Q w.db
      → (c.conflicts row w.db.domains ≡ false → Q (with_domains w.db (w.db.domains ++ row ∷ [])))
      → Q (add_domain c row w).1.db
  unfolding add_domain
  add_domain_lem row w q added = elim (Bool-cases (c.conflicts row w.db.domains)) [
    | inl e ↦ rw e q
    | inr e ↦ rw e (added e)
  ]

  -- The state holds, and holds with a row of the domain that the commit does not refuse.
  pub record Admits (domain : String) (db : Tables) : Type 0 where
    pub now : Q db
    pub added :
        (row : TenantDomain)
        → row.domain ≡ domain
        → IsDated row
        → c.conflicts row db.domains ≡ false
        → Q (with_domains db (db.domains ++ row ∷ []))

  save_subdomain_lem :
      (tenant_id subdomain : String) (r : Result (Option String)) (w : Domains)
      → Admits (full_domain c subdomain) w.db
      → Q (continue (lift r w) (insert_subdomain c tenant_id subdomain)).1.db
  unfolding insert_subdomain
  save_subdomain_lem tenant_id subdomain (ok record_id) w h =
      add_domain_lem _ _ h.now (λ e. h.added _ refl (λ v. refl) e)
  save_subdomain_lem tenant_id subdomain (err e) w h = h.now

  -- A subdomain that is free is added, active and dated, or nothing is.
  pub add_subdomain_lem :
      (tenant_id subdomain : String) (w : Domains)
      → Admits (full_domain c subdomain) w.db
      → Q (add_subdomain c tenant_id subdomain none w).1.db
  unfolding add_subdomain
  add_subdomain_lem tenant_id subdomain w h =
      after-Same Q (create_dns_record c subdomain c.cname_target "CNAME" true 1)
        (save_subdomain c tenant_id subdomain) w (create_dns_record-Same c _ _ _ _ _) h.now
        (λ dns w' _ same.
          save_subdomain_lem tenant_id subdomain (id_of dns) w'
            (subst (Admits (full_domain c subdomain)) (sym same) h))

  save_custom_domain_lem :
      (tenant_id domain token : String) (r : Result (Option String)) (w : Domains)
      → Admits domain w.db
      → Q (continue (lift r w) (insert_custom_domain c tenant_id domain token)).1.db
  unfolding insert_custom_domain
  save_custom_domain_lem tenant_id domain token (ok hostname_id) w h =
      add_domain_lem _ _ h.now (λ e. h.added _ refl (λ v. cc) e)
  save_custom_domain_lem tenant_id domain token (err e) w h = h.now

  -- A custom domain that is free is added, and is not active, or nothing is.
  pub add_custom_domain_lem :
      (tenant_id domain : String) (w : Domains)
      → Admits domain w.db
      → Q (add_custom_domain c tenant_id domain none w).1.db
  unfolding add_custom_domain
  add_custom_domain_lem tenant_id domain w h =
      let token = c.token_urlsafe w.draws 32 in
      let w1 = record w { draws = suc w.draws } in
      after-Same Q (create_custom_hostname c domain "http")
        (save_custom_domain c tenant_id domain token) w1 (create_custom_hostname-Same c _ _) h.now
        (λ hostname w' _ same.
          save_custom_domain_lem tenant_id domain token (id_of hostname) w'
            (subst (Admits domain) (sym same) h))
