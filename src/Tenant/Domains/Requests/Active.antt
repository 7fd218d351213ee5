-- ===== src/Tenant/Domains/Requests/Active.antt =====
-- An active domain stays as it is until it is deleted.
use back_end.Prelude.{
  String, true, false, Option, none, some, List, [], ◌∷◌, ◌++◌, ◌≡◌, ◌≢◌, ◌∙◌, sym, subst,
  Bool-cases, inl, inr, string_eq, All,
}
use back_end.Prelude.Distinct.{find-snoc_old}
use back_end.Prelude.Text.{strip}
use back_end.Tenant.Domains.{
  Cloud, Domains, Tables, TenantDomain, is_verified, domain_by_id, domain_by_name,
}
use back_end.Tenant.Domains.Service.{
  matches_slug, full_domain, create_subdomain, add_subdomain, create_custom_domain,
  add_custom_domain, check_domain_status, delete_domain,
}
use back_end.Tenant.Domains.Requests.{
  Op, adds_subdomain, adds_custom_domain, checks, deletes, serve, serve_all,
}
use back_end.Tenant.Domains.Requests.Rows.{
  domain_by_id-put_domain_other, domain_by_id-drop_domain_other,
}
use back_end.Tenant.Domains.Requests.Steps.{check_or_none_lem, delete_or_none_lem}
use back_end.Tenant.Domains.Requests.Additions.{add_subdomain_lem, add_custom_domain_lem}
use back_end.Tenant.Domains.Requests.Valid.{key_of}

-- A request that is not the deletion of the domain with the id.
abbrev pub Spares : String → Op → Type 0
Spares id (adds_subdomain _ _) = Unit
Spares id (adds_custom_domain _ _) = Unit
Spares id (checks _) = Unit
Spares id (deletes other) = other ≢ id

module _ (c : Cloud) (id : String) (row : TenantDomain) (is : is_verified row.status ≡ true) where
  abbrev Has : Tables → Type 0
  Has db = domain_by_id id db.domains ≡ some row

  added_lem :
      (new : TenantDomain) (ds : List TenantDomain)
      → domain_by_id id ds ≡ some row
      → domain_by_id id (ds ++ new ∷ []) ≡ some row
  unfolding domain_by_id
  added_lem new ds h = find-snoc_old (λ d. d.id) id new row ds h

  create_subdomain-Has :
      (tenant_id subdomain : String) (w : Domains)
      → Has w.db
      → Has (create_subdomain c tenant_id subdomain w).1.db
  unfolding create_subdomain add_subdomain
  create_subdomain-Has tenant_id subdomain w h = elim (Bool-cases (matches_slug subdomain)) [
    | inr e ↦ rw e h
    | inl e ↦ rw e (go (domain_by_name (full_domain c subdomain) w.db.domains))
  ]
    where
      go : (o : Option TenantDomain) → Has (add_subdomain c tenant_id subdomain o w).1.db
      go none =
          add_subdomain_lem c Has tenant_id subdomain w
            (record { now = h; added = λ new same dated e. added_lem new w.db.domains h })
      go (some _) = h

  create_custom_domain-Has :
      (tenant_id domain : String) (w : Domains)
      → Has w.db
      → Has (create_custom_domain c tenant_id domain w).1.db
  unfolding create_custom_domain add_custom_domain
  create_custom_domain-Has tenant_id domain w h =
      go (strip (c.lower domain)) (domain_by_name (strip (c.lower domain)) w.db.domains)
    where
      go :
          (name : String) (o : Option TenantDomain)
          → Has (add_custom_domain c tenant_id name o w).1.db
      go name none =
          add_custom_domain_lem c Has tenant_id name w
            (record { now = h; added = λ new same dated e. added_lem new w.db.domains h })
      go name (some _) = h

  check_domain_status-Has :
      (domain_id : String) (w : Domains) → Has w.db → Has (check_domain_status c domain_id w).1.db
  unfolding check_domain_status
  check_domain_status-Has domain_id w h =
      check_or_none_lem c Has (domain_by_id domain_id w.db.domains) w h
        (λ old found waiting new update.
          domain_by_id-put_domain_other id new w.db.domains (λ p.
            other old found waiting
              (sym (key_of domain_id old w.db.domains found) ∙ sym update.id ∙ p))
          ∙ h)
    where
      other :
          (old : TenantDomain)
          → domain_by_id domain_id w.db.domains ≡ some old
          → is_verified old.status ≡ false
          → domain_id ≡ id
          → ⊥
      other old found waiting p =
          let again : domain_by_id id w.db.domains ≡ some old =
            subst (λ x. domain_by_id x w.db.domains ≡ some old) p found in
          let same : old ≡ row = cc (h, again) in
          let both : is_verified row.status ≡ false =
            subst (λ d. is_verified d.status ≡ false) same waiting in
          cc (is, both)

  delete_domain-Has :
      (domain_id : String) (w : Domains)
      → domain_id ≢ id
      → Has w.db
      → Has (delete_domain c domain_id w).1.db
  unfolding delete_domain
  delete_domain-Has domain_id w ne h =
      delete_or_none_lem c Has (domain_by_id domain_id w.db.domains) w h (λ old found.
        domain_by_id-drop_domain_other id old.id w.db.domains
          (λ p. ne (sym (key_of domain_id old w.db.domains found) ∙ p))
        ∙ h)

  serve-Has : (op : Op) (w : Domains) → Spares id op → Has w.db → Has (serve c op w).db
  unfolding serve
  serve-Has (adds_subdomain tenant_id subdomain) w s h =
      create_subdomain-Has tenant_id subdomain w h
  serve-Has (adds_custom_domain tenant_id domain) w s h =
      create_custom_domain-Has tenant_id domain w h
  serve-Has (checks domain_id) w s h = check_domain_status-Has domain_id w h
  serve-Has (deletes domain_id) w s h = delete_domain-Has domain_id w s h

  -- An active domain is never changed: over any sequence of requests that does not delete it, and whatever
  -- Cloudflare answers to them, its row stays what it is.
  pub domain_by_id-serve_all :
      (ops : List Op) (w : Domains)
      → All (Spares id) ops
      → domain_by_id id w.db.domains ≡ some row
      → domain_by_id id (serve_all c ops w).db.domains ≡ some row
  unfolding serve_all
  domain_by_id-serve_all [] w s h = h
  domain_by_id-serve_all (op ∷ ops) w s h =
      domain_by_id-serve_all ops (serve c op w) s.1 (serve-Has op w s.0 h)
