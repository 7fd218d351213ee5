-- ===== src/Tenant/Domains/Requests/Valid.antt =====
-- What the requests keep of the domains' table.
use back_end.Prelude.{
  String, false, Option, none, some, List, [], ◌∷◌, ◌≡◌, ◌∙◌, refl, ap, Bool-cases, inl, inr,
  string_eq, ◌==◌, All, find, subst,
}
use back_end.Prelude.Distinct.{contains, find-key}
use back_end.Prelude.Text.{strip}
use back_end.Tenant.Domains.{Cloud, Domains, Tables, TenantDomain, domain_by_id, domain_by_name}
use back_end.Tenant.Domains.Service.{
  matches_slug, full_domain, create_subdomain, add_subdomain, create_custom_domain,
  add_custom_domain, check_domain_status, delete_domain,
}
use back_end.Tenant.Domains.Requests.{
  Op, adds_subdomain, adds_custom_domain, checks, deletes, serve, serve_all,
}
use back_end.Tenant.Domains.Requests.Rows.{
  IsValid, IsDated, ids, IsValid-snoc, IsValid-put_domain, IsValid-drop_domain,
}
use back_end.Tenant.Domains.Requests.Steps.{check_or_none_lem, delete_or_none_lem}
use back_end.Tenant.Domains.Requests.Additions.{add_subdomain_lem, add_custom_domain_lem}

-- A commit refuses a row with the primary key of another one.
pub record HasPrimaryKey (c : Cloud) : Type 0 where
  pub refuses :
      (row : TenantDomain) (ds : List TenantDomain)
      → c.conflicts row ds ≡ false
      → contains row.id (ids ds) ≡ false

abbrev pub IsValidTable : Tables → Type 0
IsValidTable db = IsValid db.domains

pub key_of :
    (id : String) (row : TenantDomain) (ds : List TenantDomain)
    → domain_by_id id ds ≡ some row
    → row.id ≡ id
unfolding domain_by_id
key_of id row ds found = find-key (λ d. d.id) id ds {x = row} found

All-found :
    (id : String) (row : TenantDomain) (ds : List TenantDomain)
    → All IsDated ds
    → domain_by_id id ds ≡ some row
    → IsDated row
unfolding domain_by_id find
All-found id row [] h e = cc
All-found id row (d ∷ ds) h e = elim (Bool-cases (d.id == id)) [
  | inl is ↦ let same : d ≡ row = cc (rw is at e) in subst IsDated same h.0
  | inr other ↦ All-found id row ds h.1 (rw other at e)
]

module _ (c : Cloud) (key : HasPrimaryKey c) where
  create_subdomain-IsValid :
      (tenant_id subdomain : String) (w : Domains)
      → IsValidTable w.db
      → IsValidTable (create_subdomain c tenant_id subdomain w).1.db
  unfolding create_subdomain add_subdomain
  create_subdomain-IsValid tenant_id subdomain w v = elim (Bool-cases (matches_slug subdomain)) [
    | inr e ↦ rw e v
    | inl e ↦ rw e (go (domain_by_name (full_domain c subdomain) w.db.domains) refl)
  ]
    where
      go :
          (o : Option TenantDomain)
          → domain_by_name (full_domain c subdomain) w.db.domains ≡ o
          → IsValidTable (add_subdomain c tenant_id subdomain o w).1.db
      go none free = add_subdomain_lem c IsValidTable tenant_id subdomain w (record {
        now = v;
        added = λ row same dated e.
            IsValid-snoc row w.db.domains (key.refuses row w.db.domains e)
              (ap (λ name. domain_by_name name w.db.domains) same ∙ free) dated v;
      })
      go (some _) taken = v

  create_custom_domain-IsValid :
      (tenant_id domain : String) (w : Domains)
      → IsValidTable w.db
      → IsValidTable (create_custom_domain c tenant_id domain w).1.db
  unfolding create_custom_domain add_custom_domain
  create_custom_domain-IsValid tenant_id domain w v =
      go (strip (c.lower domain)) (domain_by_name (strip (c.lower domain)) w.db.domains) refl
    where
      go :
          (name : String) (o : Option TenantDomain)
          → domain_by_name name w.db.domains ≡ o
          → IsValidTable (add_custom_domain c tenant_id name o w).1.db
      go name none free = add_custom_domain_lem c IsValidTable tenant_id name w (record {
        now = v;
        added = λ row same dated e.
            IsValid-snoc row w.db.domains (key.refuses row w.db.domains e)
              (ap (λ name'. domain_by_name name' w.db.domains) same ∙ free) dated v;
      })
      go name (some _) taken = v

  check_domain_status-IsValid :
      (domain_id : String) (w : Domains)
      → IsValidTable w.db
      → IsValidTable (check_domain_status c domain_id w).1.db
  unfolding check_domain_status
  check_domain_status-IsValid domain_id w v =
      check_or_none_lem c IsValidTable (domain_by_id domain_id w.db.domains) w v
        (λ row found waiting row' update.
          IsValid-put_domain row' row w.db.domains (found_again row row' found update.id)
            update.domain (update.dated (dated_row row found)) v)
    where
      found_again :
          (row row' : TenantDomain)
          → domain_by_id domain_id w.db.domains ≡ some row
          → row'.id ≡ row.id
          → domain_by_id row'.id w.db.domains ≡ some row
      found_again row row' found same =
          ap (λ id. domain_by_id id w.db.domains) (same ∙ key_of domain_id row w.db.domains found)
          ∙ found

      dated_row :
          (row : TenantDomain) → domain_by_id domain_id w.db.domains ≡ some row → IsDated row
      dated_row row found = All-found domain_id row w.db.domains v.dated found

  delete_domain-IsValid :
      (domain_id : String) (w : Domains)
      → IsValidTable w.db
      → IsValidTable (delete_domain c domain_id w).1.db
  unfolding delete_domain
  delete_domain-IsValid domain_id w v =
      delete_or_none_lem c IsValidTable (domain_by_id domain_id w.db.domains) w v
        (λ row found. IsValid-drop_domain row.id w.db.domains v)

  -- Whatever Cloudflare answers, a request keeps the ids and the domains distinct, and every active domain
  -- dated.
  serve-IsValid : (op : Op) (w : Domains) → IsValidTable w.db → IsValidTable (serve c op w).db
  unfolding serve
  serve-IsValid (adds_subdomain tenant_id subdomain) w v =
      create_subdomain-IsValid tenant_id subdomain w v
  serve-IsValid (adds_custom_domain tenant_id domain) w v =
      create_custom_domain-IsValid tenant_id domain w v
  serve-IsValid (checks domain_id) w v = check_domain_status-IsValid domain_id w v
  serve-IsValid (deletes domain_id) w v = delete_domain-IsValid domain_id w v

  -- Over any sequence of requests, and whatever Cloudflare answers to them, no two rows have one id or one
  -- domain, and every active domain has the time of its verification.
  pub serve_all-IsValid :
      (ops : List Op) (w : Domains) → IsValidTable w.db → IsValidTable (serve_all c ops w).db
  unfolding serve_all
  serve_all-IsValid [] w v = v
  serve_all-IsValid (op ∷ ops) w v = serve_all-IsValid ops (serve c op w) (serve-IsValid op w v)
