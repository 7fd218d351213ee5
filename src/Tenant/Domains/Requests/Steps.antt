-- ===== src/Tenant/Domains/Requests/Steps.antt =====
-- What a check or a deletion makes of the tables, whatever Cloudflare answers: nothing, or one change of one
-- row.
use back_end.Prelude.{
  ℕ, String, Bool, true, false, Option, none, some, List, [], ◌∷◌, ◌≡◌, refl, sym, ◌∙◌, subst,
  Bool-cases, inl, inr, ◌==◌, string_eq, ◌||◌, join,
}
use back_end.Prelude.Exec.{Exec, Result, ok, err, continue}
use back_end.Shared.Json.{Json, is_truthy}
use back_end.Tenant.Domains.{
  Cloud, Domains, Tables, TenantDomain, is_verified, put_domain, drop_domain, lift,
}
use back_end.Tenant.Domains.Cloudflare.{
  get_custom_hostname, delete_dns_record, delete_custom_hostname,
}
use back_end.Tenant.Domains.Service.{
  next_status, statuses_of, is_text, verified_when, save_statuses, use_hostname, ask_cloudflare,
  check_found, delete_found, if_there, return_found, check_or_none, delete_or_none,
}
use back_end.Shared.Events.Same.{Same, after-Same, Same-pure}
use back_end.Tenant.Domains.Requests.Same.{get_quietly-Same, delete_quietly-Same}
use back_end.Tenant.Domains.Requests.Rows.{IsDated, is_some}

abbrev pub with_domains : Tables → List TenantDomain → Tables
with_domains db ds = record db { domains = ds }

-- What a check changes of a row leaves its key and its domain, and a date if it makes it active.
pub record IsUpdate (old new : TenantDomain) : Type 0 where
  pub id : new.id ≡ old.id
  pub domain : new.domain ≡ old.domain
  pub dated : IsDated old → IsDated new

verified_lem :
    (c : Cloud) (row : TenantDomain) (cf : Json) (now : ℕ)
    → IsDated row
    → is_verified (next_status cf row.status) ≡ true
    → is_some (verified_when c (is_text "active" cf) now row.verified_at) ≡ true
unfolding next_status
verified_lem c row cf now h v = elim (Bool-cases (is_text "active" cf)) [
  | inl e ↦ rw e refl
  | inr e ↦ elim (Bool-cases (is_text "pending" cf)) [
    | inl e2 ↦ absurd (not_verified (rw (e, e2) at v))
    | inr e2 ↦ elim (Bool-cases (is_text "moved" cf || is_text "deleted" cf)) [
      | inl e3 ↦ absurd (not_verified (rw (e, e2, e3) at v))
      | inr e3 ↦ rw e (h (rw (e, e2, e3) at v))
    ]
  ]
]
  where
    not_verified : false ≡ true → ⊥
    not_verified p = cc

module _ (c : Cloud) (Q : Tables → Type 0) where
  -- The state holds, and holds after any update of the row.
  record Covers (row : TenantDomain) (db : Tables) : Type 0 where
    now : Q db
    changed :
        (row' : TenantDomain) → IsUpdate row row' → Q (with_domains db (put_domain row' db.domains))

  save_statuses_lem :
      (row : TenantDomain) (statuses : Json × String) (w : Domains)
      → Covers row w.db
      → Q (save_statuses c row statuses w).1.db
  unfolding save_statuses
  save_statuses_lem row (cf, ssl) w h =
      h.changed _ (record { id = refl; domain = refl; dated = verified_lem c row cf _ })

  update_domain_lem :
      (row : TenantDomain) (r : Result (Json × String)) (w : Domains)
      → Covers row w.db
      → Q (continue (lift r w) (save_statuses c row)).1.db
  update_domain_lem row (ok statuses) w h = save_statuses_lem row statuses w h
  update_domain_lem row (err e) w h = h.now

  use_hostname_lem :
      (row : TenantDomain) (hostname : Option Json) (w : Domains)
      → Covers row w.db
      → Q (use_hostname c row hostname w).1.db
  use_hostname_lem row none w h = h.now
  use_hostname_lem row (some hostname) w h = elim (Bool-cases (is_truthy (some hostname))) [
    | inl e ↦ rw e (update_domain_lem row (statuses_of hostname) w h)
    | inr e ↦ rw e h.now
  ]

  ask_cloudflare_lem :
      (row : TenantDomain) (id : Option String) (w : Domains)
      → Covers row w.db
      → Q (ask_cloudflare c row id w).1.db
  ask_cloudflare_lem row none w h = h.now
  ask_cloudflare_lem row (some id) w h = elim (Bool-cases (id == "")) [
    | inl e ↦ rw e h.now
    | inr e ↦ rw e (
        after-Same Q (get_custom_hostname c id) (use_hostname c row) w (get_quietly-Same c _) h.now
          (λ hostname w' _ same.
            use_hostname_lem row hostname w' (subst (Covers row) (sym same) h)))
  ]

  -- A check of a row changes nothing, or the row if it is not active.
  pub check_found_lem :
      (row : TenantDomain) (w : Domains)
      → Q w.db
      → (is_verified row.status ≡ false
          → (row' : TenantDomain) → IsUpdate row row'
          → Q (with_domains w.db (put_domain row' w.db.domains)))
      → Q (check_found c row w).1.db
  unfolding check_found
  check_found_lem row w q change = elim (Bool-cases (is_verified row.status)) [
    | inl e ↦ rw e q
    | inr e ↦ rw e (
        ask_cloudflare_lem row row.cloudflare_hostname_id w
          (record { now = q; changed = change e }))
  ]

  if_there-Same :
      (id : Option String) (f : String → Exec Domains Bool)
      → ((s : String) → Same (f s))
      → Same (if_there c id f)
  if_there-Same none f h = Same-pure true
  if_there-Same (some id) f h = elim (Bool-cases (id == "")) [
    | inl e ↦ rw e (Same-pure true)
    | inr e ↦ rw e (h id)
  ]

  -- A deletion deletes the row.
  pub delete_found_lem :
      (row : TenantDomain) (w : Domains)
      → Q w.db
      → Q (with_domains w.db (drop_domain row.id w.db.domains))
      → Q (delete_found c row w).1.db
  unfolding delete_found
  delete_found_lem row w q dropped =
      after-Same Q (if_there c row.cloudflare_record_id (delete_dns_record c)) _ w
        (if_there-Same row.cloudflare_record_id (delete_dns_record c)
          (λ s. delete_quietly-Same c (join ("/dns_records/" ∷ s ∷ []))))
        q
        (λ _ w' _ same.
          after-Same Q (if_there c row.cloudflare_hostname_id (delete_custom_hostname c)) _ w'
            (if_there-Same row.cloudflare_hostname_id (delete_custom_hostname c)
              (λ s. delete_quietly-Same c (join ("/custom_hostnames/" ∷ s ∷ []))))
            (subst Q (sym same) q)
            (λ _ w'' _ same'.
              subst (λ db. Q (with_domains db (drop_domain row.id db.domains))) (sym (same' ∙ same))
                dropped))

  returned_lem :
      (r : Result TenantDomain × Domains) → Q r.1.db → Q (continue r (return_found c)).1.db
  returned_lem (ok row, w) q = q
  returned_lem (err e, w) q = q

  pub check_or_none_lem :
      (o : Option TenantDomain) (w : Domains)
      → Q w.db
      → ((row : TenantDomain)
          → o ≡ some row
          → is_verified row.status ≡ false
          → (row' : TenantDomain) → IsUpdate row row'
          → Q (with_domains w.db (put_domain row' w.db.domains)))
      → Q (check_or_none c o w).1.db
  unfolding check_or_none
  check_or_none_lem none w q change = q
  check_or_none_lem (some row) w q change =
      returned_lem (check_found c row w) (check_found_lem row w q (change row refl))

  pub delete_or_none_lem :
      (o : Option TenantDomain) (w : Domains)
      → Q w.db
      → ((row : TenantDomain)
          → o ≡ some row
          → Q (with_domains w.db (drop_domain row.id w.db.domains)))
      → Q (delete_or_none c o w).1.db
  unfolding delete_or_none
  delete_or_none_lem none w q dropped = q
  delete_or_none_lem (some row) w q dropped = delete_found_lem row w q (dropped row refl)
