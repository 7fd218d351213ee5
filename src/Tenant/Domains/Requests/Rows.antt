-- ===== src/Tenant/Domains/Requests/Rows.antt =====
-- What holds of the rows of the domains' table, and what adding, changing and deleting a row keeps.
use back_end.Prelude.{
  ℕ, String, Bool, true, false, Option, none, some, List, [], ◌∷◌, ◌++◌, ◌≡◌, ◌≢◌, refl, sym, subst,
  arith, ◌==◌, string_eq, eq_iff, find, map, All, All-append, Bool-cases, inl, inr,
}
use mathlib.Core.List.{map-append}
use back_end.Prelude.Distinct.{
  contains, Distinct, Distinct-snoc, find-key, contains_of_find, map-overwrite, overwrite,
}
use back_end.Tenant.Domains.{
  TenantDomain, is_verified, domain_by_id, domain_by_name, put_domain, drop_domain,
}

abbrev pub ids : List TenantDomain → List String
ids = map λ d. d.id

abbrev pub names : List TenantDomain → List String
names = map λ d. d.domain

abbrev pub is_some : Option ℕ → Bool
is_some none = false
is_some (some _) = true

-- An active domain has a time of its verification.
abbrev pub IsDated : TenantDomain → Type 0
IsDated d = is_verified d.status ≡ true → is_some d.verified_at ≡ true

-- The keys and the domains are distinct, and the active domains are dated.
pub record IsValid (ds : List TenantDomain) : Type 0 where
  pub by_id : Distinct (ids ds)
  pub by_name : Distinct (names ds)
  pub dated : All IsDated ds

Distinct-names-snoc :
    (key : TenantDomain → String) (row : TenantDomain) (ds : List TenantDomain)
    → contains (key row) (map key ds) ≡ false
    → Distinct (map key ds)
    → Distinct (map key (ds ++ row ∷ []))
Distinct-names-snoc key row ds h d = rw map-append (Distinct-snoc (key row) (map key ds) h d)

pub IsValid-snoc :
    (row : TenantDomain) (ds : List TenantDomain)
    → contains row.id (ids ds) ≡ false
    → domain_by_name row.domain ds ≡ none
    → IsDated row
    → IsValid ds
    → IsValid (ds ++ row ∷ [])
unfolding domain_by_name
IsValid-snoc row ds new_id new_name dated v = record {
  by_id = Distinct-names-snoc (λ d. d.id) row ds new_id v.by_id;
  by_name =
      Distinct-names-snoc (λ d. d.domain) row ds
        (contains_of_find (λ d. d.domain) row.domain ds new_name) v.by_name;
  dated = All-append IsDated ds (row ∷ []) v.dated (dated, tt);
}

All-overwrite :
    (row : TenantDomain) (ds : List TenantDomain)
    → IsDated row
    → All IsDated ds
    → All IsDated (overwrite (λ d. d.id) row ds)
unfolding overwrite
All-overwrite row [] h k = tt
All-overwrite row (d ∷ ds) h k = elim (Bool-cases (d.id == row.id)) [
  | inl e ↦ rw e (h, All-overwrite row ds h k.1)
  | inr e ↦ rw e (k.0, All-overwrite row ds h k.1)
]

pub IsValid-put_domain :
    (row old : TenantDomain) (ds : List TenantDomain)
    → domain_by_id row.id ds ≡ some old
    → row.domain ≡ old.domain
    → IsDated row
    → IsValid ds
    → IsValid (put_domain row ds)
unfolding domain_by_id put_domain
IsValid-put_domain row old ds found same dated v =
    let key = find-key (λ d. d.id) row.id ds {x = old} found in
    record {
      by_id =
          subst Distinct
            (sym (map-overwrite (λ d. d.id) (λ d. d.id) row old ds v.by_id found (sym key)))
            v.by_id;
      by_name =
          subst Distinct
            (sym (map-overwrite (λ d. d.id) (λ d. d.domain) row old ds v.by_id found same))
            v.by_name;
      dated = All-overwrite row ds dated v.dated;
    }

contains-drop :
    (key : TenantDomain → String) (k id : String) (ds : List TenantDomain)
    → contains k (map key ds) ≡ false
    → contains k (map key (drop_domain id ds)) ≡ false
unfolding contains drop_domain
contains-drop key k id [] h = refl
contains-drop key k id (d ∷ ds) h = ground (arith, contains-drop key k id ds)

Distinct-drop :
    (key : TenantDomain → String) (id : String) (ds : List TenantDomain)
    → Distinct (map key ds)
    → Distinct (map key (drop_domain id ds))
unfolding drop_domain
Distinct-drop key id [] h = tt
Distinct-drop key id (d ∷ ds) h = elim (Bool-cases (d.id == id)) [
  | inl e ↦ rw e (Distinct-drop key id ds h.1)
  | inr e ↦ rw e (contains-drop key (key d) id ds h.0, Distinct-drop key id ds h.1)
]

All-drop_domain :
    (id : String) (ds : List TenantDomain) → All IsDated ds → All IsDated (drop_domain id ds)
unfolding drop_domain
All-drop_domain id [] h = tt
All-drop_domain id (d ∷ ds) h = elim (Bool-cases (d.id == id)) [
  | inl e ↦ rw e (All-drop_domain id ds h.1)
  | inr e ↦ rw e (h.0, All-drop_domain id ds h.1)
]

pub IsValid-drop_domain :
    (id : String) (ds : List TenantDomain) → IsValid ds → IsValid (drop_domain id ds)
IsValid-drop_domain id ds v = record {
  by_id = Distinct-drop (λ d. d.id) id ds v.by_id;
  by_name = Distinct-drop (λ d. d.domain) id ds v.by_name;
  dated = All-drop_domain id ds v.dated;
}

-- A row is found as before when another one is changed or deleted.
pub domain_by_id-put_domain_other :
    (id : String) (row : TenantDomain) (ds : List TenantDomain)
    → row.id ≢ id
    → domain_by_id id (put_domain row ds) ≡ domain_by_id id ds
unfolding domain_by_id put_domain overwrite find
domain_by_id-put_domain_other id row [] ne = refl
domain_by_id-put_domain_other id row (d ∷ ds) ne = ground (
  arith,
  eq_iff d.id row.id,
  eq_iff row.id id,
  eq_iff d.id id,
  domain_by_id-put_domain_other id row ds ne,
)

pub domain_by_id-drop_domain_other :
    (id other : String) (ds : List TenantDomain)
    → other ≢ id
    → domain_by_id id (drop_domain other ds) ≡ domain_by_id id ds
unfolding domain_by_id drop_domain find
domain_by_id-drop_domain_other id other [] ne = refl
domain_by_id-drop_domain_other id other (d ∷ ds) ne =
    ground (arith, eq_iff d.id other, eq_iff d.id id, domain_by_id-drop_domain_other id other ds ne)
