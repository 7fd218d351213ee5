-- ===== src/Tenant/Domains/Requests/Same.antt =====
-- Code of the domains that leaves the tables as they are, whatever Cloudflare answers.
use back_end.Prelude.{ℕ, suc, String, Bool, true, false, Option, none, some, refl}
use back_end.Shared.Json.{Fields, bool, get_or, is_truthy}
use back_end.Shared.Events.Same.{Same, Same-bind, Same-pure, Same-catch, Same-if}
use back_end.Tenant.Domains.{Cloud}
use back_end.Tenant.Domains.Cloudflare.{
  request, answered, create_dns_record, create_custom_hostname, delete_quietly, get_quietly,
  is_configured,
}

module _ (c : Cloud) where
  answered-Same : (answer : Option Fields) → Same (answered c answer)
  answered-Same none = record { keeps = λ w. refl }
  answered-Same (some result) =
      Same-if (is_truthy (some (get_or "success" (bool false) result))) _ _ (Same-pure result)
        (record { keeps = λ w. refl })

  request-Same :
      (method endpoint : String) (data' : Fields) → Same (request c method endpoint data')
  unfolding request
  request-Same method endpoint data' = record {
    keeps = λ w.
        (answered-Same (c.request w.draws method endpoint data')).keeps
          (record w { draws = suc w.draws });
  }

  pub create_dns_record-Same :
      (name content record_type : String) (proxied : Bool) (ttl : ℕ)
      → Same (create_dns_record c name content record_type proxied ttl)
  unfolding create_dns_record
  create_dns_record-Same name content record_type proxied ttl =
      Same-if (is_configured c) _ _ (Same-bind _ _ (request-Same _ _ _) (λ result. Same-pure _))
        (Same-pure _)

  pub create_custom_hostname-Same :
      (hostname ssl_method : String) → Same (create_custom_hostname c hostname ssl_method)
  unfolding create_custom_hostname
  create_custom_hostname-Same hostname ssl_method =
      Same-if (is_configured c) _ _ (Same-bind _ _ (request-Same _ _ _) (λ result. Same-pure _))
        (Same-pure _)

  pub delete_quietly-Same : (rest : String) → Same (delete_quietly c rest)
  unfolding delete_quietly
  delete_quietly-Same rest =
      Same-if (is_configured c) _ _
        (Same-catch _ _ (Same-bind _ _ (request-Same _ _ _) (λ result. Same-pure _))
          (λ e. Same-pure false))
        (Same-pure true)

  pub get_quietly-Same : (rest : String) → Same (get_quietly c rest)
  unfolding get_quietly
  get_quietly-Same rest =
      Same-if (is_configured c) _ _
        (Same-catch _ _ (Same-bind _ _ (request-Same _ _ _) (λ result. Same-pure _))
          (λ e. Same-pure none))
        (Same-pure none)
