-- ===== src/Flows/Tests.antt =====
-- Bob registers, his tenant is created, and he is active in it.
mod Sessions
use back_end.Prelude.{
  ℕ, zero, suc, ◌<◌, ◌^◌, String, List, some, none, [], ◌∷◌, ◌≡◌, refl, ap, arith, find, nat_eq,
  string_eq, join,
}
use back_end.Prelude.Text.{len, take}
use back_end.Shared.Host.{Host, HostLaws}
use back_end.Shared.Json.{Fields, null, str, nil, field}
use back_end.Shared.Events.{EventEnvelope, World, event_envelope, publish}
use back_end.Auth.App.{App}
use back_end.Auth.Db.{AuthDb, user_by_id}
use back_end.Auth.Tests.Setup.{app, bob, world}
use back_end.Auth.Onboarding.{
  OnboardingRequest, pending_payload, publish_pending, handle_tenant_created,
}
use back_end.Prelude.Exec.{ok}
use back_end.Tenant.Slug.{slugify}
use back_end.Tenant.Onboarding.{Tenant, handler, created_payload, commit_tenant, tenant_conflicts}
use back_end.Flows.Unary.{unary, len-unary}
use back_end.Flows.Publishes.{envelope}
use back_end.Flows.Onboarding.{SharesUuids, IsOnboarded, handle_tenant_created-publish_pending}

abbrev host : Host
host = record app.host { str_uuid = unary; uuid4 = λ k. 9 }

abbrev services : App
services = record app { host = host }

parses : (u : ℕ) → u < 2 ^ 128 → some (len (unary u)) ≡ some u
parses u _ = ap some (len-unary u)

abbrev request : OnboardingRequest
request = record {
  email = "bob@example.com";
  password = "pw";
  name = "Bob";
  phone = none;
  business_name = "Shop";
  timezone = "UTC";
  legal_name = "Shop SL";
  support_inbox = "a@b";
}

abbrev pending : EventEnvelope
pending = envelope host "onboarding.pending" "uu" null (pending_payload services bob request) world

registered :
    (publish_pending services bob request world).1.published ≡ ("events:onboarding", pending) ∷ []
unfolding publish_pending event_envelope publish
registered = refl

abbrev no_tenants : World (List Tenant)
no_tenants = record { db = []; published = []; draws = 0 }

abbrev lower : String → String
lower s = s

abbrev hex : ℕ → String
hex n = "c0ffee00"

abbrev slug : String
slug = join (slugify lower "Shop" ∷ "-" ∷ take 6 "c0ffee00" ∷ [])

abbrev made : World (List Tenant)
made = record no_tenants { draws = 4 }

abbrev created : EventEnvelope
created =
    envelope host "tenant.created" "uu" (str (unary 9))
      (created_payload host lower hex "uu" 9 slug pending.payload) made

handled :
    (handler host lower hex pending no_tenants).1.published ≡ ("events:onboarding", created) ∷ []
unfolding handler commit_tenant tenant_conflicts find
handled = refl

bob_found : user_by_id 2 world.db.users ≡ some bob
unfolding user_by_id find
bob_found = refl

returned : (handler host lower hex pending no_tenants).0 ≡ ok "iiiiiii"
unfolding handler commit_tenant tenant_conflicts find
returned = refl

sent : (publish_pending services bob request world).0 ≡ ok "iii"
unfolding publish_pending event_envelope publish
sent = refl

handle_tenant_created-publish_pending_example :
    IsOnboarded request bob no_tenants
      (handler host lower hex pending no_tenants).1
      (handle_tenant_created services created world).1.db.users
handle_tenant_created-publish_pending_example =
    handle_tenant_created-publish_pending services host lower hex request bob world world no_tenants
      pending created (record { of_user = parses; of_tenant = parses })
      (record { parse-str = parses; uuid4_bound = λ k. omega arith }) (omega arith) sent registered
      returned handled bob_found refl
