-- ===== src/Auth/Tests/Tenants.antt =====
-- Bob's tenant is created.
use back_end.Prelude.{none, some, find, [], ◌≡◌, refl, nat_eq, string_eq}
use back_end.Prelude.Exec.{ok, err, raised}
use back_end.Prelude.Text.{len}
use back_end.Shared.Json.{str, nil, field}
use back_end.Shared.Events.{EventEnvelope, World}
use back_end.Auth.Db.{AuthDb, user_by_id}
use back_end.Auth.Onboarding.{uuid_of, handle_tenant_created}
use back_end.Auth.Onboarding.Assignment.{
  user_of, tenant_of, activated, handle_tenant_created_again, handle_tenant_created_lost,
}
use back_end.Auth.Tests.Setup.{app, bob, db, world}

abbrev created : EventEnvelope
created = record {
  id = 5;
  type = "tenant.created";
  aggregate_id = "ii";
  tenant_id = str "iiiiiiiii";
  payload = field "tenant_id" (str "iiiiiiiii") nil;
  occurred_at = 0;
  version = 1;
}

bobs : user_of app created ≡ ok 2
unfolding uuid_of len
bobs = refl

ninth : tenant_of app created ≡ ok 9
unfolding uuid_of len
ninth = refl

bob_found : user_by_id 2 db.users ≡ some bob
unfolding user_by_id find
bob_found = refl

abbrev down : World AuthDb
down = record world { draws = 60 }

handle_tenant_created_again_example :
    let w = (handle_tenant_created app created world).1 in
    (user_by_id 2 w.db.users ≡ some (activated bob 9))
    × (handle_tenant_created app created w ≡ (ok none, w))
handle_tenant_created_again_example =
    handle_tenant_created_again app created 2 9 bob world bobs ninth bob_found refl

handle_tenant_created_lost_example :
    let (r, w) = handle_tenant_created app created down in
    let (r', w') = handle_tenant_created app created w in
    (r ≡ err (raised "ConnectionError")) × (r' ≡ ok none) × (w'.published ≡ [])
handle_tenant_created_lost_example =
    handle_tenant_created_lost app created 2 9 bob down bobs ninth bob_found refl refl
