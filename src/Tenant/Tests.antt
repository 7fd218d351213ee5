-- ===== src/Tenant/Tests.antt =====
-- A slug and a new tenant, and the theorems at work on them.
use back_end.Prelude.{List, [], ◌≤◌, ◌≡◌, refl}
use back_end.Prelude.Text.{len, take, drop_while, drop_while_end, strip_by}
use back_end.Shared.Json.{null, str, nil, field}
use back_end.Shared.Events.{EventEnvelope, World}
use back_end.Tenant.Onboarding.{Tenant}
use back_end.Tenant.Onboarding.Deliveries.{IsComplete}
use back_end.Tenant.Slug.{slugify, is_slug_char, dash_spaces, keep_slug_chars, join_dashes}
use back_end.Tenant.Slug.Chars.{AllChars, slugify_lem}

slug_of_a_shop : slugify (λ s. s) "- ana's  shop -" ≡ "anas-shop"
unfolding slugify dash_spaces keep_slug_chars join_dashes strip_by drop_while drop_while_end take
slug_of_a_shop = refl

slugify_lem_example :
    AllChars is_slug_char (slugify (λ s. s) "- ana's  shop -")
    × (len (slugify (λ s. s) "- ana's  shop -") ≤ 32)
slugify_lem_example = slugify_lem (λ s. s) "- ana's  shop -"

abbrev pending : EventEnvelope
pending = record {
  id = 1;
  type = "onboarding.pending";
  aggregate_id = "u";
  tenant_id = null;
  payload = field "user_id" (str "u") (
      field "business_name" (str "Shop") (
        field "legal_name" (str "Shop SL")
          (field "support_inbox" (str "a@b") (field "timezone" (str "UTC") nil))));
  occurred_at = 0;
  version = 1;
}

abbrev no_tenants : World (List Tenant)
no_tenants = record { db = []; published = []; draws = 0 }

abbrev pending_complete : IsComplete pending
pending_complete = record {
  business = "Shop";
  timezone = "UTC";
  legal_name = "Shop SL";
  support_inbox = "a@b";
  has_business = refl;
  has_timezone = refl;
  has_legal_name = refl;
  has_support_inbox = refl;
}
