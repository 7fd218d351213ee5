-- ===== src/Tenant/Onboarding/Deliveries.antt =====
-- What each delivery of `onboarding.pending` leaves in the table of tenants.
use back_end.Prelude.{ℕ, String, List, [], ◌∷◌, ◌++◌, ◌≡◌, ◌⊎◌}
use back_end.Prelude.Exec.{raised, Result, ok, err}
use back_end.Shared.Host.{Host}
use back_end.Shared.Json.{get}
use back_end.Shared.Events.{EventEnvelope, World}
use back_end.Tenant.Onboarding.{Tenant, text_at}

-- The payload has the texts that a tenant's row is made of.
pub record IsComplete (event : EventEnvelope) : Type 0 where
  pub business : String
  pub timezone : String
  pub legal_name : String
  pub support_inbox : String
  pub has_business : text_at (get "business_name" event.payload) ≡ ok business
  pub has_timezone : text_at (get "timezone" event.payload) ≡ ok timezone
  pub has_legal_name : text_at (get "legal_name" event.payload) ≡ ok legal_name
  pub has_support_inbox : text_at (get "support_inbox" event.payload) ≡ ok support_inbox

module _ (h : Host) (lower : String → String) (hex : ℕ → String) where
  -- The row was refused and nothing changed, or it was added for the business.
  abbrev pub Adds :
      EventEnvelope → String → World (List Tenant) → Result String × World (List Tenant) → Type 0
  Adds event business w call =
      ((call.0 ≡ err (raised "IntegrityError")) × (call.1.db ≡ w.db))
      ⊎ ((t : Tenant) × (t.business_name ≡ business) × (call.1.db ≡ w.db ++ t ∷ []))
