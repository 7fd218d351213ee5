-- ===== src/Shared/Events/Laws.antt =====
-- Publishing leaves the tables alone.
use back_end.Prelude.{String, ◌≡◌, refl, Bool, true, false}
use back_end.Shared.Host.{Host}
use back_end.Shared.Events.{EventEnvelope, World, xadd, publish}

module _ (h : Host) {D : Type 0} where
  xadd-db :
      (stream id : String) (event : EventEnvelope) (up : Bool) (w : World D)
      → (xadd h stream event up id w).1.db ≡ w.db
  xadd-db stream id event true w = refl
  xadd-db stream id event false w = refl

  pub publish-db :
      (domain : String) (event : EventEnvelope) (w : World D)
      → (publish h domain event w).1.db ≡ w.db
  unfolding publish
  publish-db domain event w = xadd-db _ _ event (h.redis_up w.draws) _
