-- ===== src/Flows/Publishes.antt =====
-- The events a step of any service publishes: shared/src/shared/events/publisher.py.
use back_end.Prelude.{suc, String, Bool, true, false, List, [], ◌∷◌, ◌++◌, ◌≡◌, refl, sym, ap, ◌∙◌}
use back_end.Prelude.Exec.{Result, ok, ◌>>=◌}
use back_end.Shared.Host.{Host}
use back_end.Shared.Json.{Json, Fields}
use back_end.Shared.Events.{EventEnvelope, World, event_envelope, publish, xadd, stream_name}
use back_end.Shared.Events.Laws.{publish-db}

-- The one event that a step has published.
abbrev pub Publishes : {D : Type 0} → World D → World D → EventEnvelope → Type 0
Publishes before after event =
    after.published ≡ before.published ++ (stream_name "onboarding", event) ∷ []

snoc-inj : {A : Type 0} (xs : List A) (x y : A) → xs ++ x ∷ [] ≡ xs ++ y ∷ [] → x ≡ y
snoc-inj [] x y e = cc
snoc-inj (z ∷ xs) x y e = snoc-inj xs x y cc

pub Publishes-inj :
    {D : Type 0} (before after : World D) (e e' : EventEnvelope)
    → Publishes before after e
    → Publishes before after e'
    → e ≡ e'
Publishes-inj before after e e' p q =
    ap (λ (x : String × EventEnvelope). x.1) (snoc-inj before.published _ _ (sym p ∙ q))

module _ (h : Host) {D : Type 0} where
  xadd-Publishes :
      (event : EventEnvelope) (up : Bool) (id : String) (w : World D) {m : String}
      → (xadd h (stream_name "onboarding") event up id w).0 ≡ ok m
      → Publishes w (xadd h (stream_name "onboarding") event up id w).1 event
  xadd-Publishes event true id w e = refl
  xadd-Publishes event false id w e = cc

  -- A publication that returns has published its event, and no other.
  publish-Publishes :
      (event : EventEnvelope) (w : World D) {m : String}
      → (publish h "onboarding" event w).0 ≡ ok m
      → Publishes w (publish h "onboarding" event w).1 event
  unfolding publish
  publish-Publishes event w e = xadd-Publishes event (h.redis_up w.draws) _ _ e

module _ (h : Host) {D : Type 0} (type aggregate_id : String) (tenant_id : Json)
    (payload : Fields) where
  -- The envelope that is made of these, and its publication.
  abbrev pub envelope : World D → EventEnvelope
  envelope w = record {
    id = h.uuid4 w.draws;
    type = type;
    aggregate_id = aggregate_id;
    tenant_id = tenant_id;
    payload = payload;
    occurred_at = h.utcnow (suc w.draws);
    version = 1;
  }

  abbrev emit : World D → Result String × World D
  emit = event_envelope h type aggregate_id tenant_id payload >>= publish h "onboarding"

  pub emit-Publishes :
      (w : World D) {m : String} → (emit w).0 ≡ ok m → Publishes w (emit w).1 (envelope w)
  unfolding event_envelope
  emit-Publishes w done =
      publish-Publishes h (envelope w) (record w { draws = suc (suc w.draws) }) done

  pub emit-db : (w : World D) → (emit w).1.db ≡ w.db
  unfolding event_envelope
  emit-db w = publish-db h "onboarding" (envelope w) (record w { draws = suc (suc w.draws) })
