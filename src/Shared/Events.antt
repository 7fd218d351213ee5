-- ===== src/Shared/Events.antt =====
-- shared/src/shared/events/envelope.py and bus.py, over the state of a running service.
pub mod Laws
pub mod Same
use back_end.Prelude.{ℕ, suc, String, List, [], ◌∷◌, ◌++◌, join, Bool, true, false}
use back_end.Prelude.Exec.{Exec, ok, err, raised, pure, ◌>>=◌}
use back_end.Shared.Host.{Host}
use back_end.Shared.Json.{Json, Fields}

pub record EventEnvelope : Type 0 where
  pub id : ℕ
  pub type : String
  pub aggregate_id : String
  -- a number, a text or `null`
  pub tenant_id : Json
  pub payload : Fields
  pub occurred_at : ℕ
  pub version : ℕ

-- The state of a running service as its code sees it: its tables, the entries that it has added
-- to Redis streams (newest last, each with its stream's name), and how many values it has drawn
-- from its surroundings.
pub record World (D : Type 0) : Type 0 where
  pub db : D
  pub published : List (String × EventEnvelope)
  pub draws : ℕ

-- One more value of the given kind from the surroundings.
abbrev pub draw : {D A : Type 0} → (ℕ → A) → Exec (World D) A
draw f w = (ok (f w.draws), record w { draws = suc w.draws })

abbrev pub query : {D A : Type 0} → (D → A) → Exec (World D) A
query f w = (ok (f w.db), w)

abbrev pub write : {D : Type 0} → D → Exec (World D) Unit
write d w = (ok tt, record w { db = d })

-- `EventBus.stream_name`
abbrev pub stream_name : String → String
stream_name domain = join ("events:" ∷ domain ∷ [])

module _ (h : Host) {D : Type 0} where
  -- `EventEnvelope(type=…, aggregate_id=…, tenant_id=…, payload=…)` with its defaults
  unfoldable pub event_envelope : String → String → Json → Fields → Exec (World D) EventEnvelope
  event_envelope type aggregate_id tenant_id payload = do
    id ← draw h.uuid4
    occurred_at ← draw h.utcnow
    pure (record {
      id = id;
      type = type;
      aggregate_id = aggregate_id;
      tenant_id = tenant_id;
      payload = payload;
      occurred_at = occurred_at;
      version = 1;
    })

  -- XADD; the client raises when Redis does not answer.
  abbrev pub xadd : String → EventEnvelope → Bool → String → Exec (World D) String
  xadd stream event true id w =
      (ok id, record w { published = w.published ++ (stream, event) ∷ [] })
  xadd stream event false id w = (err (raised "ConnectionError"), w)

  -- `EventBus.publish`
  unfoldable pub publish : String → EventEnvelope → Exec (World D) String
  publish domain event = do
    up ← draw h.redis_up
    id ← draw h.message_id
    xadd (stream_name domain) event up id
