-- ===== src/Shared/Consumer.antt =====
-- shared/src/shared/events/consumer.py: what a consumer does with a message that Redis has
-- delivered to it. Redis is assumed to answer; the state holds what its commands act on: the
-- entries that are delivered and not acknowledged, the hash of failed deliveries, and the
-- dead-letter stream.
pub mod Retries
pub mod Dead
pub mod Loop
pub mod Stranded
pub mod Drains
pub mod Entries
pub mod Keeps
pub mod Buried
use back_end.Prelude.{
  ℕ, zero, suc, ◌+◌, String, Bool, true, false, Option, none, some, List, [], ◌∷◌, ◌++◌, string_eq,
  if◌then◌else◌, leb,
}
use back_end.Prelude.Dict
use back_end.Prelude.Dict.{Dict}
use back_end.Prelude.Exec.{Exec, Result, ok, err, raised, raise, pure, ◌>>=◌, ◌>>◌}
use back_end.Shared.Events.{EventEnvelope}

-- The fields of a stream entry.
abbrev pub Entry : Type 0
Entry = Dict String String

pub record Group (S : Type 0) : Type 0 where
  -- what the handlers work on
  pub service : S
  pub pending : Dict String Entry
  -- `deliveries_key`, and the entries of `dlq_stream`
  pub deliveries : Dict String ℕ
  pub dlq : List Entry

abbrev pub or_zero : Option ℕ → ℕ
or_zero none = 0
or_zero (some n) = n

-- How often the handling of a message has failed.
abbrev pub failures : {S : Type 0} → String → Group S → ℕ
failures id g = or_zero (Dict.get id g.deliveries)

-- The consumer's handlers and their number of attempts; and `EventEnvelope.model_validate_json`,
-- which raises `ValidationError` (`none`) on other texts.
pub record Consumer (S : Type 0) : Type 0 where
  pub model_validate_json : String → Option EventEnvelope
  pub handlers : String → Option (EventEnvelope → Exec S Unit)
  pub max_deliveries : ℕ

abbrev pub if_pending : {S : Type 0} → Option Entry → Group S → (Entry → Group S) → Group S
if_pending none g again = g
if_pending (some fields) g again = again fields

module _ {S : Type 0} (c : Consumer S) where
  -- Whether there was a handler.
  abbrev pub dispatch : Option (EventEnvelope → Exec S Unit) → EventEnvelope → Exec S Bool
  dispatch none event = pure false
  dispatch (some handler) event = do handler event; pure true

  abbrev pub receive : Option EventEnvelope → Exec S Bool
  receive none = raise (raised "ValidationError")
  receive (some event) = dispatch (c.handlers event.type) event

  abbrev pub read : Option String → Exec S Bool
  read none = raise (raised "KeyError")
  read (some data') = receive (c.model_validate_json data')

  -- The `try` block up to its acknowledgements.
  unfoldable pub attempt : Entry → Exec S Bool
  attempt fields = read (Dict.get "data" fields)

  -- The `except` block: one more failure, and the dead-letter stream after the last.
  unfoldable pub fail : String → Entry → Group S → Group S
  fail id fields g =
      let deliveries = failures id g + 1 in
      if leb c.max_deliveries deliveries
      then record g {
        pending = Dict.pop id g.pending;
        deliveries = Dict.pop id (Dict.put id deliveries g.deliveries);
        dlq = g.dlq ++ fields ∷ [];
      }
      else record g { deliveries = Dict.put id deliveries g.deliveries }

  -- What is acknowledged, by how the attempt ended.
  unfoldable pub settle : String → Entry → Result Bool × S → Group S → Group S
  unfolding fail
  settle id fields (ok true, s) g = record g {
    service = s;
    pending = Dict.pop id g.pending;
    deliveries = Dict.pop id g.deliveries;
  }
  settle id fields (ok false, s) g = record g { service = s; pending = Dict.pop id g.pending }
  settle id fields (err _, s) g = fail id fields (record g { service = s })

  -- `_handle`
  unfoldable pub handle : String → Entry → Group S → Group S
  unfolding attempt settle
  handle id fields g = settle id fields (attempt fields g.service) g

  -- A message that is pending is handled again, at most the given number of times: what the passes of
  -- `run_forever` over the pending entries do with it.
  unfoldable pub redeliver : ℕ → String → Group S → Group S
  unfolding handle
  redeliver zero id g = g
  redeliver (suc n) id g =
      if_pending (Dict.get id g.pending) g (λ fields. redeliver n id (handle id fields g))
