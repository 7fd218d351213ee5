-- ===== src/Shared/Tests.antt =====
-- A consumer of one handler that raises, and the theorems at work on it.
use mathlib.Core.List.{Mem}
use back_end.Prelude.{
  ℕ, inl, List, ◌<◌, ◌+◌, ◌==◌, true, eq_iff, String, none, some, [], ◌∷◌, ◌≡◌, ◌≢◌, refl, arith,
  string_eq,
}
use back_end.Prelude.Dict
use back_end.Prelude.Dict.{Dict}
use back_end.Prelude.Exec.{Exn, err, raised, raise}
use back_end.Shared.Json.{null, nil}
use back_end.Shared.Events.{EventEnvelope}
use back_end.Shared.Consumer.{failures, Consumer, Group, Entry, attempt, handle}
use back_end.Shared.Consumer.Loop.{Channel, turns, run_forever, turn, xreadgroup, handle_each}
use back_end.Shared.Consumer.Stranded.{turns-Spared}
use back_end.Shared.Consumer.Drains.{attempts, IsDrained, attempts_left, turns-IsDrained}
use back_end.Shared.Consumer.Keeps.{Safe, run_forever-Safe}
use back_end.Shared.Consumer.Buried.{turns-dlq}
use back_end.Shared.Consumer.Dead.{Spared}

abbrev event : EventEnvelope
event = record {
  id = 1;
  type = "tenant.created";
  aggregate_id = "u";
  tenant_id = null;
  payload = nil;
  occurred_at = 0;
  version = 1;
}

abbrev consumer : Consumer ℕ
consumer = record {
  model_validate_json = λ data'. some event;
  handlers = λ type. some (λ _. raise (raised "ValueError"));
  max_deliveries = 2;
}

abbrev entry : Entry
entry = ("data", "{}") ∷ []

abbrev group : Group ℕ
group = record {
  service = 0;
  pending = ("1-0", entry) ∷ ("2-0", entry) ∷ [];
  deliveries = [];
  dlq = [];
}

abbrev first : String
first = "1-0"

abbrev second : String
second = "2-0"

differ : second ≢ first
differ e = let same : (second == first) ≡ true = (eq_iff second first).1 e in cc

raises : ℕ → Exn
raises s = raised "ValueError"

fails : (s : ℕ) → (attempt consumer entry s).0 ≡ err (raises s)
unfolding attempt Dict.get raises
fails s = refl

is_pending : Dict.get first group.pending ≡ some entry
unfolding Dict.get
is_pending = refl

fresh : failures first group + 2 ≡ 2
unfolding Dict.get
fresh = refl

-- Two messages are pending, and a third is to be delivered.
abbrev channel : Channel ℕ
channel = record { group = group; undelivered = ("3-0", entry) ∷ [] }

abbrev quiet : List (Dict String Entry)
quiet = [] ∷ [] ∷ [] ∷ [] ∷ [] ∷ []

enough : attempts consumer channel.group < 5
unfolding attempts_left Dict.get
enough = omega arith

turns-IsDrained_example : IsDrained consumer quiet channel
turns-IsDrained_example = turns-IsDrained consumer quiet channel enough

turns-Spared_example : Spared "1-0" group (turns consumer quiet (">", channel)).1.group
unfolding Dict.get
turns-Spared_example =
    turns-Spared consumer "1-0" quiet channel refl (refl, (refl, (refl, (refl, (refl, tt)))))

run_forever-Safe_example : Safe "3-0" entry (run_forever consumer none quiet channel).1
unfolding Dict.get
run_forever-Safe_example =
    run_forever-Safe consumer "3-0" entry raises fails none quiet channel
      (tt, (tt, (tt, (tt, (tt, tt)))))
      (record {
        names = ((λ e. refl), ((λ e. refl), tt));
        queue = ((λ e. refl), tt);
        held = inl refl;
      })

turns-dlq_example : (d : IsDrained consumer quiet channel) × Mem entry d.then'.group.dlq
turns-dlq_example =
    turns-dlq consumer "1-0" entry raises fails quiet channel enough
      ((λ e. refl), ((λ e. refl), tt)) is_pending

-- A new message that fails once stays pending, with two turns to come.
third_stays :
    let after = (turns consumer ([] ∷ [] ∷ [] ∷ []) (">", channel)).1 in
    (Dict.get "3-0" after.group.pending ≡ some entry) × (failures "3-0" after.group ≡ 1)
unfolding turns turn xreadgroup handle_each handle Dict.get Dict.put
third_stays = (refl, refl)
