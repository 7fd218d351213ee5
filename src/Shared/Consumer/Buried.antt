-- ===== src/Shared/Consumer/Buried.antt =====
-- A message that cannot be handled ends in the dead-letter stream.
use mathlib.Core.List.{Mem}
use back_end.Prelude.{
  String, some, List, [], ◌∷◌, ◌≡◌, string_eq, inl, inr, take, All-take, ◌<◌, length,
}
use back_end.Prelude.Dict
use back_end.Prelude.Dict.{Dict}
use back_end.Prelude.Exec.{err, Exn}
use back_end.Shared.Consumer.{Entry, Group, Consumer, attempt}
use back_end.Shared.Consumer.Loop.{Channel, xreadgroup, arrive, process, turn}
use back_end.Shared.Consumer.Drains.{attempts, IsDrained, turns-IsDrained_keeps}
use back_end.Shared.Consumer.Entries.{Names}
use back_end.Shared.Consumer.Keeps.{Kept, handle_each-Kept}

not_there :
    (id : String) (fields : Entry) (d : Dict String Entry)
    → d ≡ []
    → Dict.get id d ≡ some fields
    → ⊥
unfolding Dict.get
not_there id fields d e h = cc (rw e at h)

module _ {S : Type 0} (c : Consumer S) (id : String) (fields : Entry) (raises : S → Exn)
    (fails : (s : S) → (attempt c fields s).0 ≡ err (raises s)) where
  turn-Kept :
      (arrived : Dict String Entry) (ch : Channel S)
      → Kept id fields ch.group
      → Kept id fields (turn c arrived ("0", ch)).1.group
  unfolding turn xreadgroup
  turn-Kept arrived ch kept =
      processed (take 10 ch.group.pending) (All-take _ 10 ch.group.pending kept.names)
    where
      processed :
          (messages : Dict String Entry)
          → Names id fields messages
          → Kept id fields (process c "0" (messages, arrive arrived ch)).1.group
      processed [] n = kept
      processed (message ∷ messages) n =
          handle_each-Kept c id fields raises fails (message ∷ messages) ch.group n kept

  -- A pending message whose handling raises every time is in the dead-letter stream when the loop's pass over
  -- the pending entries ends, as it does after at most one turn more than the attempts that they have left.
  pub turns-dlq :
      (rounds : List (Dict String Entry)) (ch : Channel S)
      → attempts c ch.group < length rounds
      → Names id fields ch.group.pending
      → Dict.get id ch.group.pending ≡ some fields
      → (d : IsDrained c rounds ch) × Mem fields d.then'.group.dlq
  turns-dlq rounds ch h n pending =
      let (d, kept) =
        turns-IsDrained_keeps c (Kept id fields) turn-Kept rounds ch h
          (record { names = n; held = inl pending }) in
      (d, buried d.then'.group d.nothing kept)
    where
      buried : (g : Group S) → g.pending ≡ [] → Kept id fields g → Mem fields g.dlq
      buried g e kept = elim kept.held [
        | inl open' ↦ absurd (not_there id fields g.pending e open')
        | inr dead ↦ dead
      ]
