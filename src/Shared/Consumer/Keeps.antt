-- ===== src/Shared/Consumer/Keeps.antt =====
-- A message that cannot be handled is not lost by `run_forever`.
use mathlib.Core.List.{Mem, mem-append_left, mem-append_right, mem-cons_self}
use back_end.Prelude.{
  ◌+◌, String, Bool, true, false, Option, some, List, [], ◌∷◌, ◌++◌, ◌≡◌, ◌≢◌, ◌∙◌, arith, ◌==◌,
  string_eq, leb, eq_iff, Bool-cases, inl, inr, ◌⊎◌, take, drop, All, All-take, All-drop,
  All-append,
}
use back_end.Prelude.Dict
use back_end.Prelude.Dict.{Dict}
use back_end.Prelude.Exec.{Result, ok, err, Exn}
use back_end.Shared.Consumer.{Entry, Group, Consumer, failures, attempt, fail, settle, handle}
use back_end.Shared.Consumer.Dead.{settle_fails, handle-Spared}
use back_end.Shared.Consumer.Loop.{
  Channel, xreadgroup, arrive, handle_each, process, turn, turns, ensure_group, loop, run_forever,
}
use back_end.Shared.Consumer.Entries.{Names, Names-pop, get-append, get-append_last, get-take-drop}

-- A message of the group is pending or dead, and no other entry has its id.
pub record Kept {S : Type 0} (id : String) (fields : Entry) (g : Group S) : Type 0 where
  pub names : Names id fields g.pending
  pub held : (Dict.get id g.pending ≡ some fields) ⊎ Mem fields g.dlq

-- The message is still to be delivered, or it is pending or dead.
pub record Safe {S : Type 0} (id : String) (fields : Entry) (ch : Channel S) : Type 0 where
  pub names : Names id fields ch.group.pending
  pub queue : Names id fields ch.undelivered
  pub held :
      (Dict.get id ch.undelivered ≡ some fields)
      ⊎ (Dict.get id ch.group.pending ≡ some fields)
      ⊎ Mem fields ch.group.dlq

module _ {S : Type 0} (c : Consumer S) where
  settle-Names :
      (id j : String) (fields f : Entry) (r : Result Bool × S) (g : Group S)
      → Names id fields g.pending
      → Names id fields (settle c j f r g).pending
  unfolding settle fail
  settle-Names id j fields f (ok true, s) g h = Names-pop id j fields g.pending h
  settle-Names id j fields f (ok false, s) g h = Names-pop id j fields g.pending h
  settle-Names id j fields f (err _, s) g h =
      elim (Bool-cases (leb c.max_deliveries (failures j g + 1))) [
        | inl last ↦ rw last (Names-pop id j fields g.pending h)
        | inr more ↦ rw more h
      ]

  handle_each-Names :
      (id : String) (fields : Entry) (messages : Dict String Entry) (g : Group S)
      → Names id fields g.pending
      → Names id fields (handle_each c messages g).pending
  unfolding handle_each handle
  handle_each-Names id fields [] g h = h
  handle_each-Names id fields ((j, f) ∷ messages) g h =
      handle_each-Names id fields messages (handle c j f g)
        (settle-Names id j fields f (attempt c f g.service) g h)

  settle-dlq :
      (x : Entry) (j : String) (f : Entry) (r : Result Bool × S) (g : Group S)
      → Mem x g.dlq
      → Mem x (settle c j f r g).dlq
  unfolding settle fail
  settle-dlq x j f (ok true, s) g h = h
  settle-dlq x j f (ok false, s) g h = h
  settle-dlq x j f (err _, s) g h = elim (Bool-cases (leb c.max_deliveries (failures j g + 1))) [
    | inl last ↦ rw last (mem-append_left (f ∷ []) h)
    | inr more ↦ rw more h
  ]

  module _ (id : String) (fields : Entry) (raises : S → Exn)
      (fails : (s : S) → (attempt c fields s).0 ≡ err (raises s)) where
    fail-held :
        (g : Group S)
        → Dict.get id g.pending ≡ some fields
        → (Dict.get id (fail c id fields g).pending ≡ some fields)
          ⊎ Mem fields (fail c id fields g).dlq
    unfolding fail
    fail-held g h = elim (Bool-cases (leb c.max_deliveries (failures id g + 1))) [
      | inl last ↦ inr (rw last (mem-append_right g.dlq mem-cons_self))
      | inr more ↦ inl (rw more h)
    ]

    handle-Kept :
        (j : String) (f : Entry) (g : Group S)
        → (j ≡ id → f ≡ fields)
        → Kept id fields g
        → Kept id fields (handle c j f g)
    unfolding handle
    handle-Kept j f g named kept = record {
      names = settle-Names id j fields f (attempt c f g.service) g kept.names;
      held = elim kept.held [
        | inr dead ↦ inr (settle-dlq fields j f (attempt c f g.service) g dead)
        | inl pending ↦ elim (Bool-cases (j == id)) [
          | inl e ↦
              let is = (eq_iff j id).0 e in
              rw (is, named is)
                (rw
                  (settle_fails c id fields (attempt c fields g.service) g (raises g.service)
                    (fails g.service))
                  (fail-held (record g { service = (attempt c fields g.service).1 }) pending))
          | inr other ↦
              let ne : id ≢ j = λ p. ground (arith, eq_iff j id) in
              inl ((handle-Spared c j id f g ne).pending ∙ pending)
        ]
      ];
    }

    pub handle_each-Kept :
        (messages : Dict String Entry) (g : Group S)
        → Names id fields messages
        → Kept id fields g
        → Kept id fields (handle_each c messages g)
    unfolding handle_each
    handle_each-Kept [] g n kept = kept
    handle_each-Kept ((j, f) ∷ messages) g n kept =
        handle_each-Kept messages (handle c j f g) n.1 (handle-Kept j f g n.0 kept)

    handle_each-Safe :
        (messages : Dict String Entry) (ch : Channel S)
        → Names id fields messages
        → Safe id fields ch
        → Safe id fields (record ch { group = handle_each c messages ch.group })
    handle_each-Safe messages ch n safe = record {
      names = handle_each-Names id fields messages ch.group safe.names;
      queue = safe.queue;
      held = elim safe.held [
        | inl queued ↦ inl queued
        | inr held ↦
            inr
              (handle_each-Kept messages ch.group n
                (record { names = safe.names; held = held })).held
      ];
    }

    process-Safe :
        (start_id : String) (messages : Dict String Entry) (ch : Channel S)
        → Names id fields messages
        → Safe id fields ch
        → Safe id fields (process c start_id (messages, ch)).1
    process-Safe start_id [] ch n safe = safe
    process-Safe start_id (message ∷ messages) ch n safe =
        handle_each-Safe (message ∷ messages) ch n safe

    -- New entries are pending once they have been read.
    deliver-held :
        (pending und : Dict String Entry) (dlq : List Entry)
        → Names id fields pending
        → (Dict.get id und ≡ some fields) ⊎ (Dict.get id pending ≡ some fields) ⊎ Mem fields dlq
        → (Dict.get id (drop 10 und) ≡ some fields)
          ⊎ (Dict.get id (pending ++ take 10 und) ≡ some fields)
          ⊎ Mem fields dlq
    deliver-held pending und dlq n (inl queued) = elim (get-take-drop id fields 10 und queued) [
      | inl now ↦ inr (inl (get-append_last id fields pending (take 10 und) n now))
      | inr later ↦ inl later
    ]
    deliver-held pending und dlq n (inr (inl open')) =
        inr (inl (get-append id fields pending (take 10 und) open'))
    deliver-held pending und dlq n (inr (inr dead)) = inr (inr dead)

    xreadgroup-Safe :
        (start_id : String) (ch : Channel S)
        → Safe id fields ch
        → Names id fields (xreadgroup start_id ch).0 × Safe id fields (xreadgroup start_id ch).1
    unfolding xreadgroup
    xreadgroup-Safe start_id ch safe = elim (Bool-cases (start_id == ">")) [
      | inl e ↦
          let new = All-take _ 10 ch.undelivered safe.queue in
          rw e (
            new,
            record {
              names = All-append _ ch.group.pending (take 10 ch.undelivered) safe.names new;
              queue = All-drop _ 10 ch.undelivered safe.queue;
              held = deliver-held ch.group.pending ch.undelivered ch.group.dlq safe.names safe.held;
            },
          )
      | inr e ↦ rw e (All-take _ 10 ch.group.pending safe.names, safe)
    ]

    arrive-Safe :
        (arrived : Dict String Entry) (ch : Channel S)
        → Names id fields arrived
        → Safe id fields ch
        → Safe id fields (arrive arrived ch)
    arrive-Safe arrived ch n safe = record {
      names = safe.names;
      queue = All-append _ ch.undelivered arrived safe.queue n;
      held = elim safe.held [
        | inl queued ↦ inl (get-append id fields ch.undelivered arrived queued)
        | inr held ↦ inr held
      ];
    }

    -- A message whose handling raises every time is never lost: after any turns of the loop it is still to
    -- be delivered, pending, or in the dead-letter stream, if no other entry comes under its id.
    pub turns-Safe :
        (rounds : List (Dict String Entry)) (start_id : String) (ch : Channel S)
        → All (Names id fields) rounds
        → Safe id fields ch
        → Safe id fields (turns c rounds (start_id, ch)).1
    unfolding turns turn
    turns-Safe [] start_id ch n safe = safe
    turns-Safe (arrived ∷ rounds) start_id ch n safe =
        let (messages, read) =
          xreadgroup-Safe start_id (arrive arrived ch) (arrive-Safe arrived ch n.0 safe) in
        let s = turn c arrived (start_id, ch) in
        turns-Safe rounds s.0 s.1 n.1 (process-Safe start_id _ _ messages read)

    -- A message whose handling raises every time is never lost: whatever the loop has done when it stops, it
    -- is still to be delivered, pending, or in the dead-letter stream, if no other entry comes under its id.
    pub run_forever-Safe :
        (created : Option String) (rounds : List (Dict String Entry)) (ch : Channel S)
        → All (Names id fields) rounds
        → Safe id fields ch
        → Safe id fields (run_forever c created rounds ch).1
    unfolding run_forever
    run_forever-Safe created rounds ch n safe = looped (ensure_group created)
      where
        looped : (r : Result (Unit {0})) → Safe id fields (loop c r rounds ch).1
        looped (ok _) = turns-Safe rounds "0" ch n safe
        looped (err e) = safe
