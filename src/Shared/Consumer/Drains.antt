-- ===== src/Shared/Consumer/Drains.antt =====
-- The pass of `run_forever` over the pending entries comes to an end.
use back_end.Prelude.{
  ℕ, ◌+◌, ◌-◌, ◌≤◌, ◌<◌, max, String, Bool, true, false, Option, none, some, List, [], ◌∷◌, ◌++◌,
  ◌≡◌, ◌≢◌, ◌∙◌, refl, ap, arith, ◌==◌, string_eq, nat_eq, beq_refl, leb, eq_iff, Bool-cases, inl,
  inr, take, length, ◌⊎◌,
}
use back_end.Prelude.Dict
use back_end.Prelude.Dict.{Dict, get-put_other, get-pop_other}
use back_end.Prelude.Exec.{Result, ok, err}
use back_end.Shared.Consumer.{
  Entry, Group, Consumer, or_zero, failures, attempt, fail, settle, handle,
}
use back_end.Shared.Consumer.Retries.{found}
use back_end.Shared.Consumer.Loop.{Channel, xreadgroup, arrive, handle_each, process, turn, turns}

-- Whether a message is there, as a number.
abbrev one_if : Option Entry → ℕ
one_if none = 0
one_if (some _) = 1

-- Two counts of failures agree on all messages but one.
abbrev Agrees : String → Dict String ℕ → Dict String ℕ → Type 0
Agrees id d d' = (j : String) → j ≢ id → Dict.get j d' ≡ Dict.get j d

module _ (m : ℕ) where
  -- How often a message with so many failures is tried at most.
  abbrev left : Option ℕ → ℕ
  left o = max 1 (m - or_zero o)

  -- How often the pending messages are tried at most, together.
  unfoldable pub attempts_left : Dict String ℕ → Dict String Entry → ℕ
  attempts_left d [] = 0
  attempts_left d ((id, fields) ∷ pending) = left (Dict.get id d) + attempts_left d pending

  attempts_left-pop :
      (id : String) (d d' : Dict String ℕ) (pending : Dict String Entry)
      → Agrees id d d'
      → attempts_left d' (Dict.pop id pending) + one_if (Dict.get id pending)
        ≤ attempts_left d pending
  unfolding attempts_left Dict.pop Dict.get
  attempts_left-pop id d d' [] agrees = omega arith
  attempts_left-pop id d d' ((j, fields) ∷ pending) agrees = elim (Bool-cases (j == id)) [
    | inl e ↦
        let rest = attempts_left-pop id d d' pending agrees in
        let some' : 1 ≤ left (Dict.get j d) = omega arith in rw e (omega (arith, rest, some'))
    | inr e ↦
        let rest = attempts_left-pop id d d' pending agrees in
        let same = agrees j (λ p. ground (arith, eq_iff j id)) in rw (e, same) (omega (arith, rest))
  ]

  attempts_left-fewer :
      (id : String) (d d' : Dict String ℕ) (pending : Dict String Entry)
      → Agrees id d d'
      → left (Dict.get id d') + 1 ≤ left (Dict.get id d)
      → attempts_left d' pending + one_if (Dict.get id pending) ≤ attempts_left d pending
  unfolding attempts_left Dict.get
  attempts_left-fewer id d d' [] agrees fewer = omega arith
  attempts_left-fewer id d d' ((j, fields) ∷ pending) agrees fewer = elim (Bool-cases (j == id)) [
    | inl e ↦
        let rest = attempts_left-fewer id d d' pending agrees fewer in
        let is = (eq_iff j id).0 e in rw (e, is) (omega (arith, rest, fewer))
    | inr e ↦
        let rest = attempts_left-fewer id d d' pending agrees fewer in
        let same = agrees j (λ p. ground (arith, eq_iff j id)) in rw (e, same) (omega (arith, rest))
  ]

module _ {S : Type 0} (c : Consumer S) where
  -- The attempts that a group's pending messages have left.
  abbrev pub attempts : Group S → ℕ
  attempts g = attempts_left c.max_deliveries g.deliveries g.pending

  settle-attempts :
      (id : String) (fields : Entry) (r : Result Bool × S) (g : Group S)
      → attempts (settle c id fields r g) + one_if (Dict.get id g.pending) ≤ attempts g
  unfolding settle fail
  settle-attempts id fields (ok true, s) g =
      attempts_left-pop c.max_deliveries id g.deliveries (Dict.pop id g.deliveries) g.pending
        (λ j ne. get-pop_other id j g.deliveries ne)
  settle-attempts id fields (ok false, s) g =
      attempts_left-pop c.max_deliveries id g.deliveries g.deliveries g.pending (λ j ne. refl)
  settle-attempts id fields (err _, s) g =
      let more = failures id g + 1 in
      let put = Dict.put id more g.deliveries in
      let others = λ (j : String) (ne : j ≢ id). get-put_other id j more g.deliveries ne in
      elim (Bool-cases (leb c.max_deliveries more)) [
        | inl last ↦ rw last (
            attempts_left-pop c.max_deliveries id g.deliveries (Dict.pop id put) g.pending
              (λ j ne. get-pop_other id j put ne ∙ others j ne))
        | inr again ↦ rw again (
            attempts_left-fewer c.max_deliveries id g.deliveries put g.pending others
              (rw (found id more g.deliveries) (ground arith)))
      ]

  handle-attempts :
      (id : String) (fields : Entry) (g : Group S)
      → attempts (handle c id fields g) + one_if (Dict.get id g.pending) ≤ attempts g
  unfolding handle
  handle-attempts id fields g = settle-attempts id fields (attempt c fields g.service) g

  handle_each-attempts :
      (messages : Dict String Entry) (g : Group S)
      → attempts (handle_each c messages g) ≤ attempts g
  unfolding handle_each
  handle_each-attempts [] g = omega arith
  handle_each-attempts ((id, fields) ∷ messages) g =
      let one = handle-attempts id fields g in
      let rest = handle_each-attempts messages (handle c id fields g) in omega (arith, one, rest)

  -- A turn over pending entries handles at least one, if there is one, and else is the last.
  turn_replays :
      (arrived : Dict String Entry) (ch : Channel S)
      → ((turn c arrived ("0", ch) ≡ (">", arrive arrived ch)) × (ch.group.pending ≡ []))
        ⊎ (((turn c arrived ("0", ch)).0 ≡ "0")
            × (attempts (turn c arrived ("0", ch)).1.group < attempts ch.group))
  unfolding turn xreadgroup handle_each Dict.get take
  turn_replays arrived ch = go ch.group.pending refl
    where
      go :
          (pending : Dict String Entry)
          → ch.group.pending ≡ pending
          → ((process c "0" (take 10 pending, arrive arrived ch) ≡ (">", arrive arrived ch))
              × (pending ≡ []))
            ⊎ (((process c "0" (take 10 pending, arrive arrived ch)).0 ≡ "0")
                × (attempts (process c "0" (take 10 pending, arrive arrived ch)).1.group
                    < attempts ch.group))
      go [] e = inl (refl, refl)
      go ((id, fields) ∷ pending) e =
          let one = handle-attempts id fields ch.group in
          let rest = handle_each-attempts (take 9 pending) (handle c id fields ch.group) in
          let is : one_if (Dict.get id ch.group.pending) ≡ 1 = rw (e, Dict.get, beq_refl id) refl in
          inr (refl, omega (arith, one, rest, is))

  -- After some of the rounds the loop has turned to new entries, and no message was pending then.
  pub record IsDrained (rounds : List (Dict String Entry)) (ch : Channel S) : Type 0 where
    pub early : List (Dict String Entry)
    pub later : List (Dict String Entry)
    pub all : rounds ≡ early ++ later
    pub then' : Channel S
    pub ended : turns c early ("0", ch) ≡ (">", then')
    pub nothing : then'.group.pending ≡ []

  -- The pass ends, and what every turn over pending entries keeps holds of the group then.
  pub turns-IsDrained_keeps :
      (P : Group S → Type 0)
      → ((arrived : Dict String Entry) (ch : Channel S)
          → P ch.group
          → P (turn c arrived ("0", ch)).1.group)
      → (rounds : List (Dict String Entry)) (ch : Channel S) → attempts ch.group < length rounds
      → P ch.group
      → (d : IsDrained rounds ch) × P d.then'.group
  unfolding turns
  turns-IsDrained_keeps P keeps [] ch h p = absurd (omega (arith, h))
  turns-IsDrained_keeps P keeps (arrived ∷ rounds) ch h p = elim (turn_replays arrived ch) [
    | inl (last, empty) ↦ (
      record {
        early = arrived ∷ [];
        later = rounds;
        all = refl;
        then' = arrive arrived ch;
        ended = last;
        nothing = empty;
      },
      p,
    )
    | inr (again, fewer) ↦
        let ch' = (turn c arrived ("0", ch)).1 in
        let (r, q) =
          turns-IsDrained_keeps P keeps rounds ch' (omega (arith, h, fewer)) (keeps arrived ch p) in
        let more : turn c arrived ("0", ch) ≡ ("0", ch') = ap (λ start_id. (start_id, ch')) again in
        (
          record {
            early = arrived ∷ r.early;
            later = r.later;
            all = ap (λ rest. arrived ∷ rest) r.all;
            then' = r.then';
            ended = ap (turns c r.early) more ∙ r.ended;
            nothing = r.nothing;
          },
          q,
        )
  ]

  -- The loop's pass over the pending entries ends, with no entry pending, after at most one turn more than
  -- the attempts that the entries have left; whatever the handlers do and whatever comes meanwhile.
  pub turns-IsDrained :
      (rounds : List (Dict String Entry)) (ch : Channel S)
      → attempts ch.group < length rounds
      → IsDrained rounds ch
  turns-IsDrained rounds ch h =
      (turns-IsDrained_keeps (λ g. Unit) (λ arrived ch' u. tt) rounds ch h tt).0
