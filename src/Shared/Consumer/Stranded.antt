-- ===== src/Shared/Consumer/Stranded.antt =====
-- A message that is pending when `run_forever` has turned to new entries is not tried again.
use back_end.Prelude.{
  ℕ, zero, suc, String, none, List, [], ◌∷◌, ◌++◌, ◌≡◌, ◌≢◌, ◌∙◌, refl, ap, arith, string_eq,
  eq_iff, take, drop, All, subst, sym,
}
use back_end.Prelude.Dict
use back_end.Prelude.Dict.{Dict}
use back_end.Shared.Consumer.{Entry, Group, Consumer, handle}
use back_end.Shared.Consumer.Dead.{Spared, handle-Spared}
use back_end.Shared.Consumer.Loop.{Channel, xreadgroup, handle_each, process, turn, turns}

-- A dictionary that does not have the key.
abbrev pub Lacks : String → Dict String Entry → Type 0
Lacks id d = Dict.get id d ≡ none

pub Lacks-head :
    (id j : String) (fields : Entry) (d : Dict String Entry)
    → Lacks id ((j, fields) ∷ d)
    → (id ≢ j) × Lacks id d
unfolding Dict.get
Lacks-head id j fields d h = (λ e. ground (arith, eq_iff j id), ground arith)

pub Lacks-append :
    (id : String) (d d' : Dict String Entry) → Lacks id d → Lacks id d' → Lacks id (d ++ d')
unfolding Dict.get
Lacks-append id [] d' h k = k
Lacks-append id ((j, fields) ∷ d) d' h k = ground (arith, Lacks-append id d d')

pub Lacks-take : (id : String) (n : ℕ) (d : Dict String Entry) → Lacks id d → Lacks id (take n d)
unfolding Dict.get take
Lacks-take id zero d h = refl
Lacks-take id (suc n) [] h = refl
Lacks-take id (suc n) ((j, fields) ∷ d) h = ground (arith, Lacks-take id n d)

pub Lacks-drop : (id : String) (n : ℕ) (d : Dict String Entry) → Lacks id d → Lacks id (drop n d)
unfolding Dict.get drop
Lacks-drop id zero d h = h
Lacks-drop id (suc n) [] h = refl
Lacks-drop id (suc n) ((j, fields) ∷ d) h = ground (arith, Lacks-drop id n d)

pub get-append-Lacks :
    (id : String) (d d' : Dict String Entry) → Lacks id d' → Dict.get id (d ++ d') ≡ Dict.get id d
unfolding Dict.get
get-append-Lacks id [] d' h = h
get-append-Lacks id ((j, fields) ∷ d) d' h = ground (arith, get-append-Lacks id d d')

module _ {S : Type 0} (c : Consumer S) where
  handle_each-Spared :
      (id : String) (messages : Dict String Entry) (g : Group S)
      → Lacks id messages
      → Spared id g (handle_each c messages g)
  unfolding handle_each
  handle_each-Spared id [] g h = record { pending = refl; deliveries = refl }
  handle_each-Spared id ((j, fields) ∷ messages) g h =
      let (ne, rest) = Lacks-head id j fields messages h in
      let one = handle-Spared c j id fields g ne in
      let more = handle_each-Spared id messages (handle c j fields g) rest in
      record { pending = more.pending ∙ one.pending; deliveries = more.deliveries ∙ one.deliveries }

  -- The loop still reads new entries, the message is not among them, and it is as it was.
  record Stays (id : String) (before : Group S) (after : String × Channel S) : Type 0 where
    reads_new : after.0 ≡ ">"
    spared : Spared id before after.1.group
    lacks : Lacks id after.1.undelivered

  process-Stays :
      (id : String) (messages : Dict String Entry) (ch : Channel S)
      → Lacks id messages
      → Lacks id ch.undelivered
      → Stays id ch.group (process c ">" (messages, ch))
  process-Stays id [] ch h k = record {
    reads_new = refl;
    spared = record { pending = refl; deliveries = refl };
    lacks = k;
  }
  process-Stays id (message ∷ messages) ch h k = record {
    reads_new = refl;
    spared = handle_each-Spared id (message ∷ messages) ch.group h;
    lacks = k;
  }

  Spared-trans :
      (id : String) (g1 g2 g3 : Group S) → Spared id g1 g2 → Spared id g2 g3 → Spared id g1 g3
  Spared-trans id g1 g2 g3 p q = record {
    pending = q.pending ∙ p.pending;
    deliveries = q.deliveries ∙ p.deliveries;
  }

  turn-Stays :
      (id : String) (arrived : Dict String Entry) (ch : Channel S)
      → Lacks id ch.undelivered
      → Lacks id arrived
      → Stays id ch.group (turn c arrived (">", ch))
  unfolding turn xreadgroup
  turn-Stays id arrived ch h k =
      let und = ch.undelivered ++ arrived in
      let lacks = Lacks-append id ch.undelivered arrived h k in
      let new = Lacks-take id 10 und lacks in
      let g : Group S = record ch.group { pending = ch.group.pending ++ take 10 und } in
      let ch' : Channel S = record { group = g; undelivered = drop 10 und } in
      let s = process-Stays id (take 10 und) ch' new (Lacks-drop id 10 und lacks) in
      record {
        reads_new = s.reads_new;
        spared =
            Spared-trans id ch.group g _
              (record {
                pending = get-append-Lacks id ch.group.pending (take 10 und) new;
                deliveries = refl;
              })
              s.spared;
        lacks = s.lacks;
      }

  -- Once the loop reads new entries, a message that is not among them, or among those that come, keeps
  -- being pending, with as many failures as it has had: it is neither tried again nor given up.
  pub turns-Spared :
      (id : String) (rounds : List (Dict String Entry)) (ch : Channel S)
      → Lacks id ch.undelivered
      → All (Lacks id) rounds
      → Spared id ch.group (turns c rounds (">", ch)).1.group
  unfolding turns
  turns-Spared id [] ch h k = record { pending = refl; deliveries = refl }
  turns-Spared id (arrived ∷ rounds) ch h k =
      let t = turn c arrived (">", ch) in
      let s = turn-Stays id arrived ch h k.0 in
      let again : t ≡ (">", t.1) = ap (λ start_id. (start_id, t.1)) s.reads_new in
      Spared-trans id ch.group t.1.group _ s.spared (
        subst (λ x. Spared id t.1.group (turns c rounds x).1.group) (sym again)
          (turns-Spared id rounds t.1 s.lacks k.1))
