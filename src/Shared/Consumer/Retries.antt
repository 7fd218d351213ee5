-- ===== src/Shared/Consumer/Retries.antt =====
-- A message is handled a bounded number of times, and the others are left alone.
use back_end.Prelude.{
  ℕ, zero, suc, ◌+◌, ◌≤◌, String, Bool, true, false, none, some, ◌≡◌, ◌⊎◌, ◌<◌, inl, inr,
  Bool-cases, Option-cases, beq_refl, ap, refl, arith, string_eq, leb,
}
use back_end.Prelude.Dict
use back_end.Prelude.Dict.{Dict, dict_laws, get-put, get-pop}
use back_end.Prelude.Exec.{Result, ok, err}
use back_end.Shared.Consumer.{
  Entry, Group, failures, or_zero, Consumer, attempt, fail, settle, handle, redeliver,
}

popped : {V : Type 0} (id : String) (d : Dict String V) → Dict.get id (Dict.pop id d) ≡ none
popped id d = rw (get-pop id id d, beq_refl id) refl

pub found :
    {V : Type 0} (id : String) (v : V) (d : Dict String V) → Dict.get id (Dict.put id v d) ≡ some v
found id v d = rw (get-put id id v d, beq_refl id) refl

module _ {S : Type 0} (c : Consumer S) where
  -- After an attempt the message is settled, or it has failed once more and may still be tried.
  settle_cases :
      (id : String) (fields : Entry) (r : Result Bool × S) (g : Group S)
      → (Dict.get id (settle c id fields r g).pending ≡ none)
        ⊎ ((failures id (settle c id fields r g) ≡ failures id g + 1)
            × (failures id g + 1 < c.max_deliveries))
  unfolding settle fail
  settle_cases id fields (ok true, s) g = inl (popped id g.pending)
  settle_cases id fields (ok false, s) g = inl (popped id g.pending)
  settle_cases id fields (err _, s) g =
      elim (Bool-cases (leb c.max_deliveries (failures id g + 1))) [
        | inl last ↦ inl (rw last (popped id g.pending))
        | inr more ↦
            inr (rw more (ap or_zero (found id (failures id g + 1) g.deliveries)), ground arith)
      ]

  settled-stays :
      (n : ℕ) (id : String) (g : Group S)
      → Dict.get id g.pending ≡ none
      → Dict.get id (redeliver c n id g).pending ≡ none
  unfolding redeliver
  settled-stays zero id g h = h
  settled-stays (suc n) id g h = rw (h, redeliver) h

  redeliver_once :
      (n : ℕ) (id : String) (g : Group S)
      → ((fields : Entry)
          → failures id (handle c id fields g) ≡ failures id g + 1
          → failures id g + 1 < c.max_deliveries
          → Dict.get id (redeliver c n id (handle c id fields g)).pending ≡ none)
      → Dict.get id (redeliver c (suc n) id g).pending ≡ none
  unfolding redeliver handle
  redeliver_once n id g again = elim (Option-cases (Dict.get id g.pending)) [
    | inl settled ↦ rw (settled, redeliver) settled
    | inr (fields, open') ↦
        rw (open', redeliver)
          (elim (settle_cases id fields (attempt c fields g.service) g) [
            | inl settled ↦ settled-stays n id (handle c id fields g) settled
            | inr (count, more) ↦ again fields count more
          ])
  ]

  -- A message is settled, handled or dead, after at most as many attempts as `max_deliveries` leaves,
  -- and at least one.
  pub redeliver-settles :
      (n : ℕ) (id : String) (g : Group S)
      → c.max_deliveries ≤ failures id g + suc n
      → Dict.get id (redeliver c (suc n) id g).pending ≡ none
  redeliver-settles zero id g h =
      redeliver_once zero id g (λ fields count more. absurd (omega (arith, h, more)))
  redeliver-settles (suc m) id g h =
      redeliver_once (suc m) id g (λ fields count more.
        redeliver-settles m id (handle c id fields g) (omega (arith, h, count)))
