-- ===== src/Shared/Consumer/Dead.antt =====
-- A message that cannot be handled reaches the dead-letter stream, and other messages are left alone.
use back_end.Prelude.{
  Bool-cases, inl, inr, ℕ, zero, suc, ◌+◌, String, Bool, true, false, some, [], ◌∷◌, ◌++◌, ◌≡◌, ◌≢◌,
  ◌∙◌, refl, sym, ap, subst, arith, string_eq, leb,
}
use back_end.Prelude.Dict
use back_end.Prelude.Dict.{Dict, get-put_other, get-pop_other}
use back_end.Prelude.Exec.{Result, ok, err, Exn}
use back_end.Shared.Consumer.{
  Entry, Group, failures, or_zero, Consumer, attempt, fail, settle, handle, redeliver,
}
use back_end.Shared.Consumer.Retries.{found}

-- Another message is as it was: pending or not, with its failures.
pub record Spared {S : Type 0} (other : String) (before after : Group S) : Type 0 where
  pub pending : Dict.get other after.pending ≡ Dict.get other before.pending
  pub deliveries : Dict.get other after.deliveries ≡ Dict.get other before.deliveries

module _ {S : Type 0} (c : Consumer S) where
  settle-Spared :
      (id other : String) (fields : Entry) (r : Result Bool × S) (g : Group S)
      → other ≢ id
      → Spared other g (settle c id fields r g)
  unfolding settle fail
  settle-Spared id other fields (ok true, s) g ne = record {
    pending = get-pop_other id other g.pending ne;
    deliveries = get-pop_other id other g.deliveries ne;
  }
  settle-Spared id other fields (ok false, s) g ne = record {
    pending = get-pop_other id other g.pending ne;
    deliveries = refl;
  }
  settle-Spared id other fields (err _, s) g ne =
      elim (Bool-cases (leb c.max_deliveries (failures id g + 1))) [
        | inl last ↦ rw last (record {
          pending = get-pop_other id other g.pending ne;
          deliveries =
              get-pop_other id other (Dict.put id (failures id g + 1) g.deliveries) ne
              ∙ get-put_other id other (failures id g + 1) g.deliveries ne;
        })
        | inr more ↦ rw more (record {
          pending = refl;
          deliveries = get-put_other id other (failures id g + 1) g.deliveries ne;
        })
      ]

  -- Handling a message leaves every other message pending or not as it was, with its failures.
  pub handle-Spared :
      (id other : String) (fields : Entry) (g : Group S)
      → other ≢ id
      → Spared other g (handle c id fields g)
  unfolding handle
  handle-Spared id other fields g ne =
      settle-Spared id other fields (attempt c fields g.service) g ne

  pub settle_fails :
      (id : String) (fields : Entry) (r : Result Bool × S) (g : Group S) (e : Exn)
      → r.0 ≡ err e
      → settle c id fields r g ≡ fail c id fields (record g { service = r.1 })
  unfolding settle
  settle_fails id fields (ok b, s) g e h = cc
  settle_fails id fields (err _, s) g e h = refl

  -- A pending message whose handling raises every time is in the dead-letter stream after
  -- `max_deliveries` failures, once.
  pub redeliver-dlq :
      (n : ℕ) (id : String) (fields : Entry) (raises : S → Exn) (g : Group S)
      → ((s : S) → (attempt c fields s).0 ≡ err (raises s))
      → failures id g + suc n ≡ c.max_deliveries
      → Dict.get id g.pending ≡ some fields
      → (redeliver c (suc n) id g).dlq ≡ g.dlq ++ fields ∷ []
  unfolding redeliver handle
  redeliver-dlq zero id fields raises g fails count open' =
      let last : leb c.max_deliveries (failures id g + 1) ≡ true = ground (arith, count) in
      rw (open', redeliver)
        (ap (λ (x : Group S). x.dlq)
            (settle_fails id fields (attempt c fields g.service) g (raises g.service)
              (fails g.service))
          ∙ rw (last, fail) refl)
  redeliver-dlq (suc m) id fields raises g fails count open' =
      rw (open', redeliver)
        (subst (λ x. (redeliver c (suc m) id x).dlq ≡ g.dlq ++ fields ∷ []) (sym once)
          (redeliver-dlq m id fields raises g' fails
            (ap (λ o. or_zero o + suc m) (found id (failures id g + 1) g.deliveries)
              ∙ omega (arith, count))
            open'))
    where
      g' : Group S
      g' = record g {
        service = (attempt c fields g.service).1;
        deliveries = Dict.put id (failures id g + 1) g.deliveries;
      }

      more : leb c.max_deliveries (failures id g + 1) ≡ false
      more = ground (arith, count)

      once : handle c id fields g ≡ g'
      once =
          settle_fails id fields (attempt c fields g.service) g (raises g.service) (fails g.service)
          ∙ rw (more, fail) refl
