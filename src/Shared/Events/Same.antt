-- ===== src/Shared/Events/Same.antt =====
-- Code that leaves a service's tables as they are, whatever its outcome.
use back_end.Prelude.{Bool, true, false, ◌≡◌, refl, sym, ◌∙◌, subst, if◌then◌else◌}
use back_end.Prelude.Exec.{Exec, Exn, Result, ok, err, rescue, continue, catch, pure, ◌>>=◌}
use back_end.Shared.Events.{World}

-- Code that leaves the tables as they are, whatever its outcome.
pub record Same {D A : Type 0} (m : Exec (World D) A) : Type 0 where
  pub keeps : (w : World D) → (m w).1.db ≡ w.db

-- Such code, and then other code: what holds of the tables as they were, and of what the other code makes
-- of them.
pub after-Same :
    {D A B : Type 0} (Q : D → Type 0) (m : Exec (World D) A) (k : A → Exec (World D) B)
    (w : World D)
    → Same m
    → Q w.db
    → ((a : A) (w' : World D) → (m w).0 ≡ ok a → w'.db ≡ w.db → Q (k a w').1.db)
    → Q ((m >>= k) w).1.db
after-Same {D} {A} {B} Q m k w same q f = go (m w) (same.keeps w) (λ a w' e. f a w' e)
  where
    go :
        (r : Result A × World D)
        → r.1.db ≡ w.db
        → ((a : A) (w' : World D) → r.0 ≡ ok a → w'.db ≡ w.db → Q (k a w').1.db)
        → Q (continue r k).1.db
    go (ok a, w') e f' = f' a w' refl e
    go (err x, w') e f' = subst Q (sym e) q

pub Same-bind :
    {D A B : Type 0} (m : Exec (World D) A) (k : A → Exec (World D) B)
    → Same m
    → ((a : A) → Same (k a))
    → Same (m >>= k)
Same-bind m k same after = record {
  keeps = λ w. after-Same (λ db. db ≡ w.db) m k w same refl (λ a w' h e. (after a).keeps w' ∙ e);
}

pub Same-lift : {D A : Type 0} (r : Result A) → Same {D = D} (λ w. (r, w))
Same-lift r = record { keeps = λ w. refl }

pub Same-pure : {D A : Type 0} (a : A) → Same (pure {S = World D} a)
Same-pure a = record { keeps = λ w. refl }

pub Same-catch :
    {D A : Type 0} (m : Exec (World D) A) (k : Exn → Exec (World D) A)
    → Same m
    → ((e : Exn) → Same (k e))
    → Same (catch m k)
Same-catch {D} {A} m k same after = record { keeps = λ w. go w (m w) (same.keeps w) }
  where
    go : (w : World D) (r : Result A × World D) → r.1.db ≡ w.db → (rescue r k).1.db ≡ w.db
    go w (ok a, w') e = e
    go w (err x, w') e = (after x).keeps w' ∙ e

pub Same-if :
    {D A : Type 0} (b : Bool) (m m' : Exec (World D) A)
    → Same m
    → Same m'
    → Same (if b then m else m')
Same-if true m m' h h' = h
Same-if false m m' h h' = h'
