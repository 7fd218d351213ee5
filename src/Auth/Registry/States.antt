-- ===== src/Auth/Registry/States.antt =====
-- The states of a registry between a call of `register` and the reading of its result.
use back_end.Prelude.{
  All, ℕ, ◌<◌, true, false, Option, none, some, List, [], ◌∷◌, ◌++◌, nat_eq, ◌≡◌, ◌≢◌, refl, arith,
  nat_beq_iff,
}
use back_end.Prelude.Dict
use back_end.Prelude.Dict.{dict_laws, get-put, get-pop}
use back_end.Auth.Registry.{
  OnboardingCompletion, Registry, empty, register, register_known, complete, Call, registers,
  completes, clears, call, run, flag, wait_for,
}

-- The call does not clear the user's entry.
abbrev pub Spares : ℕ → Call → Type 0
Spares user_id (registers _) = Unit
Spares user_id (completes _) = Unit
Spares user_id (clears v) = v ≢ user_id

-- Nor does it complete the user's onboarding.
abbrev pub Ignores : ℕ → Call → Type 0
Ignores user_id (registers _) = Unit
Ignores user_id (completes c) = c.user_id ≢ user_id
Ignores user_id (clears v) = v ≢ user_id

-- The event is the user's, and was handed out.
pub record IsWaiting (user_id event : ℕ) (r : Registry) : Type 0 where
  pub known : Dict.get user_id r.events ≡ some event
  pub issued : event < r.next_event

call-IsWaiting :
    {u e : ℕ} {r : Registry} (c : Call) → Spares u c → IsWaiting u e r → IsWaiting u e (call c r)
unfolding call register_known
call-IsWaiting {u} {e} {r} (registers v) s w = grind (arith, dict_laws, nat_beq_iff)
call-IsWaiting {u} {e} {r} (completes c) s w = grind (arith, dict_laws)
call-IsWaiting {u} {e} {r} (clears v) s w = record {
  known = ground (arith, get-pop v u r.events, nat_beq_iff v u, w.known);
  issued = w.issued;
}

pub run-IsWaiting :
    {u e : ℕ} (cs : List Call) {r : Registry}
    → All (Spares u) cs
    → IsWaiting u e r
    → IsWaiting u e (run cs r)
unfolding run
run-IsWaiting [] s w = w
run-IsWaiting (c ∷ cs) s w = run-IsWaiting cs s.1 (call-IsWaiting c s.0 w)

-- The user's onboarding is complete: the event's flag is up, and the result can be read.
pub record IsDone (user_id event : ℕ) (c : OnboardingCompletion) (r : Registry) : Type 0 where
  pub waiting : IsWaiting user_id event r
  pub up : Dict.get event r.is_set ≡ some true
  pub result : Dict.get user_id r.results ≡ some c

pub complete-IsDone :
    {e : ℕ} {r : Registry} (c : OnboardingCompletion)
    → IsWaiting c.user_id e r
    → IsDone c.user_id e c (complete c r)
unfolding complete
complete-IsDone {e} {r} c w = record {
  waiting = record { known = w.known; issued = w.issued };
  up = rw w.known (grind (arith, dict_laws, nat_beq_iff));
  result = grind (arith, dict_laws, nat_beq_iff);
}

call-IsDone :
    {u e : ℕ} {c : OnboardingCompletion} {r : Registry} (k : Call)
    → Ignores u k
    → IsDone u e c r
    → IsDone u e c (call k r)
unfolding call register_known complete
call-IsDone {u} {e} {c} {r} (registers v) s d = record {
  waiting = call-IsWaiting (registers v) tt d.waiting;
  up = grind (arith, dict_laws, nat_beq_iff);
  result = grind (arith, dict_laws, nat_beq_iff);
}
call-IsDone {u} {e} {c} {r} (completes k) s d = record {
  waiting = call-IsWaiting (completes k) tt d.waiting;
  up = grind (arith, dict_laws, nat_beq_iff);
  result = ground (arith, get-put k.user_id u k r.results, nat_beq_iff k.user_id u, d.result);
}
call-IsDone {u} {e} {c} {r} (clears v) s d = record {
  waiting = call-IsWaiting (clears v) s d.waiting;
  up = d.up;
  result = ground (arith, get-pop v u r.results, nat_beq_iff v u, d.result);
}

pub run-IsDone :
    {u e : ℕ} {c : OnboardingCompletion} (cs : List Call) {r : Registry}
    → All (Ignores u) cs
    → IsDone u e c r
    → IsDone u e c (run cs r)
unfolding run
run-IsDone [] s d = d
run-IsDone (k ∷ cs) s d = run-IsDone cs s.1 (call-IsDone k s.0 d)

pub run-append : (cs ds : List Call) (r : Registry) → run (cs ++ ds) r ≡ run ds (run cs r)
unfolding run
run-append [] ds r = refl
run-append (c ∷ cs) ds r = run-append cs ds (call c r)

-- Every event in the registry was handed out.
pub record IsFresh (r : Registry) : Type 0 where
  pub issued : (v e : ℕ) → Dict.get v r.events ≡ some e → e < r.next_event

register_known-IsFresh :
    (u : ℕ) (o : Option ℕ) {r : Registry} → IsFresh r → IsFresh (register_known u o r).1
unfolding register_known
register_known-IsFresh u none {r} f = record {
  issued = λ v e h. grind (arith, dict_laws, nat_beq_iff, f.issued v e);
}
register_known-IsFresh u (some e) f = f

pub call-IsFresh : {r : Registry} (c : Call) → IsFresh r → IsFresh (call c r)
unfolding call
call-IsFresh {r} (registers u) f = register_known-IsFresh u (Dict.get u r.events) f
call-IsFresh {r} (completes c) f = record { issued = f.issued }
call-IsFresh {r} (clears u) f = record {
  issued = λ v e h. ground (arith, get-pop u v r.events, f.issued v e);
}

pub run-IsFresh : (cs : List Call) {r : Registry} → IsFresh r → IsFresh (run cs r)
unfolding run
run-IsFresh [] f = f
run-IsFresh (c ∷ cs) f = run-IsFresh cs (call-IsFresh c f)

register_known-IsWaiting :
    (u : ℕ) (o : Option ℕ) (r : Registry)
    → IsFresh r
    → Dict.get u r.events ≡ o
    → let (e, r') = register_known u o r in IsWaiting u e r'
unfolding register_known
register_known-IsWaiting u none r f h = record {
  known = grind (arith, dict_laws, nat_beq_iff);
  issued = omega arith;
}
register_known-IsWaiting u (some e) r f h = record { known = h; issued = f.issued u e h }

pub register-IsWaiting :
    (u : ℕ) (r : Registry) → IsFresh r → let (e, r') = register u r in IsWaiting u e r'
unfolding register
register-IsWaiting u r f = register_known-IsWaiting u (Dict.get u r.events) r f refl

pub empty-IsFresh : IsFresh empty
unfolding empty Dict.get
empty-IsFresh = record { issued = λ v e h. cc }

pub wait_for_up :
    (u : ℕ) (during after : List Call) (r : Registry)
    → let (e, r') = register u r in
      Dict.get e (run during r').is_set ≡ some true
      → (wait_for u during after r).0 ≡ Dict.get u (run after (run during (register u r).1)).results
unfolding wait_for flag
wait_for_up u during after r up = ground arith

pub wait_for_down :
    (u : ℕ) (during after : List Call) (r : Registry)
    → let (e, r') = register u r in
      Dict.get e (run during r').is_set ≡ some false → (wait_for u during after r).0 ≡ none
unfolding wait_for flag
wait_for_down u during after r down = ground arith
