-- ===== src/Auth/Registry/Waiting.antt =====
-- What a waiter of the registry gets, by when the consumer's `complete` comes.
use back_end.Prelude.{
  All, ℕ, ◌<◌, true, false, Option, none, some, List, [], ◌∷◌, ◌++◌, nat_eq, ◌≡◌, ◌≢◌, ◌∙◌, refl,
  arith, nat_beq_iff,
}
use back_end.Prelude.Dict
use back_end.Prelude.Dict.{dict_laws, get-put, get-pop}
use back_end.Auth.Registry.{
  OnboardingCompletion, Registry, empty, register, register_known, complete, clear, Call, registers,
  completes, clears, call, set_flag, run, wait_for,
}
use back_end.Auth.Registry.States.{
  Spares, Ignores, IsWaiting, run-IsWaiting, IsDone, complete-IsDone, run-IsDone, run-append,
  IsFresh, call-IsFresh, run-IsFresh, register-IsWaiting, empty-IsFresh, wait_for_up, wait_for_down,
}

-- However the registry was used before, a waiter gets the completion `c` of its user, if `c` comes
-- while it waits, nobody clears the user's entry, and no other completion of the user follows.
pub wait_for_delivers :
    (history cs ds after : List Call) (c : OnboardingCompletion)
    → All (Spares c.user_id) cs
    → All (Ignores c.user_id) ds
    → All (Ignores c.user_id) after
    → (wait_for c.user_id (cs ++ completes c ∷ ds) after (run history empty)).0 ≡ some c
unfolding run complete
wait_for_delivers history cs ds after c spares quiet still =
    wait_for_up c.user_id (cs ++ completes c ∷ ds) after r (rw run-append done.up)
    ∙ rw run-append (run-IsDone after still done).result
  where
    r : Registry
    r = run history empty

    waiting : IsWaiting c.user_id (register c.user_id r).0 (run cs (register c.user_id r).1)
    waiting =
        run-IsWaiting cs spares (register-IsWaiting c.user_id r (run-IsFresh history empty-IsFresh))

    done :
        IsDone c.user_id
          (register c.user_id r).0
          c
          (run (completes c ∷ ds) (run cs (register c.user_id r).1))
    done = run-IsDone ds quiet (complete-IsDone c waiting)

-- The call is no completion of the user's onboarding.
abbrev pub IsNoCompletion : ℕ → Call → Type 0
IsNoCompletion user_id (registers _) = Unit
IsNoCompletion user_id (completes c) = c.user_id ≢ user_id
IsNoCompletion user_id (clears _) = Unit

-- The event's flag is down, and only the user's completion can raise it.
record IsDown (user_id event : ℕ) (r : Registry) : Type 0 where
  down : Dict.get event r.is_set ≡ some false
  issued : event < r.next_event
  owner : (v : ℕ) → Dict.get v r.events ≡ some event → v ≡ user_id

register_known-IsDown :
    (u e v : ℕ) (o : Option ℕ) {r : Registry} → IsDown u e r → IsDown u e (register_known v o r).1
unfolding register_known
register_known-IsDown u e v none {r} d = record {
  down = grind (arith, dict_laws, nat_beq_iff);
  issued = omega (arith, d.issued);
  owner = λ w h. grind (arith, dict_laws, nat_beq_iff, d.owner w, d.issued);
}
register_known-IsDown u e v (some _) d = d

set_flag-IsDown :
    (u e v : ℕ) (o : Option ℕ) (r : Registry)
    → Dict.get v r.events ≡ o
    → v ≢ u
    → IsDown u e r
    → Dict.get e (set_flag o r.is_set) ≡ some false
set_flag-IsDown u e v none r h ne d = d.down
set_flag-IsDown u e v (some x) r h ne d =
    ground (arith, get-put x e true r.is_set, nat_beq_iff x e, d.owner v, d.down, h, ne)

call-IsDown :
    {u e : ℕ} {r : Registry} (c : Call) → IsNoCompletion u c → IsDown u e r → IsDown u e (call c r)
unfolding call complete clear register
call-IsDown {u} {e} {r} (registers v) s d = register_known-IsDown u e v (Dict.get v r.events) d
call-IsDown {u} {e} {r} (completes c) s d = record {
  down = set_flag-IsDown u e c.user_id (Dict.get c.user_id r.events) r refl s d;
  issued = d.issued;
  owner = d.owner;
}
call-IsDown {u} {e} {r} (clears v) s d = record {
  down = d.down;
  issued = d.issued;
  owner = λ w h. ground (arith, get-pop v w r.events, d.owner w);
}

run-IsDown :
    {u e : ℕ} (cs : List Call) {r : Registry}
    → All (IsNoCompletion u) cs
    → IsDown u e r
    → IsDown u e (run cs r)
unfolding run
run-IsDown [] s d = d
run-IsDown (c ∷ cs) s d = run-IsDown cs s.1 (call-IsDown c s.0 d)

register_known-new :
    (u : ℕ) (o : Option ℕ) (r : Registry)
    → IsFresh r
    → Dict.get u r.events ≡ o
    → o ≡ none
    → let (e, r') = register_known u o r in IsDown u e r'
unfolding register_known
register_known-new u (some _) r f h unknown = cc
register_known-new u none r f h unknown = record {
  down = grind (arith, dict_laws, nat_beq_iff);
  issued = omega arith;
  owner = λ v p. grind (arith, dict_laws, nat_beq_iff, f.issued v r.next_event);
}

-- A completion that comes before its user waits is lost: the registration drops it, and the waiter
-- times out unless another completion of the user comes while it waits.
pub wait_for_misses_early :
    (history during after : List Call) (c : OnboardingCompletion)
    → Dict.get c.user_id (run history empty).events ≡ none
    → All (IsNoCompletion c.user_id) during
    → (wait_for c.user_id during after (complete c (run history empty))).0 ≡ none
wait_for_misses_early history during after c unknown quiet =
    wait_for_down c.user_id during after r (run-IsDown during quiet new).down
  where
    r : Registry
    r = complete c (run history empty)

    unknown' : Dict.get c.user_id r.events ≡ none
    unknown' = unfold complete in unknown

    new : let (e, r') = register c.user_id r in IsDown c.user_id e r'
    new =
        unfold register in
        register_known-new c.user_id (Dict.get c.user_id r.events) r
          (unfold call in call-IsFresh (completes c) (run-IsFresh history empty-IsFresh)) refl
          unknown'
