-- ===== src/Auth/Tests/Waiter.antt =====
-- The registry of completions, on short histories.
use back_end.Prelude.{arith, nat_eq, ◌≢◌, none, some, [], ◌∷◌, ◌≡◌, refl}
use back_end.Prelude.Dict
use back_end.Auth.Registry.{
  OnboardingCompletion, empty, register, register_known, complete, registers, completes, call, run,
  wait_for,
}
use back_end.Auth.Registry.Waiting.{wait_for_delivers, wait_for_misses_early}

abbrev done : OnboardingCompletion
done = record { user_id = 1; tenant_id = 7 }

abbrev other : OnboardingCompletion
other = record { user_id = 2; tenant_id = 8 }

wait_for_delivers_example :
    (wait_for 1 (registers 2 ∷ completes done ∷ []) [] (run [] empty)).0 ≡ some done
wait_for_delivers_example = wait_for_delivers [] (registers 2 ∷ []) [] [] done (tt, tt) tt tt

other_differs : other.user_id ≢ done.user_id
other_differs e = omega (arith, e)

unknown : Dict.get 1 (run (registers 2 ∷ []) empty).events ≡ none
unfolding Dict.get Dict.put run empty register register_known call
unknown = refl

wait_for_misses_early_example :
    (wait_for 1 (completes other ∷ []) [] (complete done (run (registers 2 ∷ []) empty))).0 ≡ none
wait_for_misses_early_example =
    wait_for_misses_early (registers 2 ∷ []) (completes other ∷ []) [] done unknown
      (other_differs, tt)
