-- ===== src/Auth/Registry.antt =====
-- services/auth-service/app/services/onboarding_completion.py: the registry on which a request
-- thread waits for the consumer thread. Each method runs under the registry's lock, so threads
-- interleave whole methods; a `threading.Event` is a reference to a flag that is only ever set.
pub mod States
pub mod Waiting
use back_end.Prelude.{
  ℕ, suc, Bool, true, false, Option, none, some, List, [], ◌∷◌, if◌then◌else◌, ◌==◌, nat_eq, ◌≡◌,
  refl, arith,
}
use back_end.Prelude.Dict
use back_end.Prelude.Dict.{Dict}

pub record OnboardingCompletion : Type 0 where
  pub user_id : ℕ
  pub tenant_id : ℕ

pub record Registry : Type 0 where
  -- `_events`, by user: the references of the events
  pub events : Dict ℕ ℕ
  pub results : Dict ℕ OnboardingCompletion
  -- the events' flags, and the reference of the next `threading.Event()`
  pub is_set : Dict ℕ Bool
  pub next_event : ℕ

unfoldable pub empty : Registry
empty = record { events = []; results = []; is_set = []; next_event = 0 }

unfoldable pub register_known : ℕ → Option ℕ → Registry → ℕ × Registry
register_known user_id (some event) r = (event, r)
register_known user_id none r = (
  r.next_event,
  record r {
    events = Dict.put user_id r.next_event r.events;
    results = Dict.pop user_id r.results;
    is_set = Dict.put r.next_event false r.is_set;
    next_event = suc r.next_event;
  },
)

unfoldable pub register : ℕ → Registry → ℕ × Registry
unfolding register_known
register user_id r = register_known user_id (Dict.get user_id r.events) r

abbrev pub set_flag : Option ℕ → Dict ℕ Bool → Dict ℕ Bool
set_flag none flags = flags
set_flag (some event) flags = Dict.put event true flags

unfoldable pub complete : OnboardingCompletion → Registry → Registry
complete completion r = record r {
  results = Dict.put completion.user_id completion r.results;
  is_set = set_flag (Dict.get completion.user_id r.events) r.is_set;
}

unfoldable pub clear : ℕ → Registry → Registry
clear user_id r = record r {
  events = Dict.pop user_id r.events;
  results = Dict.pop user_id r.results;
}

-- What another thread may call meanwhile.
pub data Call : Type 0 where
  registers : ℕ → Call
  completes : OnboardingCompletion → Call
  clears : ℕ → Call

unfoldable pub call : Call → Registry → Registry
unfolding register complete clear
call (registers user_id) r = (register user_id r).1
call (completes completion) r = complete completion r
call (clears user_id) r = clear user_id r

unfoldable pub run : List Call → Registry → Registry
unfolding call
run [] r = r
run (c ∷ cs) r = run cs (call c r)

-- Whether the flag of an event is up: what `event.wait` returns once it stops waiting.
unfoldable pub flag : ℕ → Registry → Bool
flag event r = elim (Dict.get event r.is_set) [ none ↦ false | some b ↦ b ]

-- `wait_for`: the other threads' calls while it blocks, up to the timeout or the flag, and those
-- between the wake-up and the reading of the result.
unfoldable pub wait_for :
    ℕ → List Call → List Call → Registry → Option OnboardingCompletion × Registry
unfolding register run flag
wait_for user_id during after r =
    let (event, r₁) = register user_id r in
    let r₂ = run during r₁ in
    if flag event r₂
    then (let r₃ = run after r₂ in (Dict.get user_id r₃.results, r₃))
    else (none, r₂)
