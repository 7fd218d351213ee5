-- ===== src/Shared/Cache/Uncached.antt =====
-- A function behind shared/src/shared/cache/decorator.py gives what it gives without.
use back_end.Prelude.{
  String, Bool, true, false, Option, none, some, List, [], ◌∷◌, ◌≡◌, refl, sym, ◌∙◌, ◌==◌,
  string_eq, Bool-cases, inl, inr, eq_iff, All,
}
use back_end.Prelude.Dict
use back_end.Prelude.Dict.{Dict, get-put, get-pop}
use back_end.Prelude.Exec.{Result, ok, err, pure, continue, ◌>>=◌}
use back_end.Shared.Cache.{
  Cached, build_key, wrapper, or_compute, setex, delete_all, matching, invalidate_pattern,
}

-- What happens to the cache: a call with a client or without, an entry that expires, an invalidation.
pub data Event (V : Type 0) : Type 0 where
  calls : Bool → Dict String V → Event V
  expires : String → Event V
  invalidates : (String → Bool) → Event V

module _ {V R : Type 0} (c : Cached V R) where
  -- The results of the calls, over what Redis holds.
  unfoldable pub run : List (Event V) → Dict String String → List (Result R)
  run [] redis = []
  run (calls client kwargs ∷ events) redis =
      let (result, redis') = wrapper c client kwargs redis in result ∷ run events redis'
  run (expires key ∷ events) redis = run events (Dict.pop key redis)
  run (invalidates is_match ∷ events) redis = run events (invalidate_pattern is_match redis).1

  -- The results of the function itself.
  unfoldable pub run_uncached : List (Event V) → List (Result R)
  run_uncached [] = []
  run_uncached (calls client kwargs ∷ events) = c.func kwargs ∷ run_uncached events
  run_uncached (expires key ∷ events) = run_uncached events
  run_uncached (invalidates is_match ∷ events) = run_uncached events

  -- A call has the arguments that its key is made of.
  pub data IsKeyed : Event V → Type 0 where
    keyed :
        (client : Bool) (kwargs : Dict String V) (key : String)
        → build_key c kwargs ≡ ok key
        → IsKeyed (calls client kwargs)
    expiring : (key : String) → IsKeyed (expires key)
    invalidating : (is_match : String → Bool) → IsKeyed (invalidates is_match)

  -- The key tells apart the calls whose results differ, and a result reads back as itself.
  pub record KeyLaws : Type 0 where
    pub separates :
        (kwargs kwargs' : Dict String V) (key : String)
        → build_key c kwargs ≡ ok key
        → build_key c kwargs' ≡ ok key
        → c.func kwargs ≡ c.func kwargs'
    pub loads-dumps : (r : R) → c.loads (c.dumps r) ≡ ok r

  -- Every entry reads as the result of the calls with its key.
  abbrev Sound : Dict String String → Type 0
  Sound redis =
      (key text : String) (kwargs : Dict String V)
      → Dict.get key redis ≡ some text
      → build_key c kwargs ≡ ok key
      → c.loads text ≡ c.func kwargs

  Sound-pop : (k : String) (redis : Dict String String) → Sound redis → Sound (Dict.pop k redis)
  Sound-pop k redis sound key text kwargs h b = elim (Bool-cases (k == key)) [
    | inl e ↦
        let gone : Dict.get key (Dict.pop k redis) ≡ none = get-pop k key redis ∙ rw e refl in cc
    | inr e ↦
        let same : Dict.get key (Dict.pop k redis) ≡ Dict.get key redis =
          get-pop k key redis ∙ rw e refl in
        sound key text kwargs (sym same ∙ h) b
  ]

  Sound-nil : Sound []
  unfolding Dict.get
  Sound-nil key text kwargs h b = cc

  Sound-delete_all :
      (ks : List String) (redis : Dict String String) → Sound redis → Sound (delete_all ks redis)
  unfolding delete_all
  Sound-delete_all [] redis sound = sound
  Sound-delete_all (k ∷ ks) redis sound =
      Sound-delete_all ks (Dict.pop k redis) (Sound-pop k redis sound)

  Sound-put :
      (laws : KeyLaws) (k : String) (kwargs : Dict String V) (r : R) (redis : Dict String String)
      → build_key c kwargs ≡ ok k
      → c.func kwargs ≡ ok r
      → Sound redis
      → Sound (Dict.put k (c.dumps r) redis)
  Sound-put laws k kwargs r redis b f sound key text kwargs' h b' = elim (Bool-cases (k == key)) [
    | inl e ↦
        let same = (eq_iff k key).0 e in
        let stored : Dict.get key (Dict.put k (c.dumps r) redis) ≡ some (c.dumps r) =
          get-put k key (c.dumps r) redis ∙ rw e refl in
        let b'' : build_key c kwargs' ≡ ok k = cc in
        let agree = laws.separates kwargs kwargs' k b b'' in let back = laws.loads-dumps r in cc
    | inr e ↦
        let same : Dict.get key (Dict.put k (c.dumps r) redis) ≡ Dict.get key redis =
          get-put k key (c.dumps r) redis ∙ rw e refl in
        sound key text kwargs' (sym same ∙ h) b'
  ]

  abbrev Agrees : Dict String V → Result R × Dict String String → Type 0
  Agrees kwargs r = (r.0 ≡ c.func kwargs) × Sound r.1

  or_compute-Agrees :
      (laws : KeyLaws) (kwargs : Dict String V) (key : String) (redis : Dict String String)
      (hit : Option String)
      → build_key c kwargs ≡ ok key
      → Sound redis
      → Dict.get key redis ≡ hit
      → Agrees kwargs (or_compute c key kwargs hit redis)
  or_compute-Agrees laws kwargs key redis (some text) b sound h = (sound key text kwargs h b, sound)
  or_compute-Agrees laws kwargs key redis none b sound h = computed (c.func kwargs) refl
    where
      computed :
          (r : Result R)
          → c.func kwargs ≡ r
          → Agrees kwargs
              (continue (r, redis) (λ result. setex c key (c.dumps result) >>= λ _. pure result))
      computed (ok r) f = (sym f, Sound-put laws key kwargs r redis b f sound)
      computed (err e) f = (sym f, sound)

  wrapper-Agrees :
      (laws : KeyLaws) (client : Bool) (kwargs : Dict String V) (key : String)
      (redis : Dict String String)
      → build_key c kwargs ≡ ok key
      → Sound redis
      → Agrees kwargs (wrapper c client kwargs redis)
  unfolding wrapper
  wrapper-Agrees laws false kwargs key redis b sound = (refl, sound)
  wrapper-Agrees laws true kwargs key redis b sound =
      rw b (or_compute-Agrees laws kwargs key redis (Dict.get key redis) b sound refl)

  run_from :
      (laws : KeyLaws) (events : List (Event V)) (redis : Dict String String)
      → All IsKeyed events
      → Sound redis
      → run events redis ≡ run_uncached events
  unfolding run run_uncached invalidate_pattern
  run_from laws [] redis k sound = refl
  run_from laws (calls client kwargs ∷ events) redis (keyed _ _ key b, k) sound =
      let (same, sound') = wrapper-Agrees laws client kwargs key redis b sound in
      rw (same, run_from laws events (wrapper c client kwargs redis).1 k sound') refl
  run_from laws (expires key ∷ events) redis (_, k) sound =
      run_from laws events (Dict.pop key redis) k (Sound-pop key redis sound)
  run_from laws (invalidates is_match ∷ events) redis (_, k) sound =
      run_from laws events _ k (Sound-delete_all (matching is_match redis) redis sound)

  -- From an empty cache on, calls through `cached` give what the function itself gives, whatever entries
  -- expire or are invalidated between them and whether or not a call has a client, provided the key tells
  -- apart the calls whose results differ, and JSON reads a result back as itself.
  pub run-run_uncached :
      (laws : KeyLaws) (events : List (Event V))
      → All IsKeyed events
      → run events [] ≡ run_uncached events
  run-run_uncached laws events k = run_from laws events [] k Sound-nil
