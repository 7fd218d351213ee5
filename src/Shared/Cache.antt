-- ===== src/Shared/Cache.antt =====
-- shared/src/shared/cache/decorator.py. The state is what Redis holds, texts by their keys; Redis is
-- assumed to answer. The decorated function is a function of its keyword arguments, which may raise.
pub mod Uncached
mod Tests
use back_end.Prelude.{
  ℕ, String, Bool, true, false, Option, none, some, List, [], ◌∷◌, ◌==◌, string_eq, nat_eq, ltb,
  code, if◌then◌else◌, ◌||◌, ◌&&◌, length, join,
}
use Prim.Native.String
use back_end.Prelude.Dict
use back_end.Prelude.Dict.{Dict}
use back_end.Prelude.Exec.{Exec, Result, ok, err, raised, pure, ◌>>=◌, ◌>>◌}

-- The order of `sorted`, on texts by their characters.
unfoldable pub text_less : String → String → Bool
text_less s (String.[]) = false
text_less (String.[]) (String.◌∷◌ d t) = true
text_less (String.◌∷◌ c s) (String.◌∷◌ d t) =
    let rest = text_less s t in ltb (code c) (code d) || (code c == code d && rest)

module _ {V : Type 0} where
  unfoldable pub insert : String × V → List (String × V) → List (String × V)
  unfolding text_less
  insert x [] = x ∷ []
  insert x (y ∷ ys) = let rest = insert x ys in if text_less y.0 x.0 then y ∷ rest else x ∷ y ∷ ys

  -- `sorted(kwargs.items())`, whose keys are distinct
  unfoldable pub sorted_items : Dict String V → List (String × V)
  unfolding insert
  sorted_items [] = []
  sorted_items (x ∷ xs) = insert x (sorted_items xs)

-- `":".join(parts)`
unfoldable pub join_colons : List String → String
join_colons [] = ""
join_colons (p ∷ []) = p
join_colons (p ∷ q ∷ parts) = join (p ∷ ":" ∷ join_colons (q ∷ parts) ∷ [])

abbrev pub prepend : String → Result (List String) → Result (List String)
prepend part (err e) = err e
prepend part (ok parts) = ok (part ∷ parts)

-- What `cached` is given, and its function: keyword arguments have values in `V`, less the client;
-- `str`, `json.dumps` and `json.loads` are the host's.
pub record Cached (V R : Type 0) : Type 0 where
  pub prefix : String
  pub key_parts : List String
  pub str_of : V → String
  pub dumps : R → String
  pub loads : String → Result R
  pub func : Dict String V → Result R

module _ {V R : Type 0} (c : Cached V R) where
  -- `[str(kwargs[p]) for p in key_parts]`; a missing argument raises `KeyError`.
  unfoldable pub named_parts : List String → Dict String V → Result (List String)
  unfolding Dict.get
  named_parts [] kwargs = ok []
  named_parts (p ∷ ps) kwargs = elim (Dict.get p kwargs) [
    | none ↦ err (raised "KeyError")
    | some v ↦ prepend (c.str_of v) (named_parts ps kwargs)
  ]

  abbrev pub all_parts : List (String × V) → List String
  all_parts [] = []
  all_parts ((k, v) ∷ items) = join (k ∷ "=" ∷ c.str_of v ∷ []) ∷ all_parts items

  abbrev pub key_of : Result (List String) → Result String
  key_of (err e) = err e
  key_of (ok parts) =
      let suffix = join_colons parts in
      if suffix == ""
      then ok (join ("leados:shared:" ∷ c.prefix ∷ []))
      else ok (join ("leados:shared:" ∷ c.prefix ∷ ":" ∷ suffix ∷ []))

  abbrev pub parts_of : List String → Dict String V → Result (List String)
  parts_of [] kwargs = ok (all_parts (sorted_items kwargs))
  parts_of (p ∷ ps) kwargs = named_parts (p ∷ ps) kwargs

  -- `_build_key`
  unfoldable pub build_key : Dict String V → Result String
  unfolding named_parts sorted_items join_colons
  build_key kwargs = key_of (parts_of c.key_parts kwargs)

  abbrev pub lift_result : {A : Type 0} → Result A → Exec (Dict String String) A
  lift_result r redis = (r, redis)

  -- `setex`; the entry expires after the time to live.
  abbrev pub setex : String → String → Exec (Dict String String) Unit
  setex key text redis = (ok tt, Dict.put key text redis)

  abbrev pub or_compute : String → Dict String V → Option String → Exec (Dict String String) R
  or_compute key kwargs (some hit) = lift_result (c.loads hit)
  or_compute key kwargs none = do
    result ← lift_result (c.func kwargs)
    _ ← setex key (c.dumps result)
    pure result

  -- `wrapper`, by whether a client is among the arguments
  unfoldable pub wrapper : Bool → Dict String V → Exec (Dict String String) R
  unfolding build_key Dict.get Dict.put
  wrapper false kwargs = lift_result (c.func kwargs)
  wrapper true kwargs = do
    key ← lift_result (build_key kwargs)
    hit ← λ redis. (ok (Dict.get key redis), redis)
    or_compute key kwargs hit

-- The keys that `scan_iter` finds; what a pattern matches is the server's.
abbrev pub matching : (String → Bool) → Dict String String → List String
matching is_match [] = []
matching is_match ((k, v) ∷ redis) =
    let rest = matching is_match redis in if is_match k then k ∷ rest else rest

unfoldable pub delete_all : List String → Dict String String → Dict String String
unfolding Dict.pop
delete_all [] redis = redis
delete_all (k ∷ ks) redis = delete_all ks (Dict.pop k redis)

-- `invalidate_pattern`
unfoldable pub invalidate_pattern : (String → Bool) → Exec (Dict String String) ℕ
unfolding delete_all
invalidate_pattern is_match redis =
    let keys = matching is_match redis in (ok (length keys), delete_all keys redis)
