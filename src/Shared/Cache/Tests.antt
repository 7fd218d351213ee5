-- ===== src/Shared/Cache/Tests.antt =====
-- A cached function of one flag, and the theorem about shared/src/shared/cache/decorator.py at work on it.
use back_end.Prelude.{
  String, Bool, true, false, Option, none, some, List, [], ◌∷◌, ◌≡◌, refl, sym, ap, ◌∙◌, ◌==◌,
  string_eq, if◌then◌else◌, Option-cases, inl, inr,
}
use back_end.Prelude.Dict
use back_end.Prelude.Dict.{Dict}
use back_end.Prelude.Exec.{Result, ok, err, raised}
use back_end.Shared.Cache.{Cached, build_key, named_parts, join_colons}
use back_end.Shared.Cache.Uncached.{
  Event, calls, expires, invalidates, run, run_uncached, IsKeyed, keyed, expiring, invalidating,
  KeyLaws, run-run_uncached,
}

abbrev text_of : Bool → String
text_of true = "True"
text_of false = "False"

abbrev negated : Option Bool → Result Bool
negated none = err (raised "KeyError")
negated (some true) = ok false
negated (some false) = ok true

abbrev flags : Cached Bool Bool
flags = record {
  prefix = "flags";
  key_parts = "on" ∷ [];
  str_of = text_of;
  dumps = text_of;
  loads = λ s. ok (s == "True");
  func = λ kwargs. negated (Dict.get "on" kwargs);
}

-- What the function gives, read off the key.
abbrev by_key : String → Result Bool
by_key key = if key == "leados:shared:flags:True" then ok false else ok true

func-build_key :
    (kwargs : Dict String Bool) (key : String)
    → build_key flags kwargs ≡ ok key
    → negated (Dict.get "on" kwargs) ≡ by_key key
unfolding build_key named_parts join_colons
func-build_key kwargs key b = elim (Option-cases (Dict.get "on" kwargs)) [
  | inl e ↦ cc (rw (build_key, named_parts, e) at b)
  | inr (true, e) ↦
      let k : ok "leados:shared:flags:True" ≡ ok key = rw (build_key, named_parts, e) at b in
      let same : "leados:shared:flags:True" ≡ key = cc in rw e (ap by_key same)
  | inr (false, e) ↦
      let k : ok "leados:shared:flags:False" ≡ ok key = rw (build_key, named_parts, e) at b in
      let same : "leados:shared:flags:False" ≡ key = cc in rw e (ap by_key same)
]

loads-text_of : (b : Bool) → flags.loads (text_of b) ≡ ok b
loads-text_of true = refl
loads-text_of false = refl

flags-KeyLaws : KeyLaws flags
flags-KeyLaws = record {
  separates =
      λ kwargs kwargs' key b b'. func-build_key kwargs key b ∙ sym (func-build_key kwargs' key b');
  loads-dumps = loads-text_of;
}

abbrev on : Dict String Bool
on = ("on", true) ∷ []

abbrev events : List (Event Bool)
events =
    calls true on
    ∷ calls true on
    ∷ expires "leados:shared:flags:True"
    ∷ calls true on
    ∷ invalidates (λ key. true)
    ∷ calls false on
    ∷ []

on-IsKeyed : (client : Bool) → IsKeyed flags (calls client on)
unfolding build_key named_parts join_colons Dict.get
on-IsKeyed client = keyed client on "leados:shared:flags:True" refl

run-run_uncached_example : run flags events [] ≡ run_uncached flags events
run-run_uncached_example = run-run_uncached flags flags-KeyLaws events (
  on-IsKeyed true,
  (
    on-IsKeyed true,
    (
      expiring "leados:shared:flags:True",
      (on-IsKeyed true, (invalidating (λ key. true), (on-IsKeyed false, tt))),
    ),
  ),
)
