-- ===== src/Gateway/Tests.antt =====
-- A small gateway, and the theorems about services/api-gateway at work on it.
use back_end.Prelude.{
  ℕ, zero, suc, ◌+◌, String, Bool, true, false, Option, none, some, List, [], ◌∷◌, ◌≡◌, refl, inl,
  inr, eq_iff, All, min, arith, ◌==◌, string_eq, nat_eq, join, Char, code, leb, ◌&&◌, if◌then◌else◌,
  length,
}
use back_end.Prelude.Dict
use back_end.Prelude.Dict.{Dict}
use back_end.Prelude.Text.{starts_with, strip, drop, strip_by, drop_while, drop_while_end, is_space}
use back_end.Shared.Json.{Fields, nil, field, str, bool}
use back_end.Shared.Jwt.{Jwt}
use back_end.Gateway.Routes.{Settings}
use back_end.Gateway.Guard.{
  Gateway, Scope, Outcome, passes, answers, fails, authenticate, sanitized, is_public,
  public_path_prefixes,
}
use back_end.Gateway.Guard.Admission.{IsAnonymous, authenticate-IsAnonymous}
use back_end.Gateway.RateLimit.{redis_key}
use back_end.Gateway.RateLimit.Windows.{InWindow, let_through, sent, let_through_lem}
use back_end.Gateway.Proxy.{Answer, responded, not_connected, is_idempotent, forward_with_retry}
use back_end.Gateway.Proxy.Retries.{IsFirstFinal, forward_with_retry-IsFirstFinal}
use back_end.Prelude.Exec.{err, raised}
use back_end.Gateway.Media.{Numerals, bounds_of, range_response}
use back_end.Gateway.Media.Ranges.{IsAnswer, range_response-IsRange}
use back_end.Gateway.Docs.Paths.{IsRouted, documented_path-IsRouted}

abbrev tally : ℕ → String
tally zero = ""
tally (suc n) = join ("i" ∷ tally n ∷ [])

abbrev pub settings : Settings
settings = record {
  service_name = "api-gateway";
  auth_service_url = "http://auth:8001";
  tenant_service_url = "http://tenant:8002";
  files_service_url = "http://files:8004";
  secret_key = "key";
  inter_service_secret = "between";
  rate_limit_per_minute = 2;
}

abbrev pub claims : Fields
claims = field "sub" (str "u7") (field "is_superuser" (bool true) nil)

-- A package that reads the token "t" as the claims above, and no other.
abbrev jwt : Jwt
jwt = record {
  encode = λ payload key algorithm. "minted";
  decode = λ now token key algorithms. if token == "t" then some claims else none;
}

abbrev pub gateway : Gateway
gateway = record { settings = settings; jwt = jwt; str_int = tally; str_dict = λ d. "{}" }

abbrev pub scope : Scope
scope = record {
  type = "http";
  path = "/api/files/users/me/avatar";
  headers = ("authorization", "Bearer t") ∷ ("x-user-id", "another") ∷ [];
  client = some "10.0.0.1";
}

abbrev login_scope : Scope
login_scope = record scope { path = "/api/auth/login" }

abbrev or_same : Scope → Outcome → Scope
or_same before (passes after) = after
or_same before (answers _) = before
or_same before (fails _) = before

abbrev pub passed : Scope
passed = or_same scope (authenticate gateway 40 41 scope)

authenticate-IsAnonymous_example :
    (authenticate gateway 40 41 login_scope ≡ passes (sanitized gateway 40 login_scope))
    × IsAnonymous gateway 40 login_scope (sanitized gateway 40 login_scope)
unfolding is_public public_path_prefixes starts_with
authenticate-IsAnonymous_example = authenticate-IsAnonymous gateway 40 41 login_scope refl refl

-- Two clients in the first minute.
abbrev requests : List (ℕ × String)
requests = (1, "a") ∷ (2, "a") ∷ (2, "b") ∷ (9, "a") ∷ []

abbrev key_of_a : String
key_of_a = redis_key tally "a" 0

abbrev key_of_b : String
key_of_b = redis_key tally "b" 0

requests-InWindow : All (InWindow tally 2 "a" 0) requests
requests-InWindow = (
  record { same_window = refl; apart = inl refl },
  (
    record { same_window = refl; apart = inl refl },
    (
      record { same_window = refl; apart = inr (λ p. cc ((eq_iff key_of_b key_of_a).1 p)) },
      (record { same_window = refl; apart = inl refl }, tt),
    ),
  ),
)

let_through_lem_example : let_through tally 2 "a" requests [] ≡ min 2 (sent tally 2 "a" requests)
unfolding Dict.get
let_through_lem_example = let_through_lem tally 2 "a" 0 requests [] requests-InWindow refl

-- A service that is down for two attempts.
abbrev flaky : ℕ → Answer
flaky i =
    if leb 2 i
    then responded (record { status_code = 200; headers = []; body = "" })
    else not_connected

forward_with_retry-IsFirstFinal_example :
    (i : ℕ) × (answer : Answer) × (forward_with_retry flaky "GET" 3 ≡ some (i, answer))
    × IsFirstFinal flaky (if is_idempotent "GET" then 3 else 1) i answer
forward_with_retry-IsFirstFinal_example = forward_with_retry-IsFirstFinal flaky "GET" 2

-- Numbers in unary digits, of which at most four are read.
abbrev numerals : Numerals
numerals = record {
  is_digit = λ c. code c == 105;
  int_of = λ s. let k = back_end.Prelude.Text.len s in if leb k 4 then some k else none;
  str_int = tally;
}

range_response-IsRange_example :
    IsAnswer numerals (5 ∷ 6 ∷ 7 ∷ []) "i" "" (range_response numerals (5 ∷ 6 ∷ 7 ∷ []) "i" "")
range_response-IsRange_example = range_response-IsRange numerals (5 ∷ 6 ∷ 7 ∷ []) "i" ""

too_many_digits : range_response numerals (5 ∷ 6 ∷ 7 ∷ []) "iiiii" "" ≡ err (raised "ValueError")
unfolding range_response bounds_of back_end.Prelude.Text.len
too_many_digits = refl

documented_path-IsRouted_example : IsRouted settings "users/me/avatar"
documented_path-IsRouted_example = documented_path-IsRouted settings "users/me/avatar"

abbrev own_headers : Dict String String
own_headers = ("x-frame-options", "SAMEORIGIN") ∷ []
