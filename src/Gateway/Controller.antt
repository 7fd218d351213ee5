-- ===== src/Gateway/Controller.antt =====
-- services/api-gateway/app/controller.py, the health routes, and `SecurityHeadersMiddleware` of
-- utils/middleware.py.
use back_end.Prelude.{
  ℕ, String, Bool, true, false, Option, none, some, List, [], ◌∷◌, ◌==◌, string_eq, nat_eq,
  if◌then◌else◌, join, ◌≡◌, refl, ◌∙◌, Option-cases, Bool-cases, eq_iff, ap, inl, inr, sym,
}
use back_end.Prelude.Dict
use back_end.Prelude.Dict.{Dict, get-put, get-put_other}
use back_end.Gateway.Routes.{Settings, upstreams}

pub record HealthResponse : Type 0 where
  pub status : String
  pub service : String

pub record ServiceHealth : Type 0 where
  pub name : String
  pub url : String
  pub healthy : Bool
  pub detail : Option String

abbrev pub health : Settings → HealthResponse
health settings = record { status = "ok"; service = settings.service_name }

-- What a GET of a service's `/health` gives: a status, or the text of an `httpx.HTTPError`.
pub data Probe : Type 0 where
  answered : ℕ → Probe
  unreachable : String → Probe

abbrev pub service_health : (ℕ → String) → String → String → Probe → ServiceHealth
service_health str_int name url (answered status) = record {
  name = name;
  url = url;
  healthy = status == 200;
  detail = if status == 200 then none else some (join ("status " ∷ str_int status ∷ []));
}
service_health str_int name url (unreachable text) = record {
  name = name;
  url = url;
  healthy = false;
  detail = some text;
}

unfoldable pub check_services :
    (ℕ → String) → (String → Probe) → Dict String String → List ServiceHealth
check_services str_int client [] = []
check_services str_int client ((name, url) ∷ urls) =
    service_health str_int name url (client (join (url ∷ "/health" ∷ [])))
    ∷ check_services str_int client urls

-- `services_health`
unfoldable pub services_health : (ℕ → String) → (String → Probe) → Settings → List ServiceHealth
unfolding check_services upstreams
services_health str_int client settings = check_services str_int client (upstreams settings)

unfoldable pub security_headers : Dict String String
security_headers =
    ("strict-transport-security", "max-age=63072000; includeSubDomains")
    ∷ ("x-content-type-options", "nosniff")
    ∷ ("x-frame-options", "DENY")
    ∷ ("referrer-policy", "strict-origin-when-cross-origin")
    ∷ []

abbrev pub default_to : Option String → String → String → Dict String String → Dict String String
default_to none key value headers = Dict.put key value headers
default_to (some old) key value headers = headers

-- `headers.setdefault(key, value)` for each of the defaults
unfoldable pub set_defaults : Dict String String → Dict String String → Dict String String
unfolding Dict.get
set_defaults [] headers = headers
set_defaults ((key, value) ∷ defaults) headers =
    set_defaults defaults (default_to (Dict.get key headers) key value headers)

-- The headers of the start message that `send_with_headers` sends on.
unfoldable pub send_with_headers : Dict String String → Dict String String
unfolding set_defaults security_headers
send_with_headers headers = set_defaults security_headers headers

abbrev pub or_else : Option String → Option String → Option String
or_else none o = o
or_else (some v) o = some v

or_else-none : (o : Option String) → or_else o none ≡ o
or_else-none none = refl
or_else-none (some v) = refl

get_same :
    (key name : String) (headers : Dict String String)
    → (key == name) ≡ true
    → Dict.get name headers ≡ Dict.get key headers
get_same key name headers e = let same = (eq_iff key name).0 e in cc

get-default_to :
    (key name value : String) (headers : Dict String String)
    → Dict.get name (default_to (Dict.get key headers) key value headers)
      ≡ or_else (Dict.get name headers) (if key == name then some value else none)
get-default_to key name value headers = elim (Bool-cases (key == name)) [
  | inl e ↦
      let same = get_same key name headers e in
      elim (Option-cases (Dict.get key headers)) [
        | inl n ↦ rw (e, n) (rw (same ∙ n) (get-put key name value headers ∙ rw e refl))
        | inr (old, o) ↦ rw (e, o) (rw (same ∙ o) refl)
      ]
  | inr e ↦
      rw (e, or_else-none (Dict.get name headers))
        (elim (Option-cases (Dict.get key headers)) [
          | inl n ↦ rw n (get-put key name value headers ∙ rw e refl)
          | inr (old, o) ↦ rw o refl
        ])
]

or_else_assoc : (a b c : Option String) → or_else (or_else a b) c ≡ or_else a (or_else b c)
or_else_assoc none b c = refl
or_else_assoc (some v) b c = refl

get_first :
    (name key value : String) (defaults : Dict String String)
    → or_else (if key == name then some value else none) (Dict.get name defaults)
      ≡ Dict.get name ((key, value) ∷ defaults)
unfolding Dict.get
get_first name key value defaults = elim (Bool-cases (key == name)) [
  | inl e ↦ rw e refl
  | inr e ↦ rw e refl
]

-- Every header of a response, in terms of the ones that the application set: its own value if it has
-- one, and else the default.
get-set_defaults :
    (name : String) (defaults headers : Dict String String)
    → Dict.get name (set_defaults defaults headers)
      ≡ or_else (Dict.get name headers) (Dict.get name defaults)
unfolding set_defaults Dict.get
get-set_defaults name [] headers = sym (or_else-none (Dict.get name headers))
get-set_defaults name ((key, value) ∷ defaults) headers =
    get-set_defaults name defaults (default_to (Dict.get key headers) key value headers)
    ∙ ap (λ o. or_else o (Dict.get name defaults)) (get-default_to key name value headers)
    ∙ or_else_assoc (Dict.get name headers) _ (Dict.get name defaults)
    ∙ ap (or_else (Dict.get name headers)) (get_first name key value defaults)

-- Every response that leaves the gateway has the four security headers: the value that the application
-- gave, if it gave one, and else the gateway's; and its other headers are the application's.
pub get-send_with_headers :
    (name : String) (headers : Dict String String)
    → Dict.get name (send_with_headers headers)
      ≡ or_else (Dict.get name headers) (Dict.get name security_headers)
unfolding send_with_headers
get-send_with_headers name headers = get-set_defaults name security_headers headers
