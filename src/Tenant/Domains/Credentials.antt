-- ===== src/Tenant/Domains/Credentials.antt =====
-- `get_tenant_db_credentials` of services/tenant-service/app/_archived/cloudflare_domains/tenants.py, over the parts that
-- `urlparse` makes of the database's URL.
use Prim.Native.String.{[], ◌∷◌, ◌++◌}
use back_end.Prelude.{
  ℕ, String, Bool, true, false, Option, none, some, Char, code, ◌==◌, nat_eq, string_eq,
  if◌then◌else◌, ◌||◌, ◌≡◌, refl, Bool-cases, inl, inr, beq_refl,
}
use text.Mathlib.TextLemmas.{nil-append, cons-append}
use back_end.Prelude.Text.{is_empty}
use back_end.Prelude.Exec.{Result, ok, err, raised}

-- What `urlparse` gives, and the first value of `sslmode` that `parse_qs` finds in the query.
pub record ParsedUrl : Type 0 where
  pub scheme : String
  pub netloc : String
  pub path : String
  pub sslmode : Option String

pub record Credentials : Type 0 where
  pub db_host : String
  pub db_port : ℕ
  pub db_name : String
  pub db_user : String
  pub db_password : String
  pub db_sslmode : String

abbrev pub cons_first : Char → Option (String × String) → Option (String × String)
cons_first c none = none
cons_first c (some (a, b)) = some (c ∷ a, b)

-- The text before and after the first character with the code
unfoldable pub split_first : ℕ → String → Option (String × String)
split_first k [] = none
split_first k (c ∷ s) =
    let rest = cons_first c (split_first k s) in if code c == k then some ([], s) else rest

abbrev pub or_here : Char → String → Bool → Option (String × String) → Option (String × String)
or_here c s true none = some ([], s)
or_here c s false none = none
or_here c s _ (some (a, b)) = some (c ∷ a, b)

-- The text before and after the last character with the code
unfoldable pub split_last : ℕ → String → Option (String × String)
split_last k [] = none
split_last k (c ∷ s) = or_here c s (code c == k) (split_last k s)

-- `userinfo[:colon], userinfo[colon + 1:]`, if there is a colon
abbrev pub user_of : String → Option (String × String) → String × String
user_of userinfo none = (userinfo, "")
user_of userinfo (some parts) = parts

-- `path.lstrip("/")` and what is before a question mark
unfoldable pub strip_slashes : String → String
strip_slashes [] = []
strip_slashes (c ∷ s) = let rest = strip_slashes s in if code c == 47 then rest else c ∷ s

abbrev pub before_question : String → Option (String × String) → String
before_question path none = path
before_question path (some (a, b)) = a

abbrev pub or_default : String → String → String
or_default default s = if is_empty s then default else s

abbrev pub ssl_or : Option String → String
ssl_or none = "require"
ssl_or (some s) = s

-- `int(text)`; `none` is `ValueError`
module _ (parse_int : String → Option ℕ) where
  abbrev pub port_of : String → Option ℕ → Result (String × ℕ)
  port_of host none = err (raised "ValueError")
  port_of host (some port) = ok (host, port)

  abbrev pub host_of : String → Option (String × String) → Result (String × ℕ)
  host_of hostport none = ok (hostport, 5432)
  host_of hostport (some (host, port)) = port_of host (parse_int port)

  abbrev pub with_host : ParsedUrl → String × String → Result (String × ℕ) → Result Credentials
  with_host u user (err e) = err e
  with_host u user (ok (host, port)) =
      let path = strip_slashes u.path in
      ok (record {
        db_host = host;
        db_port = port;
        db_name = or_default "postgres" (before_question path (split_first 63 path));
        db_user = user.0;
        db_password = user.1;
        db_sslmode = ssl_or u.sslmode;
      })

  abbrev pub with_parts : ParsedUrl → Option (String × String) → Result Credentials
  with_parts u none = err (raised "ValueError")
  with_parts u (some (userinfo, hostport)) =
      with_host u (user_of userinfo (split_first 58 userinfo))
        (host_of hostport (split_last 58 hostport))

  unfoldable pub get_tenant_db_credentials : ParsedUrl → Result Credentials
  unfolding split_first split_last strip_slashes
  get_tenant_db_credentials u =
      let credentials = with_parts u (split_last 64 u.netloc) in
      if u.scheme == "postgresql" || u.scheme == "postgres"
      then credentials
      else err (raised "ValueError")

-- The text has no character with the code.
unfoldable pub lacks : ℕ → String → Bool
lacks k [] = true
lacks k (c ∷ s) = let rest = lacks k s in if code c == k then false else rest

split_last-lacks : (k : ℕ) (s : String) → lacks k s ≡ true → split_last k s ≡ none
unfolding split_last lacks
split_last-lacks k [] h = refl
split_last-lacks k (c ∷ s) h = elim (Bool-cases (code c == k)) [
  | inl e ↦ cc (rw e at h)
  | inr e ↦ rw (e, split_last-lacks k s (rw e at h)) refl
]

split_last-append :
    (a b : String) (c : Char)
    → lacks (code c) b ≡ true
    → split_last (code c) (a ++ (c ∷ b)) ≡ some (a, b)
unfolding split_last
split_last-append [] b c h =
    rw nil-append (rw (split_last-lacks (code c) b h, beq_refl (code c)) refl)
split_last-append (d ∷ a) b c h = rw (cons-append d a (c ∷ b), split_last-append a b c h) refl

split_first-append :
    (a b : String) (c : Char)
    → lacks (code c) a ≡ true
    → split_first (code c) (a ++ (c ∷ b)) ≡ some (a, b)
unfolding split_first lacks
split_first-append [] b c h = rw nil-append (rw (beq_refl (code c)) refl)
split_first-append (d ∷ a) b c h = elim (Bool-cases (code d == code c)) [
  | inl e ↦ cc (rw e at h)
  | inr e ↦ rw (cons-append d a (c ∷ b), e, split_first-append a b c (rw e at h)) refl
]

-- The user, the password, the host and the port of a URL are read back from it, whatever the password has in
-- it, if the user and the port have no colon, and what follows the password no at sign.
get_tenant_db_credentials-netloc :
    (parse_int : String → Option ℕ) (u : ParsedUrl) (user password host port : String) (n : ℕ)
    → u.scheme ≡ "postgresql"
    → u.netloc ≡ (user ++ (":" ∷ password)) ++ ("@" ∷ (host ++ (":" ∷ port)))
    → lacks 58 user ≡ true
    → lacks 64 (host ++ (":" ∷ port)) ≡ true
    → lacks 58 port ≡ true
    → parse_int port ≡ some n
    → get_tenant_db_credentials parse_int u ≡ with_host parse_int u (user, password) (ok (host, n))
unfolding get_tenant_db_credentials
get_tenant_db_credentials-netloc parse_int u user password host port n scheme netloc no_colon no_at
      plain is_int =
    rw
      (
        scheme,
        netloc,
        split_last-append (user ++ (":" ∷ password)) (host ++ (":" ∷ port)) "@" no_at,
        split_first-append user password ":" no_colon,
        split_last-append host port ":" plain,
        is_int,
      )
      refl
