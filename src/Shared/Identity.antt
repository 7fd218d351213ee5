-- ===== src/Shared/Identity.antt =====
-- shared/src/shared/auth/dependencies.py: the caller's identity, as the gateway's headers state it.
use back_end.Prelude.{
  ℕ, String, Bool, false, Option, none, some, ◌==◌, string_eq, nat_eq, if◌then◌else◌, ◌&&◌, not,
}
use back_end.Prelude.Dict
use back_end.Prelude.Dict.{Dict}
use back_end.Prelude.Exec.{Result, ok, err, app_error}
use back_end.Shared.Exceptions.{forbidden_error}

-- Python's whole numbers
pub data ℤ : Type 0 where
  pos : ℕ → ℤ
  -- `negsuc n` is the number below 0 by `n + 1`
  negsuc : ℕ → ℤ

abbrev pub is_one : ℤ → Bool
is_one (pos n) = n == 1
is_one (negsuc _) = false

-- `int | str`
pub data IntOrStr : Type 0 where
  int : ℤ → IntOrStr
  str : String → IntOrStr

pub record Identity : Type 0 where
  pub user_id : IntOrStr
  pub tenant_id : IntOrStr
  pub role_id : Option ℤ
  pub is_superuser : Bool

-- `int(text)`, which raises `ValueError` (`none`), and `str.lower`
module _ (parse_int : String → Option ℤ) (lower : String → String) where
  abbrev pub as_int_or_str : String → IntOrStr
  as_int_or_str value = elim (parse_int value) [ none ↦ str value | some n ↦ int n ]

  abbrev malformed : {A : Type 0} → Result A
  malformed = err (app_error 401 "missing or malformed identity headers")

  -- `int(role_id_raw) if role_id_raw else None`; the inner `none` is `None`.
  abbrev pub role_of : Option String → Option (Option ℤ)
  role_of none = some none
  role_of (some raw) =
      if raw == "" then some none else elim (parse_int raw) [ none ↦ none | some n ↦ some (some n) ]

  abbrev superuser : Option String → Bool
  superuser none = false
  superuser (some raw) = lower raw == "true"

  abbrev pub identity_of :
      Option String → Option String → Option (Option ℤ) → Bool → Result Identity
  identity_of (some user) (some tenant) (some role_id) is_superuser = ok (record {
    user_id = as_int_or_str user;
    tenant_id = as_int_or_str tenant;
    role_id = role_id;
    is_superuser = is_superuser;
  })
  identity_of _ _ _ _ = malformed

  -- `get_current_identity`, on headers whose names are in lower case
  unfoldable pub get_current_identity : Dict String String → Result Identity
  get_current_identity headers =
      identity_of (Dict.get "x-user-id" headers) (Dict.get "x-tenant-id" headers)
        (role_of (Dict.get "x-role-id" headers)) (superuser (Dict.get "x-is-superuser" headers))

-- `require_admin`
unfoldable pub require_admin : Identity → Result Identity
require_admin identity =
    if not identity.is_superuser && not (elim identity.role_id [ none ↦ false | some r ↦ is_one r ])
    then err (forbidden_error "admin required")
    else ok identity
