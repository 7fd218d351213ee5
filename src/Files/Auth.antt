-- ===== src/Files/Auth.antt =====
-- services/files-service/app/auth.py. The names of a request's headers are in lower case, as ASGI
-- passes them.
pub mod Caller
pub mod Vouched
use back_end.Prelude.{
  ℕ, String, Bool, true, false, Option, none, some, ◌==◌, string_eq, if◌then◌else◌, join, [], ◌∷◌,
}
use back_end.Prelude.Dict
use back_end.Prelude.Dict.{Dict}
use back_end.Prelude.Exec.{Exn, Result, ok, err, app_error}
use back_end.Prelude.Text.{starts_with}
use back_end.Shared.Exceptions.{ErrorResponse}

pub record Identity : Type 0 where
  pub user_id : ℕ
  pub tenant_id : Option ℕ
  pub is_superuser : Bool

-- The application is called, with the identity that the request's state then has, if any; or this
-- response is sent; or an exception leaves the middleware.
pub data Outcome : Type 0 where
  calls : Option Identity → Outcome
  responds : ErrorResponse → Outcome
  raises : Exn → Outcome

-- `uuid.UUID(text)`, which raises (`none`) on other texts, and `str.lower`
module _ (parse : String → Option ℕ) (lower : String → String) where
  -- `_parse_uuid`
  unfoldable pub parse_uuid : String → String → Result ℕ
  parse_uuid raw field_name = elim (parse raw) [
    | none ↦ err (app_error 401 (join ("invalid " ∷ field_name ∷ [])))
    | some u ↦ ok u
  ]

  abbrev pub some_of : Result ℕ → Result (Option ℕ)
  some_of (ok u) = ok (some u)
  some_of (err e) = err e

  -- `_parse_uuid(…) if tenant_id_raw else None`
  abbrev pub tenant_of : Option String → Result (Option ℕ)
  tenant_of none = ok none
  tenant_of (some raw) =
      let tenant = some_of (parse_uuid raw "X-Tenant-Id") in if raw == "" then ok none else tenant

  abbrev pub superuser : Option String → Bool
  superuser none = lower "" == "true"
  superuser (some raw) = lower raw == "true"

  -- `except AppError as exc`
  abbrev pub refuse : Exn → Outcome
  refuse (app_error status detail) = responds (record { status_code = status; detail = detail })
  refuse e = raises e

  abbrev pub identified : Bool → Result ℕ → Result (Option ℕ) → Outcome
  identified is_superuser (ok user_id) (ok tenant_id) =
      calls
        (some (record { user_id = user_id; tenant_id = tenant_id; is_superuser = is_superuser }))
  identified is_superuser (ok user_id) (err e) = refuse e
  identified is_superuser (err e) tenant_id = refuse e

  abbrev pub missing : Outcome
  missing = responds (record { status_code = 401; detail = "missing X-User-Id" })

  abbrev pub identify : Option String → Dict String String → Outcome
  identify none headers = missing
  identify (some raw) headers =
      let found =
        identified (superuser (Dict.get "x-is-superuser" headers)) (parse_uuid raw "X-User-Id")
          (tenant_of (Dict.get "x-tenant-id" headers)) in
      if raw == "" then missing else found

  -- `PublicAuthMiddleware.dispatch`
  unfoldable pub dispatch : String → Dict String String → Outcome
  unfolding parse_uuid starts_with
  dispatch path headers =
      if starts_with path "/public"
      then identify (Dict.get "x-user-id" headers) headers
      else calls none

-- `get_current_identity`, on the state that the middleware leaves
abbrev pub get_current_identity : Option Identity → Result Identity
get_current_identity none = err (app_error 401 "identity not resolved")
get_current_identity (some identity) = ok identity
