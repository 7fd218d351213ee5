-- ===== src/Flows/Identities.antt =====
-- The identity that services/files-service/app/auth.py reads from the headers of a user of services/auth-service.
use back_end.Prelude.{
  ℕ, ◌<◌, ◌^◌, String, false, Option, none, some, ◌≡◌, refl, ◌==◌, string_eq, eq_iff, Bool-cases,
  inl, inr,
}
use back_end.Prelude.Dict
use back_end.Prelude.Dict.{Dict}
use back_end.Prelude.Exec.{ok}
use back_end.Auth.App.{App}
use back_end.Auth.Tokens.{str_opt_uuid}
use back_end.Files.Auth.{calls, parse_uuid, tenant_of, identify}
use back_end.Files.Auth.Vouched.{LowerLaws}

-- `uuid.UUID` reads back the text of a UUID, which is not empty.
pub record UuidLaws (parse : String → Option ℕ) (text : ℕ → String) : Type 0 where
  pub parse-str : (u : ℕ) → u < 2 ^ 128 → parse (text u) ≡ some u
  pub parse_empty : parse "" ≡ none

str_not_empty :
    (parse : String → Option ℕ) (text : ℕ → String) (u : ℕ)
    → UuidLaws parse text
    → u < 2 ^ 128
    → (text u == "") ≡ false
str_not_empty parse text u laws bound = elim (Bool-cases (text u == "")) [
  | inl e ↦
      let empty = (eq_iff (text u) "").0 e in
      let read = laws.parse-str u bound in let none' = laws.parse_empty in cc
  | inr e ↦ e
]

abbrev pub IsBounded : Option ℕ → Type 0
IsBounded none = Unit
IsBounded (some u) = u < 2 ^ 128

module _ (parse : String → Option ℕ) (lower : String → String) (a : App) where
  parse_uuid-str :
      (field_name : String) (u : ℕ)
      → UuidLaws parse a.str_uuid
      → u < 2 ^ 128
      → parse_uuid parse lower (a.str_uuid u) field_name ≡ ok u
  unfolding parse_uuid
  parse_uuid-str field_name u laws bound = rw (laws.parse-str u bound, parse_uuid) refl

  tenant_of-str :
      (tenant : Option ℕ)
      → UuidLaws parse a.str_uuid
      → IsBounded tenant
      → tenant_of parse lower (str_opt_uuid a tenant) ≡ ok tenant
  tenant_of-str none laws bound = refl
  tenant_of-str (some u) laws bound =
      rw (str_not_empty parse a.str_uuid u laws bound, parse_uuid-str "X-Tenant-Id" u laws bound)
        refl

  pub identify-str :
      (user : ℕ) (tenant : Option ℕ) (headers : Dict String String)
      → UuidLaws parse a.str_uuid
      → LowerLaws lower
      → user < 2 ^ 128
      → IsBounded tenant
      → Dict.get "x-is-superuser" headers ≡ some "false"
      → Dict.get "x-tenant-id" headers ≡ str_opt_uuid a tenant
      → identify parse lower (some (a.str_uuid user)) headers
        ≡ calls (some (record { user_id = user; tenant_id = tenant; is_superuser = false }))
  identify-str user tenant headers laws lower_laws bound tenant_bound mark has_tenant =
      rw
        (
          str_not_empty parse a.str_uuid user laws bound,
          mark,
          has_tenant,
          tenant_of-str tenant laws tenant_bound,
          parse_uuid-str "X-User-Id" user laws bound,
          lower_laws.false_text,
        )
        refl
