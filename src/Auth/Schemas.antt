-- ===== src/Auth/Schemas.antt =====
-- services/auth-service/app/schemas and the validator of config.py: what of a request's body becomes a request. The texts
-- of the errors are not modelled.
use back_end.Prelude.{
  ℕ, String, Bool, true, false, Option, none, some, ◌==◌, string_eq, if◌then◌else◌, ◌&&◌, leb,
}
use back_end.Prelude.Exec.{Result, ok, err, raised}
use back_end.Prelude.Text.{len}
use back_end.Auth.Onboarding.{OnboardingRequest}

-- Pydantic's `EmailStr`, the packages phonenumbers and zoneinfo.
pub record Validators : Type 0 where
  -- the normalised address
  pub email : String → Option String
  -- whether a number that parses is valid, and its E.164 form
  pub phone : String → Option (Bool × String)
  -- the exception of `ZoneInfo(key)`, if it raises one
  pub zone : String → Option String

abbrev pub invalid : {A : Type 0} → Result A
invalid = err (raised "ValidationError")

-- `Field(min_length=…, max_length=…)`
unfoldable pub bounded : ℕ → ℕ → String → Result String
bounded low high s = if leb low (len s) && leb (len s) high then ok s else invalid

abbrev pub or_invalid : {A : Type 0} → Option A → Result A
or_invalid none = invalid
or_invalid (some x) = ok x

abbrev pub and_then : {A B : Type 0} → Result A → (A → Result B) → Result B
and_then (ok a) f = f a
and_then (err e) f = err e

abbrev pub optional : (String → Result String) → Option String → Result (Option String)
optional f none = ok none
optional f (some s) = and_then (f s) (λ t. ok (some t))

module _ (v : Validators) where
  abbrev pub valid_phone : Option (Bool × String) → Result String
  valid_phone none = invalid
  valid_phone (some (true, e164)) = ok e164
  valid_phone (some (false, e164)) = invalid

  -- `phone`, with `_validate_phone`
  unfoldable pub phone_field : String → Result String
  unfolding bounded
  phone_field s = and_then (bounded 0 32 s) (λ t. valid_phone (v.phone t))

  abbrev pub valid_zone : String → Option String → Result String
  valid_zone s none = ok s
  valid_zone s (some name) =
      if name == "ZoneInfoNotFoundError"
      then invalid
      else if name == "ValueError"
      then invalid
      else err (raised name)

  -- `timezone`, with `_validate_timezone`
  unfoldable pub timezone_field : String → Result String
  unfolding bounded
  timezone_field s = and_then (bounded 1 64 s) (λ t. valid_zone t (v.zone t))

  -- `OnboardingRequest`, of a body with its fields
  unfoldable pub onboarding_request : OnboardingRequest → Result OnboardingRequest
  unfolding bounded phone_field timezone_field
  onboarding_request body = and_then (or_invalid (v.email body.email)) (λ email.
      and_then (bounded 8 128 body.password) (λ password.
        and_then (bounded 1 255 body.name) (λ name.
          and_then (optional phone_field body.phone) (λ phone.
            and_then (bounded 1 255 body.business_name) (λ business_name.
              and_then (timezone_field body.timezone) (λ timezone.
                and_then (bounded 1 255 body.legal_name) (λ legal_name.
                  and_then (or_invalid (v.email body.support_inbox)) (λ support_inbox. ok (record {
                    email = email;
                    password = password;
                    name = name;
                    phone = phone;
                    business_name = business_name;
                    timezone = timezone;
                    legal_name = legal_name;
                    support_inbox = support_inbox;
                  })))))))))

  -- `LoginRequest`: the e-mail and the password
  unfoldable pub login_request : String → String → Result (String × String)
  unfolding bounded
  login_request email password =
      and_then (or_invalid (v.email email))
        (λ email'. and_then (bounded 8 128 password) (λ password'. ok (email', password')))

-- `UserUpdateRequest`: the name and the phone
unfoldable pub user_update_request :
    Option String → Option String → Result (Option String × Option String)
unfolding bounded
user_update_request full_name phone =
    and_then (optional (bounded 1 255) full_name)
      (λ full_name'. and_then (optional (bounded 0 32) phone) (λ phone'. ok (full_name', phone')))

-- `_require_secret_key`
unfoldable pub require_secret_key : String → Result String
require_secret_key v =
    if v == ""
    then err (raised "ValueError")
    else if v == "your-secret-key-change-in-production"
    then err (raised "ValueError")
    else ok v
