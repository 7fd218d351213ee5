-- ===== src/Auth/Validate.antt =====
-- services/auth-service/app/services/validate.py
use back_end.Prelude.{ℕ, String, Option, none, some, if◌then◌else◌}
use back_end.Prelude.Exec.{Exec, Result, ok, err, app_error, raised, raise, ◌>>=◌}
use back_end.Shared.Json.{Json, null, num, str, bool, obj, Fields, get}
use back_end.Shared.Events.{World}
use back_end.Auth.Db.{AuthDb}
use back_end.Auth.App.{App}
use back_end.Auth.Tokens.{decode_access_token}

pub record ValidateResult : Type 0 where
  pub expires_at : ℕ
  pub claims : Fields

-- `int(claims["exp"])`, `int` of a text being the first argument
abbrev pub int_claim : (String → Option ℕ) → Option Json → Result ℕ
int_claim parse_int none = err (raised "KeyError")
int_claim parse_int (some (num n)) = ok n
int_claim parse_int (some (bool b)) = ok (if b then 1 else 0)
int_claim parse_int (some (str s)) = elim (parse_int s) [
  | none ↦ err (raised "ValueError")
  | some n ↦ ok n
]
int_claim parse_int (some null) = err (raised "TypeError")
int_claim parse_int (some (obj _)) = err (raised "TypeError")

abbrev validated : Fields → Result ℕ → Result ValidateResult
validated claims (ok n) = ok (record { expires_at = n; claims = claims })
validated claims (err e) = err e

module _ (a : App) where
  unfoldable pub validate_access_token : String → String → Exec (World AuthDb) ValidateResult
  unfolding decode_access_token
  validate_access_token token secret = do
    decoded ← decode_access_token a token secret
    elim decoded [
      | none ↦ raise (app_error 401 "invalid token")
      | some claims ↦ (λ w. (validated claims (int_claim a.parse_int (get "exp" claims)), w))
    ]
