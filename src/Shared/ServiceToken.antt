-- ===== src/Shared/ServiceToken.antt =====
-- shared/src/shared/auth/service_token.py. The clock is an argument: `datetime.now(UTC)` as whole
-- seconds.
use back_end.Prelude.{
  ℕ, ◌+◌, String, [], ◌∷◌, Option, none, some, ◌==◌, string_eq, if◌then◌else◌, Bool, false,
}
use back_end.Shared.Json.{num, str, Fields, nil, field, get}
use back_end.Shared.Jwt.{Jwt}

-- `claims.get("type") != kind`, negated
abbrev pub has_type : String → Fields → Bool
has_type kind claims = elim (get "type" claims) [
  | some (str t) ↦ t == kind
  | some _ ↦ false
  | none ↦ false
]

abbrev pub service_claims : String → ℕ → ℕ → Fields
service_claims issuer now expires_at =
    field "iss" (str issuer)
      (field "type" (str "service") (field "iat" (num now) (field "exp" (num expires_at) nil)))

module _ (j : Jwt) where
  unfoldable pub mint_service_token : ℕ → String → String → ℕ → String
  mint_service_token now secret issuer ttl_seconds =
      j.encode (service_claims issuer now (now + ttl_seconds)) secret "HS256"

  -- `none` is `InvalidTokenError`, from the package or from the check of the type
  unfoldable pub decode_service_token : ℕ → String → String → Option Fields
  decode_service_token now token secret = elim (j.decode now token secret ("HS256" ∷ [])) [
    | none ↦ none
    | some claims ↦ if has_type "service" claims then some claims else none
  ]
