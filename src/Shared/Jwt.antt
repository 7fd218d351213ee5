-- ===== src/Shared/Jwt.antt =====
-- The `jwt` package (PyJWT), which the services call and do not implement: signing and reading a
-- token as functions of the payload, the key, the algorithms and the clock.
use back_end.Prelude.{ℕ, String, List, [], ◌∷◌, ◌≡◌, ◌≤◌, ◌<◌, Option, none, some}
use back_end.Shared.Json.{num, Fields, get}

pub record Jwt : Type 0 where
  -- `jwt.encode(payload, key, algorithm)`
  pub encode : Fields → String → String → String
  -- `jwt.decode(token, key, algorithms)` at a time in seconds; `none` is `InvalidTokenError`
  pub decode : ℕ → String → String → List String → Option Fields

-- What PyJWT documents of the two, at one payload: a token that was issued no later than now and
-- expires after now reads back as its payload under the key and algorithm that signed it; from its
-- expiry on it is refused.
pub record JwtLaws (j : Jwt) (payload : Fields) : Type 0 where
  pub decode-encode :
      (now issued expires : ℕ) (key algorithm : String)
      → get "iat" payload ≡ some (num issued)
      → get "exp" payload ≡ some (num expires)
      → issued ≤ now
      → now < expires
      → j.decode now (j.encode payload key algorithm) key (algorithm ∷ []) ≡ some payload
  pub decode_expired :
      (now expires : ℕ) (key algorithm : String)
      → get "exp" payload ≡ some (num expires)
      → expires ≤ now
      → j.decode now (j.encode payload key algorithm) key (algorithm ∷ []) ≡ none
