-- ===== src/Auth/App.antt =====
-- What the auth service runs with: its settings, its surroundings, and the packages that it calls
-- for tokens and passwords.
use back_end.Prelude.{ℕ, String, Bool, true, Option, some, ◌≡◌}
use back_end.Shared.Host.{Host}
use back_end.Shared.Json.{Fields}
use back_end.Shared.Jwt.{Jwt}
use back_end.Auth.Models.{Settings}

pub record Crypto : Type 0 where
  -- `hashlib.sha256(raw.encode("utf-8")).hexdigest()`
  pub sha256_hex : String → String
  -- passlib's `CryptContext.hash` with the given salt, and `verify`, which raises `ValueError`
  -- (`none`) on a text that is no hash
  pub bcrypt_hash : ℕ → String → String
  pub bcrypt_verify : String → String → Option Bool

-- passlib's documented law: a hash verifies against the password that it was made of.
pub record CryptoLaws (c : Crypto) : Type 0 where
  pub verify-hash :
      (salt : ℕ) (password : String)
      → c.bcrypt_verify password (c.bcrypt_hash salt password) ≡ some true

-- A response of files-service: its status, and its body where it is a JSON object.
pub record HttpResponse : Type 0 where
  pub status_code : ℕ
  pub json : Option Fields

pub record App : Type 0 where
  pub host : Host
  pub open host use *
  pub jwt : Jwt
  pub crypto : Crypto
  pub open crypto use *
  pub settings : Settings
  pub open settings use *
  -- GET of a path of files-service with a query, at a draw; `none` is an exception of the client
  pub files_get : ℕ → String → Option HttpResponse
  -- `str(n)` of a number, `str.lower`, and `datetime.isoformat()`
  pub str_int : ℕ → String
  pub lower : String → String
  pub isoformat : ℕ → String
