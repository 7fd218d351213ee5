-- ===== src/Auth/Tests/Setup.antt =====
-- The surroundings, the packages and the tables of a small auth service.
use back_end.Prelude.{
  ℕ, zero, suc, ◌+◌, String, true, Option, none, some, [], ◌∷◌, ◌==◌, string_eq, if◌then◌else◌,
  join, ◌≡◌, arith, leb,
}
use back_end.Prelude.Text.{len}
use back_end.Shared.Host.{Host}
use back_end.Shared.Json.{Fields, nil, num, get}
use back_end.Shared.Jwt.{Jwt, JwtLaws}
use back_end.Shared.Events.{World}
use back_end.Auth.Models.{User, RefreshToken, Settings, active, pending_tenant}
use back_end.Auth.Db.{AuthDb}
use back_end.Auth.App.{App, Crypto}

abbrev pub tally : ℕ → String
tally zero = ""
tally (suc n) = join ("i" ∷ tally n ∷ [])

abbrev pub host : Host
host = record {
  utcnow = λ k. 1000 + k;
  time = λ k. 50 + k;
  uuid4 = λ k. 100 + k;
  token_urlsafe = λ k n. tally k;
  str_uuid = tally;
  parse_uuid = λ s. some (len s);
  parse_int = λ s. none;
  redis_up = λ k. leb k 50;
  message_id = tally;
}

-- A package whose tokens are all "jwt" and hold the same payload until they expire.
abbrev pub jwt_of : Fields → ℕ → Jwt
jwt_of payload expires = record {
  encode = λ _ key algorithm. "jwt";
  decode = λ now token key algorithms. if leb expires now then none else some payload;
}

pub jwt_of-JwtLaws :
    (payload : Fields) (expires : ℕ)
    → get "exp" payload ≡ some (num expires)
    → JwtLaws (jwt_of payload expires) payload
jwt_of-JwtLaws payload expires e = record {
  decode-encode = λ now issued e' key algorithm i x after before. ground arith;
  decode_expired = λ now e' key algorithm x late. ground arith;
}

abbrev pub crypto : Crypto
crypto = record {
  sha256_hex = λ raw. join ("#" ∷ raw ∷ []);
  bcrypt_hash = λ salt password. join ("$" ∷ password ∷ []);
  bcrypt_verify = λ password hashed. some (hashed == join ("$" ∷ password ∷ []));
}

abbrev settings : Settings
settings = record {
  service_name = "auth-service";
  secret_key = "key";
  access_token_expire_minutes = 15;
  refresh_token_expire_minutes = 60;
  presign_ttl_seconds = 300;
  onboarding_long_poll_seconds = 10;
  cookie_secure = true;
  cookie_samesite = "lax";
  cookie_path = "/";
  cookie_domain = "";
}

abbrev pub app_of : Jwt → App
app_of jwt = record {
  host = host;
  jwt = jwt;
  crypto = crypto;
  settings = settings;
  files_get = λ k path. none;
  str_int = tally;
  lower = λ s. s;
  isoformat = tally;
}

abbrev pub app : App
app = app_of (jwt_of nil 0)

abbrev pub ada : User
ada = record {
  id = 1;
  tenant_id = some 7;
  email = "ada@example.com";
  password_hash = some "$pw";
  full_name = some "Ada";
  phone = none;
  status = active;
  created_at = 0;
  modified_at = 0;
}

-- Bob waits for his tenant.
abbrev pub bob : User
bob = record ada { id = 2; tenant_id = none; email = "bob@example.com"; status = pending_tenant }

abbrev pub token : ℕ → String → Option ℕ → RefreshToken
token id digest revoked_at = record {
  id = id;
  user_id = 1;
  tenant_id = some 7;
  token_hash = digest;
  created_at = 0;
  expires_at = 5000;
  revoked_at = revoked_at;
  revoked_reason = none;
  ip = none;
  user_agent = none;
}

-- Ada has an open session with the token "a" and a revoked one with the token "b".
abbrev pub db : AuthDb
db = record {
  users = ada ∷ bob ∷ [];
  refresh_tokens = token 10 "#a" none ∷ token 11 "#b" (some 900) ∷ [];
}

abbrev pub world : World AuthDb
world = record { db = db; published = []; draws = 0 }
