-- ===== src/Auth/Models.antt =====
-- services/auth-service/app/models and config.py: rows of the two tables, and the settings.
use back_end.Prelude.{ℕ, String, Bool, true, false, Option}

pub data UserStatus : Type 0 where
  pending_tenant active disabled : UserStatus

-- The column holds the enum's value, one of three texts.
abbrev pub value : UserStatus → String
value pending_tenant = "pending_tenant"
value active = "active"
value disabled = "disabled"

-- `user.status == UserStatus.ACTIVE.value`
abbrev pub is_active : UserStatus → Bool
is_active active = true
is_active _ = false

pub record User : Type 0 where
  pub id : ℕ
  pub tenant_id : Option ℕ
  pub email : String
  pub password_hash : Option String
  pub full_name : Option String
  pub phone : Option String
  pub status : UserStatus
  pub created_at : ℕ
  pub modified_at : ℕ

pub record RefreshToken : Type 0 where
  pub id : ℕ
  pub user_id : ℕ
  pub tenant_id : Option ℕ
  pub token_hash : String
  pub created_at : ℕ
  pub expires_at : ℕ
  pub revoked_at : Option ℕ
  pub revoked_reason : Option String
  pub ip : Option String
  pub user_agent : Option String

-- The settings that the services below read.
pub record Settings : Type 0 where
  pub service_name : String
  pub secret_key : String
  pub access_token_expire_minutes : ℕ
  pub refresh_token_expire_minutes : ℕ
  pub presign_ttl_seconds : ℕ
  pub onboarding_long_poll_seconds : ℕ
  pub cookie_secure : Bool
  pub cookie_samesite : String
  pub cookie_path : String
  pub cookie_domain : String
