-- ===== src/Files/Models.antt =====
-- services/files-service/app/models and schemas/internal.py.
use back_end.Prelude.{ℕ, String, Bool, true, false, Option, List}
use back_end.Shared.Json.{Fields}

pub data MediaType : Type 0 where
  image video audio document other : MediaType

pub data MediaPurpose : Type 0 where
  product_image category_image profile_photo payment_receipt banner_video other : MediaPurpose

-- `purpose == MediaPurpose.PROFILE_PHOTO`
abbrev pub is_profile_photo : MediaPurpose → Bool
is_profile_photo profile_photo = true
is_profile_photo _ = false

-- A row of the table. `duration` and `sort_order` are left out: no code writes or reads them.
pub record MediaResources : Type 0 where
  pub id : ℕ
  pub tenant_id : Option ℕ
  pub user_id : Option ℕ
  pub original_filename : String
  pub media_type : MediaType
  pub purpose : MediaPurpose
  pub mimetype : String
  pub format : String
  pub size_bytes : ℕ
  pub bucket : String
  pub path : String
  pub is_public : Bool
  pub meta : Fields
  pub created_at : ℕ

pub record MediaRef : Type 0 where
  pub media_id : ℕ
  pub bucket : String
  pub key : String
  pub size_bytes : ℕ
  pub mimetype : String
  pub purpose : MediaPurpose

abbrev pub Bytes : Type 0
Bytes = List ℕ
