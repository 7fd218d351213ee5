-- ===== src/Files/Config.antt =====
-- services/files-service/app/config.py: the settings that the service reads, and their validators.
use back_end.Prelude.{
  ℕ, String, Bool, true, false, List, [], ◌∷◌, ◌==◌, string_eq, nat_eq, Char, code, if◌then◌else◌,
  ◌||◌,
}
use back_end.Prelude.Exec.{Result, ok, err, raised}
use back_end.Prelude.Text.{strip}

pub record Settings : Type 0 where
  pub service_name : String
  pub secret_key : String
  pub storage_backend : String
  pub minio_endpoint : String
  pub minio_public_endpoint : String
  pub minio_root_user : String
  pub minio_root_password : String
  pub minio_secure : Bool
  pub init_buckets : List (String × Bool)
  pub init_buckets_json : String
  pub presign_ttl_seconds : ℕ
  pub avatar_max_bytes : ℕ
  pub avatar_allowed_mimetypes : List String

-- One character before the parts of a split.
abbrev pub onto_first : Char → List String → List String
onto_first c [] = (String.◌∷◌ c String.[]) ∷ []
onto_first c (s ∷ parts) = String.◌∷◌ c s ∷ parts

-- `value.split(",")`
unfoldable pub split_commas : String → List String
split_commas (String.[]) = "" ∷ []
split_commas (String.◌∷◌ c s) =
    let parts = split_commas s in if code c == 44 then "" ∷ parts else onto_first c parts

abbrev pub stripped_parts : List String → List String
stripped_parts [] = []
stripped_parts (v ∷ parts) =
    let rest = stripped_parts parts in if strip v == "" then rest else strip v ∷ rest

-- `_split_mimetypes`, of a text
unfoldable pub split_mimetypes : String → List String
unfolding split_commas strip
split_mimetypes value = stripped_parts (split_commas value)

-- `_require_secret_key`; the exception is `ValueError`
unfoldable pub require_secret_key : String → Result String
require_secret_key v =
    if v == "" || v == "your-secret-key-change-in-production"
    then err (raised "ValueError")
    else ok v

abbrev pub is_nil : List (String × Bool) → Bool
is_nil [] = true
is_nil (_ ∷ _) = false

abbrev pub with_buckets : Settings → Result (List (String × Bool)) → Result Settings
with_buckets settings (err e) = err e
with_buckets settings (ok buckets) = ok (record settings { init_buckets = buckets })

-- `model_post_init`; `json.loads`, with its pairs, is a parameter
unfoldable pub model_post_init :
    (String → Result (List (String × Bool))) → Settings → Result Settings
model_post_init loads settings =
    if is_nil settings.init_buckets
    then if settings.init_buckets_json == ""
      then ok settings
      else with_buckets settings (loads settings.init_buckets_json)
    else ok settings
