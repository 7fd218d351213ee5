-- ===== src/Files/Storage.antt =====
-- services/files-service/app/storage: the protocol of a backend, its two implementations, and the
-- factory. An operation changes a state of the backend's own, and may raise.
pub mod Minio
pub mod Presign
use back_end.Prelude.{
  ℕ, String, Bool, true, false, Option, none, some, List, [], ◌∷◌, ◌==◌, string_eq, if◌then◌else◌,
}
use back_end.Prelude.Exec.{Exec, Result, ok, err, raised, raise, pure, ◌>>=◌, ◌>>◌}
use back_end.Shared.Identity.{ℤ}
use back_end.Files.Models.{Bytes}
use back_end.Files.Config.{Settings}

-- `StorageBackend`
pub record StorageBackend (O : Type 0) : Type 0 where
  -- bucket, key, data, size, content type
  pub put_object : String → String → Bytes → ℕ → String → Exec O Unit
  pub get_object : String → String → Exec O Bytes
  pub delete_object : String → String → Exec O Unit
  pub presigned_get_url : String → String → ℤ → Exec O String
  pub ensure_bucket : String → Exec O Unit
  pub set_bucket_public : String → Bool → Exec O Unit

module _ {O : Type 0} where
  abbrev not_implemented : {A : Type 0} → Exec O A
  not_implemented = raise (raised "NotImplementedError")

  -- `LocalBackend`
  unfoldable pub local_backend : StorageBackend O
  local_backend = record {
    put_object = λ bucket key content size content_type. not_implemented;
    get_object = λ bucket key. not_implemented;
    delete_object = λ bucket key. not_implemented;
    presigned_get_url = λ bucket key expires_seconds. not_implemented;
    ensure_bucket = λ bucket. not_implemented;
    set_bucket_public = λ bucket public. not_implemented;
  }

  -- `get_storage`, with `str.lower` and the constructor of `MinioBackend`, by its endpoints, user,
  -- password and security
  unfoldable pub get_storage :
      (String → String)
      → (String → String → String → String → Bool → StorageBackend O)
      → Settings
      → Result (StorageBackend O)
  unfolding local_backend
  get_storage lower minio_backend s =
      let backend = lower s.storage_backend in
      if backend == "minio"
      then ok (
          minio_backend s.minio_endpoint s.minio_public_endpoint s.minio_root_user
            s.minio_root_password s.minio_secure)
      else if backend == "local"
      then ok local_backend
      else err (raised "ValueError")

  -- The loop over `INIT_BUCKETS` when the service starts.
  unfoldable pub init_buckets : StorageBackend O → List (String × Bool) → Exec O Unit
  init_buckets storage [] = pure tt
  init_buckets storage ((bucket, is_public) ∷ buckets) =
      storage.ensure_bucket bucket
      >> storage.set_bucket_public bucket is_public
      >> init_buckets storage buckets
