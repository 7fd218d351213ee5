-- ===== src/Files/Storage/Minio.antt =====
-- services/files-service/app/storage/minio_backend.py. The client of the MinIO package is a record of
-- functions on a state of its own; its `_base_url`, which this code swaps, is kept beside that state.
use back_end.Prelude.{
  ℕ, String, Bool, true, false, List, [], ◌∷◌, ◌==◌, string_eq, if◌then◌else◌, ◌||◌, join,
}
use back_end.Prelude.Exec.{Exec, Exn, Result, ok, err, raised, pure, ◌>>=◌, ◌>>◌}
use back_end.Shared.Middleware.{is_in}
use back_end.Shared.Identity.{ℤ}
use back_end.Files.Models.{Bytes}
use back_end.Files.Storage.{StorageBackend}

-- What a call of the client gives: a value, an `S3Error` by its code, or another exception.
pub data Call (A : Type 0) : Type 0 where
  done : A → Call A
  s3_error : String → Call A
  failed : Exn → Call A

pub record BaseUrl : Type 0 where
  pub scheme : String
  pub host : String
  pub region : String

-- The package: requests go to the client's base URL, and change the state `S` of the store.
pub record Minio (S : Type 0) : Type 0 where
  pub put_object : BaseUrl → String → String → Bytes → ℕ → String → S → Call Unit × S
  pub get_object : BaseUrl → String → String → S → Call Bytes × S
  pub remove_object : BaseUrl → String → String → S → Call Unit × S
  pub presigned_get_object : BaseUrl → String → String → ℤ → S → Call String × S
  pub bucket_exists : BaseUrl → String → S → Call Bool × S
  pub make_bucket : BaseUrl → String → S → Call Unit × S
  -- `json.dumps` of the policy that lets anyone read the objects under a resource name
  pub read_policy : String → String
  pub set_bucket_policy : BaseUrl → String → String → S → Call Unit × S
  pub delete_bucket_policy : BaseUrl → String → S → Call Unit × S
  -- `BaseURL(text, region=…)`
  pub base_url_of : String → String → Result BaseUrl

pub record Client (S : Type 0) : Type 0 where
  pub base_url : BaseUrl
  pub store : S

abbrev pub result_of : {A : Type 0} → Call A → Result A
result_of (done a) = ok a
result_of (s3_error code) = err (raised "S3Error")
result_of (failed e) = err e

-- `except S3Error as exc: if exc.code in codes: return; raise`
abbrev pub tolerate : List String → Call Unit → Result {0} Unit
tolerate codes (done a) = ok tt
tolerate codes (s3_error code) = if is_in code codes then ok tt else err (raised "S3Error")
tolerate codes (failed e) = err e

module _ {S : Type 0} where
  -- A request through the client, at its base URL of the moment.
  abbrev pub call :
      {A B : Type 0} → (BaseUrl → S → Call A × S) → (Call A → Result B) → Exec (Client S) B
  call request outcome c =
      let (answer, store) = request c.base_url c.store in
      (outcome answer, record c { store = store })

  abbrev pub set_base_url : BaseUrl → Exec (Client S) Unit
  set_base_url url c = (ok tt, record c { base_url = url })

  -- `try: m finally: …`, where the last part puts a base URL back
  abbrev pub finally_restore : {A : Type 0} → BaseUrl → Result A × Client S → Result A × Client S
  finally_restore url (outcome, c) = (outcome, record c { base_url = url })

module _ {S : Type 0} (m : Minio S) where
  abbrev pub presign : String → String → ℤ → Exec (Client S) String
  presign bucket key expires = call (λ url. m.presigned_get_object url bucket key expires) result_of

  abbrev pub presign_at : String → String → ℤ → Result BaseUrl → Exec (Client S) String
  presign_at bucket key expires (err e) c = (err e, c)
  presign_at bucket key expires (ok public_url) c =
      finally_restore c.base_url ((set_base_url public_url >> presign bucket key expires) c)

  -- `presigned_get_url`, by `_public_endpoint`
  unfoldable pub presigned_get_url : String → String → String → ℤ → Exec (Client S) String
  presigned_get_url public_endpoint bucket key expires c =
      if public_endpoint == "" || public_endpoint == c.base_url.host
      then presign bucket key expires c
      else presign_at bucket key expires
          (m.base_url_of (join ("http://" ∷ public_endpoint ∷ [])) c.base_url.region) c

  abbrev pub make_unless : String → Bool → Exec (Client S) Unit
  make_unless bucket true = pure tt
  make_unless bucket false = call (λ url. m.make_bucket url bucket) result_of

  -- `ensure_bucket`
  unfoldable pub ensure_bucket : String → Exec (Client S) Unit
  ensure_bucket bucket = do
    exists ← call (λ url. m.bucket_exists url bucket) result_of
    make_unless bucket exists

  -- `set_bucket_public`
  unfoldable pub set_bucket_public : String → Bool → Exec (Client S) Unit
  set_bucket_public bucket true =
      let policy = m.read_policy (join ("arn:aws:s3:::" ∷ bucket ∷ "/*" ∷ [])) in
      call (λ url. m.set_bucket_policy url bucket policy) result_of
  set_bucket_public bucket false =
      call (λ url. m.delete_bucket_policy url bucket)
        (tolerate ("NoSuchBucketPolicy" ∷ "NoSuchBucket" ∷ []))

  -- `delete_object`
  unfoldable pub delete_object : String → String → Exec (Client S) Unit
  delete_object bucket key =
      call (λ url. m.remove_object url bucket key) (tolerate ("NoSuchKey" ∷ "NoSuchObject" ∷ []))

-- `MinioBackend`, by its endpoint and its public endpoint
unfoldable pub minio_backend : {S : Type 0} → Minio S → String → String → StorageBackend (Client S)
unfolding presigned_get_url ensure_bucket set_bucket_public delete_object
minio_backend m endpoint public_endpoint = record {
  put_object = λ bucket key content size content_type.
      call (λ url. m.put_object url bucket key content size content_type) result_of;
  get_object = λ bucket key. call (λ url. m.get_object url bucket key) result_of;
  delete_object = delete_object m;
  presigned_get_url =
      presigned_get_url m (if public_endpoint == "" then endpoint else public_endpoint);
  ensure_bucket = ensure_bucket m;
  set_bucket_public = set_bucket_public m;
}
