-- ===== src/Files/Storage/Presign.antt =====
-- The signing of a URL in services/files-service/app/storage/minio_backend.py, which swaps the client's
-- base URL for the time of a call.
use back_end.Prelude.{String, ◌==◌, string_eq, ◌||◌, ◌≡◌, refl, Bool-cases, inl, inr}
use back_end.Prelude.Exec.{Result, ok, err}
use back_end.Shared.Identity.{ℤ}
use back_end.Files.Storage.Minio.{BaseUrl, Minio, Client, presign_at, presigned_get_url}

module _ {S : Type 0} (m : Minio S) where
  presign_at-base_url :
      (bucket key : String) (expires : ℤ) (url : Result BaseUrl) (c : Client S)
      → (presign_at m bucket key expires url c).1.base_url ≡ c.base_url
  presign_at-base_url bucket key expires (err e) c = refl
  presign_at-base_url bucket key expires (ok url) c = refl

  -- Whatever the package answers or raises, the client's base URL is the one that it was before a URL
  -- was signed.
  pub presigned_get_url-base_url :
      (public_endpoint bucket key : String) (expires : ℤ) (c : Client S)
      → (presigned_get_url m public_endpoint bucket key expires c).1.base_url ≡ c.base_url
  unfolding presigned_get_url
  presigned_get_url-base_url public_endpoint bucket key expires c =
      elim (Bool-cases (public_endpoint == "" || public_endpoint == c.base_url.host)) [
        | inl e ↦ rw e refl
        | inr e ↦ rw e (presign_at-base_url bucket key expires _ c)
      ]
