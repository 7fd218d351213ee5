-- ===== src/Files/Routers/Ownership.antt =====
-- The ownership check of services/files-service/app/public_router.py.
use back_end.Prelude.{
  ℕ, ◌≤◌, String, true, Option, none, some, ◌≡◌, refl, sym, ◌∙◌, arith, max, Bool-cases,
  nat_beq_iff, inl, inr, ap,
}
use back_end.Prelude.Exec.{ok, err, app_error}
use back_end.Shared.Events.{World}
use back_end.Shared.Host.{Host}
use back_end.Shared.Identity.{ℤ, pos, negsuc}
use back_end.Files.Models.{MediaResources}
use back_end.Files.Config.{Settings}
use back_end.Files.Auth.{Identity}
use back_end.Files.Storage.{StorageBackend}
use back_end.Files.Manager.{Store, Formats, is_user, media_by_id}
use back_end.Files.Routers.{effective_ttl, presign_owned, presign_media_public}

-- A URL was signed by the backend for the object of a row of the user's own, for a time of at least one
-- second and at most the configured one (or one second).
pub record IsOwn {O : Type 0} (b : StorageBackend O) (settings : Settings) (identity : Identity)
    (media : Option MediaResources) (objects : O) (url : String) : Type 0 where
  pub row : MediaResources
  pub found : media ≡ some row
  pub owner : row.user_id ≡ some identity.user_id
  pub seconds : ℕ
  pub least : 1 ≤ seconds
  pub most : seconds ≤ max 1 settings.presign_ttl_seconds
  pub signed : (b.presigned_get_url row.bucket row.path (pos seconds) objects).0 ≡ ok url

is_user-owner : (user : ℕ) (column : Option ℕ) → is_user user column ≡ true → column ≡ some user
is_user-owner user none e = cc
is_user-owner user (some u) e = ap some ((nat_beq_iff u user).0 e)

effective_ttl_least : (ttl : ℤ) (s : ℕ) → 1 ≤ effective_ttl ttl s
effective_ttl_least (pos n) s = omega arith
effective_ttl_least (negsuc n) s = omega arith

effective_ttl_most : (ttl : ℤ) (s : ℕ) → effective_ttl ttl s ≤ max 1 s
effective_ttl_most (pos n) s = omega arith
effective_ttl_most (negsuc n) s = omega arith

module _ (h : Host) (f : Formats) {O : Type 0} (b : StorageBackend O) (settings : Settings) where
  presign_owned-IsOwn :
      (identity : Identity) (ttl : ℤ) (media : Option MediaResources) (w : World (Store O))
      {url : String}
      → (presign_owned h f b settings identity ttl media w).0 ≡ ok url
      → IsOwn b settings identity media w.db.objects url
  presign_owned-IsOwn identity ttl none w done = cc
  presign_owned-IsOwn identity ttl (some row) w done =
      elim (Bool-cases (is_user identity.user_id row.user_id)) [
        | inl e ↦ record {
          row = row;
          found = refl;
          owner = is_user-owner identity.user_id row.user_id e;
          seconds = effective_ttl ttl settings.presign_ttl_seconds;
          least = effective_ttl_least ttl settings.presign_ttl_seconds;
          most = effective_ttl_most ttl settings.presign_ttl_seconds;
          signed =
              let same : (presign_owned h f b settings identity ttl (some row) w).0
                  ≡ (b.presigned_get_url row.bucket row.path
                      (pos (effective_ttl ttl settings.presign_ttl_seconds)) w.db.objects).0 =
                rw e refl in
              sym same ∙ done;
        }
        | inr e ↦
            let refused : (presign_owned h f b settings identity ttl (some row) w).0
                ≡ err (app_error 403 "not the owner") =
              rw e refl in
            cc
      ]

  -- Where `presign_media_public` gives a URL, the media row with that id is the caller's own, and the URL
  -- is the backend's for that row's object, for a time within the bounds.
  pub presign_media_public-IsOwn :
      (media_id : ℕ) (ttl : ℤ) (identity : Identity) (w : World (Store O)) {url : String}
      → (presign_media_public h f b settings media_id ttl identity w).0 ≡ ok url
      → IsOwn b settings identity (media_by_id media_id w.db.rows) w.db.objects url
  unfolding presign_media_public
  presign_media_public-IsOwn media_id ttl identity w done =
      presign_owned-IsOwn identity ttl (media_by_id media_id w.db.rows) w done
