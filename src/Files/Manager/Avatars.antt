-- ===== src/Files/Manager/Avatars.antt =====
-- What the operations of services/files-service/app/storage/manager.py leave in the media table, over any
-- storage backend and in every outcome.
use back_end.Prelude.{
  ℕ, ◌≤◌, String, Option, none, some, List, [], ◌∷◌, ◌++◌, ◌≡◌, refl, arith, nat_eq, Bool-cases,
  ◌⊎◌, inl, inr,
}
use back_end.Prelude.Exec.{Exn, Result, ok, err, raised, continue, pure, ◌>>=◌}
use back_end.Shared.Events.{World}
use back_end.Shared.Host.{Host}
use back_end.Files.Models.{MediaResources, profile_photo}
use back_end.Files.Storage.{StorageBackend}
use back_end.Files.Manager.{
  Store, Formats, Upload, is_some, avatar_of, media_by_id, delete_row, drop_media, drop_existing,
  store_media, create_media, upload_avatar, get_avatar, put_back, commit_delete, commit_row,
}
use back_end.Files.Manager.Rows.{count, count-delete_row, count-delete_found, count_of_none}

-- No user has two avatars.
abbrev pub HasOneAvatar : List MediaResources → Type 0
HasOneAvatar rows = (user : ℕ) → count user rows ≤ 1

-- No user has more avatars than before.
abbrev pub Fewer : List MediaResources → List MediaResources → Type 0
Fewer after before = (user : ℕ) → count user after ≤ count user before

abbrev pub rows_of : {O A : Type 0} → Result A × World (Store O) → List MediaResources
rows_of r = r.1.db.rows

-- An object is gone with its row, or nothing is changed in the table.
pub data IsDropped {O : Type 0} (row : MediaResources) (before : List MediaResources)
    (r : Result {0} Unit × World (Store O)) : Type 0 where
  dropped : r.0 ≡ ok tt → rows_of r ≡ delete_row row.id before → IsDropped row before r
  kept : (e : Exn) → r.0 ≡ err e → rows_of r ≡ before → IsDropped row before r

-- How `drop_existing` leaves the rows of a user whose avatar was looked up.
pub data IsCleared {O : Type 0} (user : ℕ) (before : List MediaResources)
    (r : Result {0} Unit × World (Store O)) : Type 0 where
  cleared :
      r.0 ≡ ok tt → count user (rows_of r) ≡ 0 → Fewer (rows_of r) before → IsCleared user before r
  kept_on : (e : Exn) → r.0 ≡ err e → rows_of r ≡ before → IsCleared user before r

-- How the construction of a row ends: the row is committed and its object stored, or the table is as
-- it was.
pub data IsCreated {O : Type 0} (user : ℕ) (before : List MediaResources)
    (r : Result MediaResources × World (Store O)) : Type 0 where
  created :
      (row : MediaResources)
      → r.0 ≡ ok row
      → rows_of r ≡ before ++ row ∷ []
      → row.user_id ≡ some user
      → row.purpose ≡ profile_photo
      → IsCreated user before r
  refused : (e : Exn) → r.0 ≡ err e → rows_of r ≡ before → IsCreated user before r

-- How an upload ends. When it fails with the old avatar gone, the user has none.
pub data IsUpload {O : Type 0} (user : ℕ) (before : List MediaResources)
    (r : Result MediaResources × World (Store O)) : Type 0 where
  stored :
      (row : MediaResources) (rest : List MediaResources)
      → r.0 ≡ ok row
      → rows_of r ≡ rest ++ row ∷ []
      → count user rest ≡ 0
      → Fewer rest before
      → row.user_id ≡ some user
      → row.purpose ≡ profile_photo
      → IsUpload user before r
  failed :
      (e : Exn)
      → r.0 ≡ err e
      → (rows_of r ≡ before) ⊎ ((count user (rows_of r) ≡ 0) × Fewer (rows_of r) before)
      → IsUpload user before r

module _ (h : Host) (f : Formats) {O : Type 0} (b : StorageBackend O) where
  pub drop_media-IsDropped :
      (row : MediaResources) (w : World (Store O))
      → IsDropped row w.db.rows (drop_media h f b row w)
  unfolding drop_media
  drop_media-IsDropped row w = after (b.delete_object row.bucket row.path w.db.objects)
    where
      after :
          (r : Result Unit × O)
          → IsDropped row w.db.rows
              (continue (put_back h f b w r) (λ _. commit_delete h f b row.id))
      after (ok _, objects) = dropped refl refl
      after (err e, objects) = kept e refl refl

  IsDropped-IsCleared :
      (user : ℕ) (row : MediaResources) (before : List MediaResources)
      (r : Result {0} Unit × World (Store O))
      → HasOneAvatar before
      → avatar_of user before ≡ some row
      → IsDropped row before r
      → IsCleared user before r
  IsDropped-IsCleared user row before r one found (dropped o rows) =
      cleared o (rw rows (omega (arith, one user, count-delete_found user before found)))
        (λ v. rw rows (count-delete_row v row.id before))
  IsDropped-IsCleared user row before r one found (kept e o rows) = kept_on e o rows

  pub drop_existing-IsCleared :
      (user : ℕ) (found : Option MediaResources) (w : World (Store O))
      → HasOneAvatar w.db.rows
      → avatar_of user w.db.rows ≡ found
      → IsCleared user w.db.rows (drop_existing h f b found w)
  drop_existing-IsCleared user none w one found =
      cleared refl (count_of_none user w.db.rows found) (λ v. omega arith)
  drop_existing-IsCleared user (some row) w one found =
      IsDropped-IsCleared user row w.db.rows _ one found (drop_media-IsDropped row w)

  pub store_media-IsCreated :
      (u : Upload) (row : MediaResources) (w : World (Store O))
      → row.user_id ≡ some u.user_id
      → row.purpose ≡ profile_photo
      → IsCreated u.user_id w.db.rows (store_media h f b u row w)
  unfolding store_media
  store_media-IsCreated u row w owner purpose =
      elim (Bool-cases (is_some (media_by_id row.id w.db.rows))) [
        | inl e ↦ rw e (refused (raised "IntegrityError") refl refl)
        | inr e ↦ rw e (
            after
              (b.put_object row.bucket row.path u.content u.size_bytes u.content_type w.db.objects))
      ]
    where
      after :
          (r : Result Unit × O)
          → IsCreated u.user_id w.db.rows
              (continue (put_back h f b w r) (λ _. commit_row h f b row >>= λ _. pure row))
      after (ok _, objects) = created row refl refl owner purpose
      after (err e, objects) = refused e refl refl

  pub create_media-IsCreated :
      (u : Upload) (ext key : String) (w : World (Store O))
      → IsCreated u.user_id w.db.rows (create_media h f b u ext key w)
  unfolding create_media
  create_media-IsCreated u ext key w = store_media-IsCreated u _ _ refl refl

  IsCreated-IsUpload :
      (user : ℕ) (before rest : List MediaResources) (r : Result MediaResources × World (Store O))
      → count user rest ≡ 0
      → Fewer rest before
      → IsCreated user rest r
      → IsUpload user before r
  IsCreated-IsUpload user before rest r none_left fewer (created row o rows owner purpose) =
      stored row rest o rows none_left fewer owner purpose
  IsCreated-IsUpload user before rest r none_left fewer (refused e o rows) =
      failed e o (inr (rw rows none_left, rw rows fewer))

  continue-IsUpload :
      (user : ℕ) (before : List MediaResources) (r : Result Unit × World (Store O))
      (k : Unit → World (Store O) → Result MediaResources × World (Store O))
      → ((w : World (Store O)) → IsCreated user w.db.rows (k tt w))
      → IsCleared user before r
      → IsUpload user before (continue r k)
  continue-IsUpload user before (ok _, w) k create (cleared o none_left fewer) =
      IsCreated-IsUpload user before w.db.rows _ none_left fewer (create w)
  continue-IsUpload user before (ok _, w) k create (kept_on e o rows) = cc
  continue-IsUpload user before (err e, w) k create (cleared o none_left fewer) = cc
  continue-IsUpload user before (err e, w) k create (kept_on e' o rows) = failed e refl (inl rows)

  pub upload_avatar-IsUpload :
      (u : Upload) (w : World (Store O))
      → HasOneAvatar w.db.rows
      → IsUpload u.user_id w.db.rows (upload_avatar h f b u w)
  unfolding upload_avatar get_avatar
  upload_avatar-IsUpload u w one =
      continue-IsUpload u.user_id w.db.rows _ _ (λ w'. create_media-IsCreated u _ _ w')
        (drop_existing-IsCleared u.user_id (avatar_of u.user_id w.db.rows) _ one refl)
