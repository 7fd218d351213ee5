-- ===== src/Files/Manager/Lost.antt =====
-- An upload of services/files-service/app/storage/manager.py that fails after the old avatar is gone.
use back_end.Prelude.{ℕ, String, none, some, List, ◌≡◌, refl, Bool-cases, inl, inr}
use back_end.Prelude.Exec.{Exn, Result, ok, err, raised, continue, pure, ◌>>=◌}
use back_end.Shared.Events.{World}
use back_end.Shared.Host.{Host}
use back_end.Files.Models.{MediaResources, Bytes}
use back_end.Files.Storage.{StorageBackend}
use back_end.Files.Manager.{
  Store, Formats, Upload, avatar_of, is_some, media_by_id, get_avatar, drop_media, drop_existing,
  upload_avatar, put_back, commit_delete, commit_row, store_media, create_media,
}
use back_end.Files.Manager.Rows.{count, none_of_count}
use back_end.Files.Manager.Avatars.{
  HasOneAvatar, rows_of, IsCleared, cleared, kept_on, IsCreated, created, refused,
  drop_existing-IsCleared, create_media-IsCreated,
}

-- `put_object` raises, whatever it is called with.
abbrev pub Unwritable : {O : Type 0} → StorageBackend O → Type 0
Unwritable {O} b =
    (bucket key : String) (content : Bytes) (size : ℕ) (content_type : String) (objects : O)
    → (e : Exn) × ((b.put_object bucket key content size content_type objects).0 ≡ err e)

module _ (h : Host) (f : Formats) {O : Type 0} (b : StorageBackend O) where
  drop_media_ok :
      (row : MediaResources) (w : World (Store O))
      → (b.delete_object row.bucket row.path w.db.objects).0 ≡ ok tt
      → (drop_media h f b row w).0 ≡ ok tt
  unfolding drop_media
  drop_media_ok row w = after (b.delete_object row.bucket row.path w.db.objects)
    where
      after :
          (r : Result Unit × O)
          → r.0 ≡ ok tt
          → (continue (put_back h f b w r) (λ _. commit_delete h f b row.id)).0 ≡ ok tt
      after (ok _, objects) e = refl
      after (err x, objects) e = cc

  store_media_raises :
      (u : Upload) (row : MediaResources) (w : World (Store O))
      → Unwritable b
      → (e : Exn) × ((store_media h f b u row w).0 ≡ err e)
  unfolding store_media
  store_media_raises u row w unwritable =
      elim (Bool-cases (is_some (media_by_id row.id w.db.rows))) [
        | inl e ↦ rw e (raised "IntegrityError", refl)
        | inr e ↦ rw e (
            after _
              (unwritable row.bucket row.path u.content u.size_bytes u.content_type w.db.objects))
      ]
    where
      after :
          (r : Result Unit × O)
          → (e : Exn) × (r.0 ≡ err e)
          → (e : Exn) × ((continue
                (put_back h f b w r)
                (λ _. commit_row h f b row >>= λ _. pure row)).0
              ≡ err e)
      after (ok _, objects) (e, o) = cc
      after (err x, objects) (e, o) = (x, refl)

  create_media_raises :
      (u : Upload) (ext key : String) (w : World (Store O))
      → Unwritable b
      → (e : Exn) × ((create_media h f b u ext key w).0 ≡ err e)
  unfolding create_media
  create_media_raises u ext key w unwritable = store_media_raises u _ _ unwritable

  created_none :
      (user : ℕ) (rest : List MediaResources) (r : Result MediaResources × World (Store O))
      → count user rest ≡ 0
      → IsCreated user rest r
      → (e : Exn) × (r.0 ≡ err e)
      → avatar_of user (rows_of r) ≡ none
  created_none user rest r none_left (created row o rows owner purpose) (e, x) = cc
  created_none user rest r none_left (refused e' o rows) (e, x) =
      none_of_count user (rows_of r) (rw rows none_left)

  continue_lost :
      (user : ℕ) (before : List MediaResources) (r : Result Unit × World (Store O))
      (k : Unit → World (Store O) → Result MediaResources × World (Store O))
      → r.0 ≡ ok tt
      → IsCleared user before r
      → ((w : World (Store O)) → IsCreated user w.db.rows (k tt w))
      → ((w : World (Store O)) → (e : Exn) × ((k tt w).0 ≡ err e))
      → ((e : Exn) × ((continue r k).0 ≡ err e)) × (avatar_of user (rows_of (continue r k)) ≡ none)
  continue_lost user before (err e, w) k o c create raises = cc
  continue_lost user before (ok _, w) k o (kept_on e x rows) create raises = cc
  continue_lost user before (ok _, w) k o (cleared x none_left fewer) create raises =
      (raises w, created_none user w.db.rows _ none_left (create w) (raises w))

  -- An upload over an avatar whose object is deleted raises if the new object is not written, and then
  -- the user has no avatar any more, neither the old one nor the new one.
  pub get_avatar-upload_avatar_lost :
      (u : Upload) (w : World (Store O)) {old : MediaResources}
      → HasOneAvatar w.db.rows
      → avatar_of u.user_id w.db.rows ≡ some old
      → (b.delete_object old.bucket old.path w.db.objects).0 ≡ ok tt
      → Unwritable b
      → ((e : Exn) × ((upload_avatar h f b u w).0 ≡ err e))
        × ((get_avatar h f b u.user_id (upload_avatar h f b u w).1).0 ≡ ok none)
  unfolding upload_avatar get_avatar
  get_avatar-upload_avatar_lost u w {old} one found gone unwritable =
      let lost =
        continue_lost u.user_id w.db.rows (drop_existing h f b (avatar_of u.user_id w.db.rows) _) _
          (rw found (drop_media_ok old _ gone))
          (drop_existing-IsCleared h f b u.user_id (avatar_of u.user_id w.db.rows) _ one refl)
          (λ w'. create_media-IsCreated h f b u _ _ w')
          (λ w'. create_media_raises u _ _ w' unwritable) in
      (lost.0, rw lost.1 refl)
