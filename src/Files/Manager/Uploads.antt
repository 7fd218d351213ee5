-- ===== src/Files/Manager/Uploads.antt =====
-- The avatars of services/files-service/app/storage/manager.py: one for each user, the last one that was
-- uploaded, and what is left when the storage backend fails.
use back_end.Prelude.{
  ℕ, Bool, true, false, Option, none, some, List, [], ◌∷◌, ◌++◌, ◌≡◌, refl, arith, ◌==◌, nat_eq,
  nat_beq_iff, beq_refl, Bool-cases, inl, inr,
}
use back_end.Prelude.Exec.{Exn, Result, ok, err, continue, pure}
use back_end.Shared.Events.{World}
use back_end.Shared.Host.{Host}
use back_end.Files.Models.{MediaResources, profile_photo}
use back_end.Files.Storage.{StorageBackend}
use back_end.Files.Manager.{
  Store, Formats, Upload, is_avatar, avatar_of, delete_found, delete_avatar, get_avatar,
  upload_avatar,
}
use back_end.Files.Manager.Rows.{
  count, count-snoc_other, count-snoc, count-delete_row, count-delete_found, none_of_count,
  avatar_of-snoc,
}
use back_end.Files.Manager.Avatars.{
  HasOneAvatar, Fewer, rows_of, IsDropped, dropped, kept, drop_media-IsDropped, stored, failed,
  upload_avatar-IsUpload,
}

is_avatar_own :
    (user : ℕ) (row : MediaResources)
    → row.user_id ≡ some user
    → row.purpose ≡ profile_photo
    → is_avatar user row ≡ true
is_avatar_own user row owner purpose = rw (owner, purpose, beq_refl user) refl

is_avatar_other :
    (user v : ℕ) (row : MediaResources)
    → row.user_id ≡ some user
    → (user == v) ≡ false
    → is_avatar v row ≡ false
is_avatar_other user v row owner e = rw (owner, e) refl

HasOneAvatar-snoc :
    (user : ℕ) (row : MediaResources) (rest : List MediaResources)
    → row.user_id ≡ some user
    → count user rest ≡ 0
    → HasOneAvatar rest
    → HasOneAvatar (rest ++ row ∷ [])
HasOneAvatar-snoc user row rest owner none_left one v = elim (Bool-cases (user == v)) [
  | inl e ↦
      let same = (nat_beq_iff user v).0 e in
      let zero_left : count v rest ≡ 0 = cc in omega (arith, zero_left, count-snoc v row rest)
  | inr e ↦ rw (count-snoc_other v row rest (is_avatar_other user v row owner e)) (one v)
]

-- What a deletion leaves: no avatar of the user where it says that one is deleted, and else the table as
-- it was.
pub data IsDeleted {O : Type 0} (user : ℕ) (before : List MediaResources)
    (r : Result Bool × World (Store O)) : Type 0 where
  deleted :
      r.0 ≡ ok true
      → ¬ (avatar_of user before ≡ none)
      → avatar_of user (rows_of r) ≡ none
      → Fewer (rows_of r) before
      → IsDeleted user before r
  nothing :
      r.0 ≡ ok false → avatar_of user before ≡ none → rows_of r ≡ before → IsDeleted user before r
  not_deleted : (e : Exn) → r.0 ≡ err e → rows_of r ≡ before → IsDeleted user before r

module _ (h : Host) (f : Formats) {O : Type 0} (b : StorageBackend O) where
  -- An upload, whatever its outcome and whatever the storage backend does, leaves no user with two
  -- avatars, if none had two before.
  pub upload_avatar-HasOneAvatar :
      (u : Upload) (w : World (Store O))
      → HasOneAvatar w.db.rows
      → HasOneAvatar (upload_avatar h f b u w).1.db.rows
  upload_avatar-HasOneAvatar u w one = elim (upload_avatar-IsUpload h f b u w one) [
    | stored row rest o rows none_left fewer owner purpose ↦
        rw rows (
          HasOneAvatar-snoc u.user_id row rest owner none_left (λ v. omega (arith, one v, fewer v)))
    | failed e o (inl rows) ↦ rw rows one
    | failed e o (inr (none_left, fewer)) ↦ λ v. omega (arith, one v, fewer v)
  ]

  -- After an upload that returns a row, and over a table where no user had two avatars, `get_avatar`
  -- gives that row.
  pub get_avatar-upload_avatar :
      (u : Upload) (w : World (Store O)) {row : MediaResources}
      → HasOneAvatar w.db.rows
      → (upload_avatar h f b u w).0 ≡ ok row
      → (get_avatar h f b u.user_id (upload_avatar h f b u w).1).0 ≡ ok (some row)
  unfolding get_avatar
  get_avatar-upload_avatar u w {row} one done = elim (upload_avatar-IsUpload h f b u w one) [
    | stored row' rest o rows none_left fewer owner purpose ↦
        let found =
          avatar_of-snoc u.user_id row' rest none_left
            (is_avatar_own u.user_id row' owner purpose) in
        cc
    | failed e o _ ↦ cc
  ]

  continue-IsDeleted :
      (user : ℕ) (row : MediaResources) (before : List MediaResources)
      (r : Result Unit × World (Store O))
      → HasOneAvatar before
      → avatar_of user before ≡ some row
      → IsDropped row before r
      → IsDeleted user before (continue r (λ _. pure true))
  continue-IsDeleted user row before (ok _, w) one found (dropped o rows) =
      deleted refl (λ n. cc)
        (none_of_count user w.db.rows
          (rw rows (omega (arith, one user, count-delete_found user before found))))
        (λ v. rw rows (count-delete_row v row.id before))
  continue-IsDeleted user row before (ok _, w) one found (kept e o rows) = cc
  continue-IsDeleted user row before (err e, w) one found (dropped o rows) = cc
  continue-IsDeleted user row before (err e, w) one found (kept e' o rows) = not_deleted e refl rows

  delete_found-IsDeleted :
      (user : ℕ) (found : Option MediaResources) (w : World (Store O))
      → HasOneAvatar w.db.rows
      → avatar_of user w.db.rows ≡ found
      → IsDeleted user w.db.rows (delete_found h f b found w)
  delete_found-IsDeleted user none w one found = nothing refl found refl
  delete_found-IsDeleted user (some row) w one found =
      continue-IsDeleted user row w.db.rows _ one found (drop_media-IsDropped h f b row w)

  -- Over a table where no user has two avatars, `delete_avatar` either returns true, where the user had
  -- an avatar and has none any more; or false, where the user had none; or raises. In the last two cases
  -- the table is as it was.
  pub delete_avatar-IsDeleted :
      (user : ℕ) (w : World (Store O))
      → HasOneAvatar w.db.rows
      → IsDeleted user w.db.rows (delete_avatar h f b user w)
  unfolding delete_avatar get_avatar
  delete_avatar-IsDeleted user w one =
      delete_found-IsDeleted user (avatar_of user w.db.rows) w one refl
