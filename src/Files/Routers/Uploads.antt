-- ===== src/Files/Routers/Uploads.antt =====
-- The upload endpoint of services/files-service/app/public_router.py, over the manager.
use back_end.Prelude.{
  ℕ, ◌≤◌, String, true, some, List, ◌≡◌, refl, sym, ap, subst, ◌∙◌, arith, ◌==◌, nat_eq, string_eq,
  ltb, length, Bool-cases, ◌⊎◌, inl, inr,
}
use back_end.Prelude.Exec.{Exn, Exec, Result, ok, err, continue, rescue, pure, ◌>>=◌}
use back_end.Shared.Events.{World, event_envelope, publish}
use back_end.Shared.Events.Laws.{publish-db}
use back_end.Shared.Host.{Host}
use back_end.Shared.Json.{Json, Fields, str, num, nil, field}
use back_end.Shared.Middleware.{is_in}
use back_end.Files.Models.{MediaResources, MediaRef, Bytes}
use back_end.Files.Config.{Settings}
use back_end.Files.Auth.{Identity}
use back_end.Files.Storage.{StorageBackend}
use back_end.Files.Manager.{Store, Formats, Upload, upload_avatar, get_avatar, avatar_of}
use back_end.Files.Manager.Avatars.{HasOneAvatar}
use back_end.Files.Manager.Uploads.{upload_avatar-HasOneAvatar, get_avatar-upload_avatar}
use back_end.Files.Routers.{
  UploadFile, or_default, validate_upload, to_media_ref, publish_event, upload_my_avatar,
  tenant_text,
}

-- A file that may be an avatar.
pub record IsAcceptable (settings : Settings) (content : Bytes) (content_type : String)
    : Type 0 where
  pub least : 1 ≤ length content
  pub most : length content ≤ settings.avatar_max_bytes
  pub allowed : is_in content_type settings.avatar_allowed_mimetypes ≡ true

validate_upload-IsAcceptable :
    (str_int : ℕ → String) (str_list : List String → String) (settings : Settings) (content : Bytes)
    (content_type : String)
    → validate_upload str_int str_list settings content content_type ≡ ok tt
    → IsAcceptable settings content content_type
unfolding validate_upload
validate_upload-IsAcceptable str_int str_list settings content content_type h =
    elim (Bool-cases (length content == 0)) [
      | inl e ↦ cc (rw e at h)
      | inr e ↦ elim (Bool-cases (ltb settings.avatar_max_bytes (length content))) [
        | inl f ↦ cc (rw (e, f) at h)
        | inr f ↦ elim (Bool-cases (is_in content_type settings.avatar_allowed_mimetypes)) [
          | inl g ↦ record { least = ground (arith, e); most = ground (arith, f); allowed = g }
          | inr g ↦ cc (rw (e, f, g) at h)
        ]
      ]
    ]

module _ {W : Type 0} where
  continue_done :
      {A : Type 0} (q : Result {0} Unit × W) (x : A)
      → q.0 ≡ ok tt
      → ((continue q (λ _. pure x)).0 ≡ ok x) × ((continue q (λ _. pure x)).1 ≡ q.1)
  continue_done (ok _, w) x e = (refl, refl)
  continue_done (err _, w) x e = cc

  -- `publish_event` drops what the bus raises.
  abbrev dropped : {A : Type 0} → Result A × W → Result {0} Unit × W
  dropped r = rescue (continue r (λ _. pure tt)) (λ _. pure tt)

  rescue_done : {A : Type 0} (r : Result A × W) → ((dropped r).0 ≡ ok tt) × ((dropped r).1 ≡ r.1)
  rescue_done (ok _, w) = (refl, refl)
  rescue_done (err _, w) = (refl, refl)

module _ (h : Host) (f : Formats) {O : Type 0} (b : StorageBackend O) (settings : Settings) where
  publish_event-db :
      (type aggregate_id : String) (tenant_id : Json) (payload : Fields) (w : World (Store O))
      → ((publish_event h f b settings type aggregate_id tenant_id payload w).0 ≡ ok tt)
        × ((publish_event h f b settings type aggregate_id tenant_id payload w).1.db ≡ w.db)
  unfolding publish_event event_envelope
  publish_event-db type aggregate_id tenant_id payload w =
      let r = rescue_done (publish h "onboarding" _ _) in
      (r.0, ap (λ x. x.db) r.1 ∙ publish-db h "onboarding" _ _)

  -- What follows the upload of a row.
  published_ok :
      (k : MediaResources → Exec (World (Store O)) Unit)
      (r : Result MediaResources × World (Store O)) {ref : MediaRef}
      → ((m : MediaResources) (w : World (Store O)) → ((k m w).0 ≡ ok tt) × ((k m w).1.db ≡ w.db))
      → (continue r (λ m. k m >>= λ _. pure (to_media_ref m))).0 ≡ ok ref
      → (row : MediaResources) × (r.0 ≡ ok row)
        × (ref ≡ to_media_ref row)
        × ((continue r (λ m. k m >>= λ _. pure (to_media_ref m))).1.db ≡ r.1.db)
  published_ok k (err e, w) quiet done = cc
  published_ok k (ok row, w) {ref} quiet done =
      let q = quiet row w in
      let d = continue_done (k row w) (to_media_ref row) q.0 in
      let same : ok ref ≡ ok (to_media_ref row) = sym done ∙ d.0 in
      (row, refl, cc, ap (λ x. x.db) d.1 ∙ q.1)

  get_avatar_same :
      (user : ℕ) (w w' : World (Store O))
      → w.db ≡ w'.db
      → (get_avatar h f b user w).0 ≡ (get_avatar h f b user w').0
  unfolding get_avatar
  get_avatar_same user w w' same = ap (λ db. ok (avatar_of user db.rows)) same

  checked : (r : Result {0} Unit) → (r ≡ ok tt) ⊎ ((e : Exn) × (r ≡ err e))
  checked (ok _) = inl refl
  checked (err e) = inr (e, refl)

  abbrev announce : UploadFile → Identity → MediaResources → Exec (World (Store O)) Unit
  announce file identity media =
      publish_event h f b settings "user.avatar.changed" (h.str_uuid identity.user_id)
        (tenant_text h f b settings identity)
        (field "user_id" (str (h.str_uuid identity.user_id)) (
          field "media_id" (str (h.str_uuid media.id)) (
            field "mimetype" (str media.mimetype) (field "size_bytes" (num media.size_bytes) nil))))

  abbrev pub upload_of : UploadFile → Identity → Upload
  upload_of file identity = record {
    tenant_id = identity.tenant_id;
    user_id = identity.user_id;
    content = file.content;
    filename = or_default file.filename "avatar.bin";
    content_type = or_default file.content_type "application/octet-stream";
    size_bytes = length file.content;
  }

  -- An upload that was answered with a reference: the file was acceptable, the reference is that of the
  -- user's avatar, and no user has two.
  pub record IsUploaded (file : UploadFile) (identity : Identity) (ref : MediaRef)
      (after : World (Store O)) : Type 0 where
    pub acceptable :
        IsAcceptable settings file.content (or_default file.content_type "application/octet-stream")
    pub row : MediaResources
    pub is_avatar : (get_avatar h f b identity.user_id after).0 ≡ ok (some row)
    pub reference : ref ≡ to_media_ref row
    pub one : HasOneAvatar after.db.rows

  module _ (str_int : ℕ → String) (str_list : List String → String) where
    -- Where `upload_my_avatar` returns a reference, and no user had two avatars before, the file has at
    -- least one byte, no more than the limit and an allowed type, the reference is that of the avatar
    -- which the caller has then, and no user has two avatars, whether or not the event was published.
    pub upload_my_avatar-IsUploaded :
        (file : UploadFile) (identity : Identity) (w : World (Store O)) {ref : MediaRef}
        → HasOneAvatar w.db.rows
        → (upload_my_avatar h f b settings str_int str_list file identity w).0 ≡ ok ref
        → IsUploaded file identity ref
            (upload_my_avatar h f b settings str_int str_list file identity w).1
    unfolding upload_my_avatar
    upload_my_avatar-IsUploaded file identity w one done =
        let content_type = or_default file.content_type "application/octet-stream" in
        elim (checked (validate_upload str_int str_list settings file.content content_type)) [
          | inl e ↦
              let r =
                published_ok (announce file identity)
                  (upload_avatar h f b (upload_of file identity) w)
                  (λ m w'. publish_event-db _ _ _ _ w') (rw e at done) in
              rw e (record {
                acceptable =
                    validate_upload-IsAcceptable str_int str_list settings file.content content_type
                      e;
                row = r.0;
                is_avatar =
                    get_avatar_same identity.user_id _ _ r.3
                    ∙ get_avatar-upload_avatar h f b (upload_of file identity) w one r.1;
                reference = r.2;
                one =
                    subst HasOneAvatar (ap (λ db. db.rows) (sym r.3))
                      (upload_avatar-HasOneAvatar h f b (upload_of file identity) w one);
              })
          | inr (x, e) ↦ cc (rw e at done)
        ]
