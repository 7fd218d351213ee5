-- ===== src/Files/Routers.antt =====
-- services/files-service/app/public_router.py and internal_router.py. `HTTPException` is the exception with
-- its status and detail. A redirect (302) is its URL.
pub mod Ownership
pub mod Uploads
use back_end.Prelude.{
  ℕ, String, Bool, true, false, Option, none, some, List, [], ◌∷◌, ◌==◌, string_eq, nat_eq, ltb,
  length, if◌then◌else◌, not, min, max, join,
}
use back_end.Prelude.Exec.{Exn, Exec, Result, ok, err, app_error, raise, pure, catch, ◌>>=◌, ◌>>◌}
use back_end.Shared.Events.{World, query, event_envelope, publish}
use back_end.Shared.Host.{Host}
use back_end.Shared.Identity.{ℤ, pos, negsuc}
use back_end.Shared.Json.{Json, null, str, num, nil, field, Fields, opt_str}
use back_end.Shared.Middleware.{is_in}
use back_end.Files.Models.{MediaResources, MediaRef, Bytes}
use back_end.Files.Config.{Settings}
use back_end.Files.Auth.{Identity}
use back_end.Files.Storage.{StorageBackend}
use back_end.Files.Manager.{
  Store, Formats, Upload, is_user, media_by_id, upload_avatar, get_avatar, delete_avatar,
  presigned_url_for,
}

-- `UploadFile`
pub record UploadFile : Type 0 where
  pub content : Bytes
  pub content_type : Option String
  pub filename : Option String

-- `f(text) or default` of a text that may be missing
abbrev pub or_default : Option String → String → String
or_default none default = default
or_default (some s) default = if s == "" then default else s

-- `_validate_upload`; `str` of a number and of the list of types are parameters
unfoldable pub validate_upload :
    (ℕ → String) → (List String → String) → Settings → Bytes → String → Result {0} Unit
validate_upload str_int str_list settings content content_type =
    let size = length content in
    if size == 0
    then err (app_error 400 "empty file")
    else if ltb settings.avatar_max_bytes size
    then err (
        app_error 413
          (join ("file exceeds maximum " ∷ str_int settings.avatar_max_bytes ∷ " bytes" ∷ [])))
    else if is_in content_type settings.avatar_allowed_mimetypes
    then ok tt
    else err (
        app_error 400 (
          join (
            "unsupported content type; allowed: "
            ∷ str_list settings.avatar_allowed_mimetypes
            ∷ [])))

-- `_to_media_ref`
abbrev pub to_media_ref : MediaResources → MediaRef
to_media_ref media = record {
  media_id = media.id;
  bucket = media.bucket;
  key = media.path;
  size_bytes = media.size_bytes;
  mimetype = media.mimetype;
  purpose = media.purpose;
}

-- `max(1, min(ttl, seconds))`
abbrev pub effective_ttl : ℤ → ℕ → ℕ
effective_ttl (pos n) seconds = max 1 (min n seconds)
effective_ttl (negsuc n) seconds = 1

module _ (h : Host) (f : Formats) {O : Type 0} (b : StorageBackend O) (settings : Settings) where
  -- `_publish_event`: any exception of the bus is dropped
  unfoldable pub publish_event : String → String → Json → Fields → Exec (World (Store O)) Unit
  unfolding event_envelope publish
  publish_event type aggregate_id tenant_id payload = do
    envelope ← event_envelope h type aggregate_id tenant_id payload
    catch (publish h "onboarding" envelope >> pure tt) (λ _. pure tt)

  -- `str(identity.tenant_id) if identity.tenant_id else None`; no UUID object is falsy
  abbrev pub tenant_text : Identity → Json
  tenant_text identity = elim identity.tenant_id [ none ↦ null | some t ↦ str (h.str_uuid t) ]

  abbrev pub lift_result : {A : Type 0} → Result A → Exec (World (Store O)) A
  lift_result r w = (r, w)

  -- `upload_my_avatar`
  unfoldable pub upload_my_avatar :
      (ℕ → String)
      → (List String → String)
      → UploadFile
      → Identity
      → Exec (World (Store O)) MediaRef
  upload_my_avatar str_int str_list file identity = do
    let content_type = or_default file.content_type "application/octet-stream"
    _ ← lift_result (validate_upload str_int str_list settings file.content content_type)
    media ← upload_avatar h f b (record {
      tenant_id = identity.tenant_id;
      user_id = identity.user_id;
      content = file.content;
      filename = or_default file.filename "avatar.bin";
      content_type = content_type;
      size_bytes = length file.content;
    })
    _ ← publish_event "user.avatar.changed" (h.str_uuid identity.user_id) (tenant_text identity) (
        field "user_id" (str (h.str_uuid identity.user_id)) (
          field "media_id" (str (h.str_uuid media.id)) (
            field "mimetype" (str media.mimetype) (field "size_bytes" (num media.size_bytes) nil))))
    pure (to_media_ref media)

  abbrev pub or_no_avatar :
      {A : Type 0}
      → Option MediaResources
      → (MediaResources → Exec (World (Store O)) A)
      → Exec (World (Store O)) A
  or_no_avatar none k = raise (app_error 404 "no avatar")
  or_no_avatar (some media) k = k media

  -- `get_my_avatar`
  unfoldable pub get_my_avatar : Identity → Exec (World (Store O)) String
  unfolding get_avatar
  get_my_avatar identity = do
    media ← get_avatar h f b identity.user_id
    or_no_avatar media (λ m. presigned_url_for h f b m (pos settings.presign_ttl_seconds))

  abbrev pub announce_removed : Identity → Bool → Exec (World (Store O)) Unit
  announce_removed identity false = raise (app_error 404 "no avatar")
  announce_removed identity true =
      publish_event "user.avatar.removed" (h.str_uuid identity.user_id) (tenant_text identity)
        (field "user_id" (str (h.str_uuid identity.user_id)) nil)

  -- `delete_my_avatar`
  unfoldable pub delete_my_avatar : Identity → Exec (World (Store O)) Unit
  unfolding delete_avatar publish_event
  delete_my_avatar identity = do
    deleted ← delete_avatar h f b identity.user_id
    announce_removed identity deleted

  abbrev pub presign_owned : Identity → ℤ → Option MediaResources → Exec (World (Store O)) String
  presign_owned identity ttl none = raise (app_error 404 "media not found")
  presign_owned identity ttl (some media) =
      if is_user identity.user_id media.user_id
      then presigned_url_for h f b media (pos (effective_ttl ttl settings.presign_ttl_seconds))
      else raise (app_error 403 "not the owner")

  -- `presign_media_public`
  unfoldable pub presign_media_public : ℕ → ℤ → Identity → Exec (World (Store O)) String
  unfolding media_by_id
  presign_media_public media_id ttl identity = do
    media ← query (λ db. media_by_id media_id db.rows)
    presign_owned identity ttl media

  -- `get_avatar` of the internal router
  unfoldable pub internal_get_avatar : ℕ → Exec (World (Store O)) MediaRef
  unfolding get_avatar
  internal_get_avatar user_id = do
    media ← get_avatar h f b user_id
    or_no_avatar media (λ m. pure (to_media_ref m))

  abbrev pub presign_found : ℤ → Option MediaResources → Exec (World (Store O)) String
  presign_found ttl none = raise (app_error 404 "media not found")
  presign_found ttl (some media) = presigned_url_for h f b media ttl

  -- `presign_media` of the internal router
  unfoldable pub presign_media : ℕ → ℤ → Exec (World (Store O)) String
  unfolding media_by_id
  presign_media media_id ttl = do
    media ← query (λ db. media_by_id media_id db.rows)
    presign_found ttl media
