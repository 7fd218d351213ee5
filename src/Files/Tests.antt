-- ===== src/Files/Tests.antt =====
-- A small media store, and the theorems about services/files-service at work on it.
use back_end.Prelude.{
  ℕ, String, true, false, Option, none, some, [], ◌∷◌, ◌≡◌, refl, arith, ◌==◌, string_eq, nat_eq,
  join, if◌then◌else◌, find,
}
use back_end.Prelude.Dict
use back_end.Prelude.Dict.{Dict}
use back_end.Prelude.Text.{starts_with, strip, drop, strip_by, drop_while, drop_while_end, is_space}
use back_end.Prelude.Exec.{Exn, ok, err, raised, Result}
use back_end.Shared.Events.{World}
use back_end.Shared.Identity.{pos}
use back_end.Shared.Json.{nil}
use back_end.Auth.Tests.Setup.{host, tally}
use back_end.Gateway.Guard.{
  authenticate, sanitized, check_bearer, is_public, public_path_prefixes, served_locally,
  identity_headers, strip_headers, set_headers, identity_dict, identity_headers_from_claims,
  decode_user_token,
}
use back_end.Shared.ServiceToken.{mint_service_token}
use back_end.Gateway.Proxy.{without, hop_by_hop}
use back_end.Gateway.Tests.{gateway, scope, passed}
use back_end.Files.Models.{MediaResources, MediaRef, Bytes, image, profile_photo}
use back_end.Files.Config.{Settings}
use back_end.Files.Storage.{StorageBackend}
use back_end.Files.Storage.Minio.{done, s3_error, Minio, Client}
use back_end.Files.Manager.{
  Store, Formats, Upload, avatar_of, upload_avatar, get_avatar, delete_avatar, media_by_id,
  media_row,
}
use back_end.Files.Manager.Rows.{count}
use back_end.Files.Manager.Avatars.{HasOneAvatar}
use back_end.Files.Manager.Uploads.{
  IsDeleted, upload_avatar-HasOneAvatar, get_avatar-upload_avatar, delete_avatar-IsDeleted,
}
use back_end.Files.Manager.Lost.{get_avatar-upload_avatar_lost}
use back_end.Files.Auth.{Identity, Outcome, calls, responds, raises, dispatch, parse_uuid}
use back_end.Files.Auth.Vouched.{LowerLaws, IsCaller, dispatch-authenticate}
use back_end.Files.Routers.{
  UploadFile, presign_media_public, upload_my_avatar, validate_upload, publish_event,
}
use back_end.Files.Routers.Uploads.{IsUploaded, upload_my_avatar-IsUploaded}
use back_end.Files.Routers.Ownership.{IsOwn, presign_media_public-IsOwn}

abbrev formats : Formats
formats = record { lower = λ s. s; date = λ n. "day"; isoformat = λ n. "time" }

-- A backend that keeps objects by their keys.
abbrev storage : StorageBackend (Dict String Bytes)
storage = record {
  put_object =
      λ bucket key content size content_type objects. (ok tt, Dict.put key content objects);
  get_object = λ bucket key objects.
      (elim (Dict.get key objects) [ none ↦ err (raised "S3Error") | some x ↦ ok x ], objects);
  delete_object = λ bucket key objects. (ok tt, Dict.pop key objects);
  presigned_get_url = λ bucket key expires objects. (ok (join ("url:" ∷ key ∷ [])), objects);
  ensure_bucket = λ bucket objects. (ok tt, objects);
  set_bucket_public = λ bucket is_public objects. (ok tt, objects);
}

-- One that does not write.
abbrev full_storage : StorageBackend (Dict String Bytes)
full_storage = record storage {
  put_object = λ bucket key content size content_type objects. (err (raised "S3Error"), objects);
}

abbrev old_row : MediaResources
old_row = record {
  id = 1;
  tenant_id = none;
  user_id = some 7;
  original_filename = "me.png";
  media_type = image;
  purpose = profile_photo;
  mimetype = "image/png";
  format = "png";
  size_bytes = 2;
  bucket = "avatars";
  path = "users/7/old.png";
  is_public = false;
  meta = nil;
  created_at = 0;
}

abbrev world : World (Store (Dict String Bytes))
world = record {
  db = record { rows = old_row ∷ []; objects = ("users/7/old.png", 1 ∷ 2 ∷ []) ∷ [] };
  published = [];
  draws = 0;
}

abbrev upload : Upload
upload = record {
  tenant_id = none;
  user_id = 7;
  content = 3 ∷ 4 ∷ 5 ∷ [];
  filename = "new.webp";
  content_type = "image/webp";
  size_bytes = 3;
}

world-HasOneAvatar : HasOneAvatar world.db.rows
unfolding count
world-HasOneAvatar user = ground arith

upload_avatar-HasOneAvatar_example :
    HasOneAvatar (upload_avatar host formats storage upload world).1.db.rows
upload_avatar-HasOneAvatar_example =
    upload_avatar-HasOneAvatar host formats storage upload world world-HasOneAvatar

abbrev new_row : MediaResources
new_row = media_row host formats storage upload "webp" "users/iiiiiii/day-.webp" 1002 103 1004

get_avatar-upload_avatar_example :
    (get_avatar host formats storage 7 (upload_avatar host formats storage upload world).1).0
    ≡ ok (some new_row)
unfolding upload_avatar find
get_avatar-upload_avatar_example =
    get_avatar-upload_avatar host formats storage upload world {row = new_row} world-HasOneAvatar
      refl

get_avatar-upload_avatar_lost_example :
    ((e : Exn) × ((upload_avatar host formats full_storage upload world).0 ≡ err e))
    × ((get_avatar host formats full_storage 7
          (upload_avatar host formats full_storage upload world).1).0
        ≡ ok none)
unfolding avatar_of find
get_avatar-upload_avatar_lost_example =
    get_avatar-upload_avatar_lost host formats full_storage upload world {old = old_row}
      world-HasOneAvatar refl refl
      (λ bucket key content size content_type objects. (raised "S3Error", refl))

delete_avatar-IsDeleted_example :
    IsDeleted 7 world.db.rows (delete_avatar host formats storage 7 world)
delete_avatar-IsDeleted_example =
    delete_avatar-IsDeleted host formats storage 7 world world-HasOneAvatar

-- A package whose calls all go through.
abbrev minio : Minio ℕ
minio = record {
  put_object = λ url bucket key content size content_type s. (done tt, s);
  get_object = λ url bucket key s. (done [], s);
  remove_object = λ url bucket key s. (s3_error "NoSuchKey", s);
  presigned_get_object = λ url bucket key expires s. (done (join (url.host ∷ "/" ∷ key ∷ [])), s);
  bucket_exists = λ url bucket s. (done true, s);
  make_bucket = λ url bucket s. (done tt, s);
  read_policy = λ resource. resource;
  set_bucket_policy = λ url bucket policy s. (done tt, s);
  delete_bucket_policy = λ url bucket s. (done tt, s);
  base_url_of =
      λ text region. ok (record { scheme = "http"; host = "localhost:9000"; region = region });
}

abbrev client : Client ℕ
client = record {
  base_url = record { scheme = "http"; host = "minio:9000"; region = "" };
  store = 0;
}

abbrev settings : Settings
settings = record {
  service_name = "files-service";
  secret_key = "key";
  storage_backend = "minio";
  minio_endpoint = "minio:9000";
  minio_public_endpoint = "localhost:9000";
  minio_root_user = "root";
  minio_root_password = "root";
  minio_secure = false;
  init_buckets = [];
  init_buckets_json = "";
  presign_ttl_seconds = 300;
  avatar_max_bytes = 100;
  avatar_allowed_mimetypes = "image/png" ∷ [];
}

abbrev ada : Identity
ada = record { user_id = 7; tenant_id = none; is_superuser = false }

presign_media_public-IsOwn_example :
    IsOwn storage settings ada (media_by_id 1 world.db.rows) world.db.objects "url:users/7/old.png"
unfolding presign_media_public find
presign_media_public-IsOwn_example =
    presign_media_public-IsOwn host formats storage settings 1 (pos 9000) ada world refl

abbrev png : UploadFile
png = record { content = 3 ∷ 4 ∷ []; content_type = some "image/png"; filename = some "new.png" }

abbrev uploaded : Result MediaRef × World (Store (Dict String Bytes))
uploaded = upload_my_avatar host formats storage settings tally (λ s. "") png ada world

abbrev png_ref : MediaRef
png_ref = record {
  media_id = 103;
  bucket = "avatars";
  key = "users/iiiiiii/day-.png";
  size_bytes = 2;
  mimetype = "image/png";
  purpose = profile_photo;
}

upload_my_avatar-IsUploaded_example :
    IsUploaded host formats storage settings png ada png_ref uploaded.1
unfolding upload_my_avatar find validate_upload upload_avatar publish_event
upload_my_avatar-IsUploaded_example =
    upload_my_avatar-IsUploaded host formats storage settings tally (λ s. "") png ada world
      world-HasOneAvatar refl

-- `str.lower`, at the texts that the program compares.
lower-LowerLaws : LowerLaws (λ s. s)
lower-LowerLaws = record {
  user_header = refl;
  superuser_header = refl;
  true_text = refl;
  false_text = refl;
}

abbrev parse : String → Option ℕ
parse s = if s == "u7" then some 7 else none

abbrev or_none : Outcome → Option Identity
or_none (calls state) = state
or_none (responds _) = none
or_none (raises _) = none

abbrev state : Option Identity
state = some (record { user_id = 7; tenant_id = none; is_superuser = true })

dispatch-authenticate_example : IsCaller gateway parse 40 41 scope passed state
unfolding dispatch parse_uuid without hop_by_hop authenticate sanitized check_bearer is_public
    public_path_prefixes served_locally identity_headers strip_headers set_headers identity_dict
    identity_headers_from_claims decode_user_token mint_service_token starts_with strip drop
    strip_by drop_while drop_while_end is_space Dict.get Dict.put Dict.pop
dispatch-authenticate_example =
    dispatch-authenticate gateway parse (λ s. s) 40 41 scope passed "/public/files/users/me/avatar"
      lower-LowerLaws refl refl refl refl refl
