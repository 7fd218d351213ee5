-- ===== src/Files/Manager.antt =====
-- services/files-service/app/storage/manager.py. The state is the table's committed rows and the state
-- of the storage backend.
pub mod Rows
pub mod Avatars
pub mod Uploads
pub mod Lost
use back_end.Prelude.{
  ℕ, zero, suc, String, Bool, true, false, Option, none, some, List, [], ◌∷◌, ◌++◌, ◌==◌, string_eq,
  nat_eq, if◌then◌else◌, ◌&&◌, ◌||◌, leb, code, Char, join, find,
}
use Prim.Native.String
use back_end.Prelude.Exec.{Exec, Result, ok, err, raised, raise, pure, ◌>>=◌, ◌>>◌}
use back_end.Prelude.Text.{take, strip_by}
use back_end.Shared.Events.{World, draw, query, write}
use back_end.Shared.Host.{Host}
use back_end.Shared.Identity.{ℤ}
use back_end.Shared.Json.{str, nil, field}
use back_end.Files.Models.{
  MediaResources, MediaPurpose, is_profile_photo, profile_photo, image, Bytes,
}
use back_end.Files.Storage.{StorageBackend}

pub record Store (O : Type 0) : Type 0 where
  pub rows : List MediaResources
  pub objects : O

-- A character that `[^A-Za-z0-9._-]` does not match, by its code.
abbrev pub is_safe : ℕ → Bool
is_safe n =
    (leb 65 n && leb n 90)
    || (leb 97 n && leb n 122)
    || (leb 48 n && leb n 57)
    || n == 46
    || n == 95
    || n == 45

-- `_UNSAFE.sub("_", name)`
unfoldable pub replace_unsafe : String → String
replace_unsafe (String.[]) = ""
replace_unsafe (String.◌∷◌ c s) =
    let rest = replace_unsafe s in
    if is_safe (code c) then String.◌∷◌ c rest else join ("_" ∷ rest ∷ [])

abbrev pub is_punctuation : Char → Bool
is_punctuation c = code c == 46 || code c == 95 || code c == 45

-- `_safe_filename`, which no code calls
unfoldable pub safe_filename : String → String
unfolding replace_unsafe strip_by
safe_filename name =
    let cleaned = strip_by is_punctuation (replace_unsafe name) in
    if cleaned == "" then "file" else cleaned

-- What follows the last dot, if there is one.
unfoldable pub after_last_dot : String → Option String
after_last_dot (String.[]) = none
after_last_dot (String.◌∷◌ c s) = elim (after_last_dot s) [
  | some rest ↦ some rest
  | none ↦ if code c == 46 then some s else none
]

-- `filename.rsplit(".", 1)[-1] or "bin"`
abbrev pub or_bin : String → String
or_bin s = if s == "" then "bin" else s

abbrev pub last_part : String → String
last_part filename = elim (after_last_dot filename) [ none ↦ filename | some rest ↦ rest ]

-- `ext`, with `str.lower`
unfoldable pub extension : (String → String) → String → String
unfolding after_last_dot take
extension lower filename = take 8 (lower (or_bin (last_part filename)))

-- `MediaResources.user_id == user_id`, at a column that may be NULL
abbrev pub is_user : ℕ → Option ℕ → Bool
is_user user_id none = false
is_user user_id (some u) = u == user_id

abbrev pub is_avatar : ℕ → MediaResources → Bool
is_avatar user_id row = is_user user_id row.user_id && is_profile_photo row.purpose

-- The statement of `get_avatar`, and `.first()`.
unfoldable pub avatar_of : ℕ → List MediaResources → Option MediaResources
avatar_of user_id = find (is_avatar user_id)

-- `session.get(MediaResources, id)`
unfoldable pub media_by_id : ℕ → List MediaResources → Option MediaResources
media_by_id id = find λ row. row.id == id

-- `db.delete(row)`: the rows with other primary keys.
unfoldable pub delete_row : ℕ → List MediaResources → List MediaResources
delete_row id [] = []
delete_row id (row ∷ rows) =
    let rest = delete_row id rows in if row.id == id then rest else row ∷ rest

abbrev pub is_some {ℓ} : {A : Type ℓ} → Option A → Bool
is_some none = false
is_some (some _) = true

-- `str.lower`, `f"{now:%Y%m%d}"` and `isoformat`
pub record Formats : Type 0 where
  pub lower : String → String
  pub date : ℕ → String
  pub isoformat : ℕ → String

-- What an upload is called with.
pub record Upload : Type 0 where
  pub tenant_id : Option ℕ
  pub user_id : ℕ
  pub content : Bytes
  pub filename : String
  pub content_type : String
  pub size_bytes : ℕ

module _ (h : Host) (f : Formats) {O : Type 0} (b : StorageBackend O) where
  abbrev pub put_back : {A : Type 0} → World (Store O) → Result A × O → Result A × World (Store O)
  put_back w (outcome, objects) = (outcome, record w { db = record w.db { objects = objects } })

  -- An operation of the backend.
  abbrev pub on_backend : {A : Type 0} → Exec O A → Exec (World (Store O)) A
  on_backend op w = put_back w (op w.db.objects)

  -- `db.delete(row)`, `db.commit()`
  abbrev pub commit_delete : ℕ → Exec (World (Store O)) Unit
  commit_delete id w = (ok tt, record w { db = record w.db { rows = delete_row id w.db.rows } })

  -- `db.add(row)`, `db.flush()`: a primary key that is there already raises.
  abbrev pub flush_row : MediaResources → Exec (World (Store O)) Unit
  flush_row row w =
      if is_some (media_by_id row.id w.db.rows)
      then (err (raised "IntegrityError"), w)
      else (ok tt, w)

  -- `db.commit()` of the row that was flushed
  abbrev pub commit_row : MediaResources → Exec (World (Store O)) Unit
  commit_row row w = (ok tt, record w { db = record w.db { rows = w.db.rows ++ row ∷ [] } })

  -- `get_avatar`
  unfoldable pub get_avatar : ℕ → Exec (World (Store O)) (Option MediaResources)
  unfolding avatar_of
  get_avatar user_id = query (λ db. avatar_of user_id db.rows)

  -- The object of a row, then the row.
  unfoldable pub drop_media : MediaResources → Exec (World (Store O)) Unit
  unfolding delete_row
  drop_media row = do _ ← on_backend (b.delete_object row.bucket row.path); commit_delete row.id

  abbrev pub drop_existing : Option MediaResources → Exec (World (Store O)) Unit
  drop_existing none = pure tt
  drop_existing (some row) = drop_media row

  abbrev pub media_row : Upload → String → String → ℕ → ℕ → ℕ → MediaResources
  media_row u ext key replaced_at id created_at = record {
    id = id;
    tenant_id = u.tenant_id;
    user_id = some u.user_id;
    original_filename = u.filename;
    media_type = image;
    purpose = profile_photo;
    mimetype = u.content_type;
    format = ext;
    size_bytes = u.size_bytes;
    bucket = "avatars";
    path = key;
    is_public = false;
    meta =
        field "content_type" (str u.content_type)
          (field "extension" (str ext) (field "replaced_at" (str (f.isoformat replaced_at)) nil));
    created_at = created_at;
  }

  -- The new row, its object, and the commit of the row.
  unfoldable pub store_media : Upload → MediaResources → Exec (World (Store O)) MediaResources
  unfolding media_by_id
  store_media u row = do
    _ ← flush_row row
    _ ← on_backend (b.put_object row.bucket row.path u.content u.size_bytes u.content_type)
    _ ← commit_row row
    pure row

  -- From the construction of the row on; its defaults are drawn after its arguments.
  unfoldable pub create_media : Upload → String → String → Exec (World (Store O)) MediaResources
  unfolding store_media
  create_media u ext key = do
    replaced_at ← draw h.utcnow
    id ← draw h.uuid4
    created_at ← draw h.utcnow
    store_media u (media_row u ext key replaced_at id created_at)

  -- `upload_avatar`
  unfoldable pub upload_avatar : Upload → Exec (World (Store O)) MediaResources
  unfolding get_avatar drop_media create_media extension
  upload_avatar u = do
    let ext = extension f.lower u.filename
    random_suffix ← draw (λ k. h.token_urlsafe k 8)
    now ← draw h.utcnow
    let key =
        join (
          "users/" ∷ h.str_uuid u.user_id ∷ "/" ∷ f.date now ∷ "-" ∷ random_suffix ∷ "." ∷ ext ∷ [])
    existing ← get_avatar u.user_id
    _ ← drop_existing existing
    create_media u ext key

  abbrev pub delete_found : Option MediaResources → Exec (World (Store O)) Bool
  delete_found none = pure false
  delete_found (some row) = do _ ← drop_media row; pure true

  -- `delete_avatar`
  unfoldable pub delete_avatar : ℕ → Exec (World (Store O)) Bool
  unfolding get_avatar drop_media
  delete_avatar user_id = do existing ← get_avatar user_id; delete_found existing

  -- `presigned_url_for`
  abbrev pub presigned_url_for : MediaResources → ℤ → Exec (World (Store O)) String
  presigned_url_for media ttl_seconds =
      on_backend (b.presigned_get_url media.bucket media.path ttl_seconds)
