-- ===== src/Auth/Avatars.antt =====
-- services/auth-service/app/services/avatars_read.py
pub mod Reads
use back_end.Prelude.{
  ℕ, String, Bool, true, false, Option, none, some, [], ◌∷◌, ◌==◌, nat_eq, string_eq, if◌then◌else◌,
  join, leb,
}
use back_end.Prelude.Exec.{Exec, raised, raise, pure, catch, ◌>>=◌}
use back_end.Shared.Exceptions.{not_found_error}
use back_end.Shared.Json.{Json, null, str, Fields, get}
use back_end.Shared.Events.{World, draw}
use back_end.Auth.Db.{AuthDb}
use back_end.Auth.App.{App, HttpResponse}

pub record AvatarSummary : Type 0 where
  pub has_avatar : Bool
  -- the text that files-service sent, or `null`
  pub avatar_url : Json

pub record MediaRef : Type 0 where
  pub media_id : ℕ
  -- as files-service sent them: the class does not check their types
  pub bucket : Json
  pub key : Json
  pub size_bytes : Json
  pub mimetype : Json
  pub purpose : Json

abbrev pub no_avatar : AvatarSummary
no_avatar = record { has_avatar = false; avatar_url = null }

abbrev text_of : Option Json → Option String
text_of (some (str s)) = some s
text_of _ = none

infixl 5 ◌>>=?◌
abbrev ◌>>=?◌ : {A B : Type 0} → Option A → (A → Option B) → Option B
none >>=? f = none
some a >>=? f = f a

module _ (a : App) where
  abbrev pub body_of : Option Fields → Exec (World AuthDb) Fields
  body_of none = raise (raised "ValueError")
  body_of (some body) = pure body

  -- By the response: 404 is `NotFoundError`, `raise_for_status` raises from 400 on, and the body
  -- must be a JSON object.
  abbrev pub read_response : String → Option HttpResponse → Exec (World AuthDb) Fields
  read_response missing none = raise (raised "HTTPError")
  read_response missing (some resp) =
      if resp.status_code == 404
      then raise (not_found_error missing)
      else if leb 400 resp.status_code
      then raise (raised "HTTPStatusError")
      else body_of resp.json

  -- `self.get(path)` and what is made of its response
  unfoldable pub get_json : String → String → Exec (World AuthDb) Fields
  get_json path missing = do sent ← draw (λ k. a.files_get k path); read_response missing sent

  -- Every key is read: a missing one, or a `media_id` that is no UUID, raises.
  abbrev pub media_ref : Fields → Option MediaRef
  media_ref body = text_of (get "media_id" body) >>=? λ raw. a.parse_uuid raw >>=? λ media_id.
      get "bucket" body >>=? λ bucket. get "key" body >>=? λ key.
      get "size_bytes" body >>=? λ size_bytes. get "mimetype" body >>=? λ mimetype.
      get "purpose" body >>=? λ purpose. some (record {
        media_id = media_id;
        bucket = bucket;
        key = key;
        size_bytes = size_bytes;
        mimetype = mimetype;
        purpose = purpose;
      })

  abbrev pub or_raise : {A : Type 0} → Option A → Exec (World AuthDb) A
  or_raise none = raise (raised "KeyError")
  or_raise (some x) = pure x

  -- `FilesReadClient.get_avatar`
  unfoldable pub get_avatar : ℕ → Exec (World AuthDb) MediaRef
  unfolding get_json
  get_avatar user_id = do
    body ←
        get_json (join ("/internal/files/users/" ∷ a.str_uuid user_id ∷ "/avatar" ∷ [])) "no avatar"
    or_raise (media_ref body)

  -- `FilesReadClient.presign`
  unfoldable pub presign : ℕ → ℕ → Exec (World AuthDb) Json
  unfolding get_json
  presign media_id ttl_seconds = do
    body ←
        get_json
          (join (
            "/internal/files/media/"
            ∷ a.str_uuid media_id
            ∷ "/presign?ttl="
            ∷ a.str_int ttl_seconds
            ∷ []))
          "media not found"
    or_raise (get "url" body)

  -- Both `except` clauses return the summary of a user with no avatar.
  unfoldable pub get_avatar_summary : ℕ → Exec (World AuthDb) AvatarSummary
  unfolding get_avatar presign
  get_avatar_summary user_id =
      catch
        (do
          media ← get_avatar user_id
          url ← presign media.media_id a.presign_ttl_seconds
          pure (record { has_avatar = true; avatar_url = url }))
        (λ _. pure no_avatar)
