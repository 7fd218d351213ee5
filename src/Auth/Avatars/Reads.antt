-- ===== src/Auth/Avatars/Reads.antt =====
-- Reading the summary of a user's avatar leaves the tables as they are.
use back_end.Prelude.{ℕ, suc, String, Option, none, some, refl, ◌==◌, nat_eq, leb}
use back_end.Prelude.Exec.{Exn, raise}
use back_end.Shared.Json.{Fields}
use back_end.Shared.Events.{World}
use back_end.Shared.Events.Same.{Same, Same-bind, Same-pure, Same-catch, Same-if}
use back_end.Auth.Db.{AuthDb}
use back_end.Auth.App.{App, HttpResponse}
use back_end.Auth.Avatars.{
  get_json, body_of, read_response, or_raise, get_avatar, presign, get_avatar_summary, no_avatar,
}

module _ (a : App) where
  or_raise-Same : {A : Type 0} (o : Option A) → Same (or_raise a o)
  or_raise-Same none = record { keeps = λ w. refl }
  or_raise-Same (some x) = Same-pure x

  raise-Same : {A : Type 0} (e : Exn) → Same (raise {S = World AuthDb} {A = A} e)
  raise-Same e = record { keeps = λ w. refl }

  body_of-Same : (o : Option Fields) → Same (body_of a o)
  body_of-Same none = raise-Same _
  body_of-Same (some body) = Same-pure body

  read_response-Same :
      (missing : String) (o : Option HttpResponse) → Same (read_response a missing o)
  read_response-Same missing none = raise-Same _
  read_response-Same missing (some resp) =
      Same-if (resp.status_code == 404) _ _ (raise-Same _)
        (Same-if (leb 400 resp.status_code) _ _ (raise-Same _) (body_of-Same resp.json))

  get_json-Same : (path missing : String) → Same (get_json a path missing)
  unfolding get_json
  get_json-Same path missing = record {
    keeps = λ w.
        (read_response-Same missing (a.files_get w.draws path)).keeps
          (record w { draws = suc w.draws });
  }

  get_avatar-Same : (user_id : ℕ) → Same (get_avatar a user_id)
  unfolding get_avatar
  get_avatar-Same user_id = Same-bind _ _ (get_json-Same _ _) (λ body. or_raise-Same _)

  presign-Same : (media_id ttl_seconds : ℕ) → Same (presign a media_id ttl_seconds)
  unfolding presign
  presign-Same media_id ttl_seconds = Same-bind _ _ (get_json-Same _ _) (λ body. or_raise-Same _)

  pub get_avatar_summary-Same : (user_id : ℕ) → Same (get_avatar_summary a user_id)
  unfolding get_avatar_summary
  get_avatar_summary-Same user_id =
      Same-catch _ _
        (Same-bind _ _ (get_avatar-Same user_id)
          (λ media. Same-bind _ _ (presign-Same _ _) (λ url. Same-pure _)))
        (λ e. Same-pure no_avatar)
