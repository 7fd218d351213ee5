-- ===== src/Auth/Tests/Sessions.antt =====
-- Refreshing Ada's sessions.
use back_end.Prelude.{
  String, List, ◌≢◌, find, nat_eq, string_eq, some, none, some, [], ◌∷◌, ◌≡◌, refl, inl, map, ◌++◌,
}
use back_end.Prelude.Exec.{ok}
use back_end.Prelude.Distinct.{overwrite, contains}
use back_end.Auth.Login.{LoginOutcome, authenticate_and_open_session}
use back_end.Auth.Controller.{Request}
use back_end.Auth.Models.{User, RefreshToken}
use back_end.Auth.Logout.{revoke_session_for_token}
use back_end.Auth.Service.{Op, logs_in, logs_out, ends_onboarding, serve, serve_all}
use back_end.Auth.Service.Grows.{Grows}
use back_end.Auth.Service.Steps.{serve_all-Grows}
use back_end.Auth.Service.Replays.{rotate_refresh_once, rotate_refresh_revoked, logout_refused}
use back_end.Auth.Db.{
  user_by_email, token_by_hash, user_by_id, put_user, put_token, commit_token, token_conflicts,
}
use back_end.Auth.Db.Laws.{IsValid}
use back_end.Auth.Refresh.{RefreshOutcome, rotate_refresh, rotate}
use back_end.Auth.Refresh.Rotation.{Renews, rotate_refresh-Renews}
use back_end.Auth.Refresh.Reuse.{Ends, rotate_refresh_over}
use back_end.Auth.Tokens.{hash_refresh}
use back_end.Auth.Tests.Setup.{ada, app, db, world, token}

db-IsValid : IsValid db
unfolding contains
db-IsValid = record {
  user_ids = (refl, (refl, tt));
  user_emails = (refl, (refl, tt));
  ids_of_tokens = (refl, (refl, tt));
  hashes_of_tokens = (refl, (refl, tt));
}

-- What the refresh with the token "a" returns.
abbrev renewed : RefreshOutcome
renewed = record {
  user = ada;
  access_token = "jwt";
  expires_at = 951;
  new_refresh_token = "ii";
  refresh_expires_at = 3600001003;
  new_refresh_row = record {
    id = 104;
    user_id = 1;
    tenant_id = some 7;
    token_hash = "#ii";
    created_at = 1005;
    expires_at = 3600001003;
    revoked_at = none;
    revoked_reason = none;
    ip = none;
    user_agent = none;
  };
}

refresh_renews : (rotate_refresh app "a" none none world).0 ≡ ok renewed
unfolding rotate_refresh token_by_hash user_by_id put_token commit_token hash_refresh find overwrite
    token_conflicts rotate
refresh_renews = refl

found_revoked :
    token_by_hash (hash_refresh app "b") db.refresh_tokens ≡ some (token 11 "#b" (some 900))
unfolding token_by_hash find hash_refresh
found_revoked = refl

rotate_refresh-Renews_example :
    Renews app (hash_refresh app "a") 1000 renewed db (rotate_refresh app "a" none none world).1.db
rotate_refresh-Renews_example =
    rotate_refresh-Renews app "a" none none world renewed db-IsValid refresh_renews

rotate_refresh_over_example :
    let (r, w) = rotate_refresh app "b" none none world in Ends 1 r db w.db
rotate_refresh_over_example =
    rotate_refresh_over app "b" (token 11 "#b" (some 900)) none none world found_revoked
      (inl (λ e. cc))

abbrev http : Request
http = record { client_ip = none; user_agent = none }

-- Requests that come in between, the end of Bob's onboarding among them.
abbrev ops : List Op
ops = logs_in "ada@example.com" "pw" http ∷ ends_onboarding 2 9 http ∷ logs_out (some "c") ∷ []

-- The end of Bob's onboarding gives him his tenant and a session there.
onboarding_ends :
    let after = (serve app (ends_onboarding 2 9 http) world).db in
    (map (λ (u : User). u.tenant_id) after.users ≡ some 7 ∷ some 9 ∷ [])
    × (map (λ (t : RefreshToken). t.user_id) after.refresh_tokens
        ≡ map (λ (t : RefreshToken). t.user_id) db.refresh_tokens ++ 2 ∷ [])
unfolding serve find overwrite commit_token token_conflicts hash_refresh user_by_id contains
    put_user
onboarding_ends = (refl, refl)

rotate_refresh_once_example :
    let w = serve_all app ops (rotate_refresh app "a" none none world).1 in
    let (r, w') = rotate_refresh app "a" none none w in Ends 1 r w.db w'.db
rotate_refresh_once_example =
    rotate_refresh_once app "a" none none none none world renewed ops db-IsValid refresh_renews

rotate_refresh_revoked_example :
    let w = serve_all app ops world in
    let (r, w') = rotate_refresh app "b" none none w in Ends 1 r w.db w'.db
rotate_refresh_revoked_example =
    rotate_refresh_revoked app "b" (token 11 "#b" (some 900)) ops none none world db-IsValid
      found_revoked (λ e. cc)

abbrev raw : String
raw = "a"

text : raw ≢ ""
text e = cc

found_open : token_by_hash (hash_refresh app "a") db.refresh_tokens ≡ some (token 10 "#a" none)
unfolding token_by_hash find hash_refresh
found_open = refl

logout_refused_example :
    let w = serve_all app ops (revoke_session_for_token app (some "a") world).1 in
    let (r, w') = rotate_refresh app "a" none none w in Ends 1 r w.db w'.db
logout_refused_example =
    logout_refused app "a" (token 10 "#a" none) ops none none world db-IsValid text found_open

serve_all-Grows_example : Grows db (serve_all app ops world).db
serve_all-Grows_example = serve_all-Grows app ops world

-- What Ada's login returns.
abbrev logged_in : LoginOutcome
logged_in = record {
  user = ada;
  access_token = "jwt";
  expires_at = 950;
  refresh_token = "i";
  refresh_expires_at = 3600001002;
  refresh_row = record {
    id = 103;
    user_id = 1;
    tenant_id = some 7;
    token_hash = "#i";
    created_at = 1004;
    expires_at = 3600001002;
    revoked_at = none;
    revoked_reason = none;
    ip = none;
    user_agent = none;
  };
}

login_opens :
    (authenticate_and_open_session app "ada@example.com" "pw" none none world).0 ≡ ok logged_in
unfolding authenticate_and_open_session user_by_email commit_token hash_refresh find token_conflicts
login_opens = refl
