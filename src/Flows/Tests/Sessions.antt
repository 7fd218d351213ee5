-- ===== src/Flows/Tests/Sessions.antt =====
-- Ada logs in, and her token gets her to her avatar.
use back_end.Prelude.{find, none, [], ◌∷◌, ◌≡◌, refl, arith, string_eq, nat_eq}
use back_end.Prelude.Dict
use back_end.Prelude.Exec.{ok}
use back_end.Prelude.Text.{starts_with, strip, strip_by, drop_while, drop_while_end, is_space}
use back_end.Shared.Json.{Fields}
use back_end.Auth.App.{App}
use back_end.Auth.Db.{user_by_email, commit_token, token_conflicts}
use back_end.Auth.Models.{value}
use back_end.Auth.Tests.Setup.{ada, app, app_of, jwt_of, jwt_of-JwtLaws, world, token}
use back_end.Auth.Tokens.{access_claims, hash_refresh}
use back_end.Auth.Login.{LoginOutcome, authenticate, authenticate_and_open_session}
use back_end.Gateway.Guard.{Gateway, Scope, is_public, public_path_prefixes}
use back_end.Gateway.Tests.{settings}
use back_end.Flows.Unary.{marked, len-unary, parse_marked}
use back_end.Flows.Identities.{UuidLaws}
use back_end.Flows.Sessions.{SharesTokens, IsServed, dispatch-authenticate_and_open_session}

abbrev adas_claims : Fields
adas_claims =
    access_claims (record app { host = record app.host { str_uuid = marked } }) ada.id ada.tenant_id
      (value ada.status) 50 950

abbrev services : App
services = record (app_of (jwt_of adas_claims 950)) { host = record app.host { str_uuid = marked } }

abbrev gateway : Gateway
gateway = record { settings = settings; jwt = services.jwt; str_int = marked; str_dict = λ d. "{}" }

abbrev logged_in : LoginOutcome
logged_in = record {
  user = ada;
  access_token = "jwt";
  expires_at = 950;
  refresh_token = "i";
  refresh_expires_at = 3600001002;
  refresh_row = record (token 103 "#i" none) { created_at = 1004; expires_at = 3600001002 };
}

logs_in :
    (authenticate_and_open_session services "ada@example.com" "pw" none none world).0 ≡ ok logged_in
unfolding authenticate_and_open_session authenticate user_by_email find hash_refresh commit_token
    token_conflicts
logs_in = refl

parses : UuidLaws parse_marked marked
parses = record { parse-str = λ u bound. rw (len-unary u) refl; parse_empty = refl }

shares : SharesTokens services gateway parse_marked (λ s. s)
shares = record {
  jwt = refl;
  secret_key = refl;
  uuids = parses;
  lowered = record {
    user_header = refl;
    superuser_header = refl;
    true_text = refl;
    false_text = refl;
  };
  tenant_header = refl;
}

abbrev scope : Scope
scope = record {
  type = "http";
  path = "/api/files/users/me/avatar";
  headers = ("authorization", "Bearer jwt") ∷ ("x-is-superuser", "true") ∷ [];
  client = none;
}

dispatch-authenticate_and_open_session_example :
    IsServed gateway parse_marked (λ s. s) 99 100 scope "/public/files/users/me/avatar" logged_in
unfolding is_public public_path_prefixes starts_with strip strip_by drop_while drop_while_end
    is_space Dict.get
dispatch-authenticate_and_open_session_example =
    dispatch-authenticate_and_open_session services gateway parse_marked (λ s. s) shares
      "ada@example.com" "pw" none none world logged_in 99 100 scope "/public/files/users/me/avatar"
      logs_in (jwt_of-JwtLaws adas_claims 950 refl) (omega arith) (omega arith) refl refl refl refl
      (omega arith) (omega arith) refl
