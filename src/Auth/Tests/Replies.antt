-- ===== src/Auth/Tests/Replies.antt =====
-- Ada's login through its endpoint.
use back_end.Prelude.{some, none, true, false, find, [], ◌∷◌, ◌≡◌, refl, nat_eq, string_eq}
use back_end.Prelude.Text.{len}
use back_end.Prelude.Exec.{ok}
use back_end.Shared.Json.{null}
use back_end.Shared.Events.{World}
use back_end.Auth.Db.{AuthDb, user_by_email, commit_token, token_conflicts}
use back_end.Auth.Tokens.{hash_refresh}
use back_end.Auth.Avatars.{get_avatar_summary, get_avatar, get_json}
use back_end.Auth.Login.{authenticate_and_open_session}
use back_end.Auth.Controller.{Request, LoginResponse, set_cookie, build_user_response, login}
use back_end.Auth.Schemas.{Validators, login_request, bounded, user_update_request}
use back_end.Auth.Router.{Reply, login_endpoint}
use back_end.Auth.Router.Cookies.{IsLoggedIn, login_endpoint-IsLoggedIn}
use back_end.Auth.Tests.Setup.{ada, app, world}

abbrev validators : Validators
validators = record { email = λ s. some s; phone = λ s. some (true, s); zone = λ s. none }

abbrev careful : World AuthDb
careful = record world {
  db = record { users = record ada { password_hash = some "$password" } ∷ []; refresh_tokens = [] };
}

abbrev request : Request
request = record { client_ip = none; user_agent = none }

abbrev reply : Reply LoginResponse
reply = record {
  status_code = 200;
  content = record {
    access_token = "jwt";
    token_type = "bearer";
    expires_in = 900;
    user = record {
      user_id = "i";
      tenant_id = some "iiiiiii";
      email = "ada@example.com";
      full_name = some "Ada";
      phone = none;
      status = "active";
      has_avatar = false;
      avatar_url = null;
      created_at = "";
      modified_at = "";
    };
  };
  set_cookie = some (set_cookie "refresh_token" "i" true true "lax" "/" none 3600);
}

answered : (login_endpoint app validators "ada@example.com" "password" request careful).0 ≡ ok reply
unfolding login_endpoint login_request bounded len login authenticate_and_open_session user_by_email
    find commit_token token_conflicts hash_refresh build_user_response get_avatar_summary get_avatar
    get_json
answered = refl

login_endpoint-IsLoggedIn_example :
    IsLoggedIn app validators "ada@example.com" "password" careful.db
      (login_endpoint app validators "ada@example.com" "password" request careful).1.db
      reply
login_endpoint-IsLoggedIn_example =
    login_endpoint-IsLoggedIn app validators "ada@example.com" "password" request careful reply
      answered

-- A user may change the phone to a text that is no number.
any_phone : user_update_request none (some "no phone") ≡ ok (none, some "no phone")
unfolding user_update_request bounded len
any_phone = refl
