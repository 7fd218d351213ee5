-- ===== src/Auth/Router/Cookies.antt =====
-- The refresh cookie of a response to a login.
use back_end.Prelude.{String, some, List, [], ◌∷◌, ◌≡◌, ◌∙◌, refl, sym, ap, subst}
use back_end.Prelude.Exec.{Result, ok, err, continue, pure}
use back_end.Shared.Events.{World}
use back_end.Shared.Events.Same.{Same, Same-bind, Same-pure}
use back_end.Auth.App.{App}
use back_end.Auth.Db.{AuthDb}
use back_end.Auth.Login.{LoginOutcome, authenticate_and_open_session}
use back_end.Auth.Login.Sessions.{LogsIn, authenticate_and_open_session-LogsIn}
use back_end.Auth.Controller.{
  SetCookie, Request, LoginResponse, UserResponse, refresh_cookie, build_user_response,
  login_response, logged_in, login,
}
use back_end.Auth.Service.Reads.{build_user_response-Same}
use back_end.Auth.Schemas.{Validators, login_request}
use back_end.Auth.Router.{Reply, reply_of, last_cookie, send_login, login_endpoint}

module _ (a : App) where
  -- A response to a login: its cookie holds the token of the session that was opened.
  record OpensSession (email password : String) (cookies : List SetCookie) (before after : AuthDb)
      : Type 0 where
    out : LoginOutcome
    cookie : cookies ≡ refresh_cookie a out.refresh_token ∷ []
    logs_in : LogsIn a email password out before after

  logged_in-cookies :
      (out : LoginOutcome) (r : Result UserResponse × World AuthDb)
      (response : LoginResponse × List SetCookie)
      → (continue r (λ user w.
          pure
            (login_response a out.access_token user, refresh_cookie a out.refresh_token ∷ [])
            w)).0
        ≡ ok response
      → response.1 ≡ refresh_cookie a out.refresh_token ∷ []
  logged_in-cookies out (ok user, w) response h = cc
  logged_in-cookies out (err e, w) response h = cc

  logged_in-Same : (out : LoginOutcome) → Same (logged_in a out)
  logged_in-Same out = Same-bind _ _ (build_user_response-Same a out.user) (λ user. Same-pure _)

  login-OpensSession :
      (email password : String) (request : Request) (w : World AuthDb)
      (response : LoginResponse × List SetCookie)
      → (login a email password request w).0 ≡ ok response
      → OpensSession email password response.1 w.db (login a email password request w).1.db
  unfolding login
  login-OpensSession email password request w response h =
      go (authenticate_and_open_session a email password request.client_ip request.user_agent w)
        (λ out e.
          authenticate_and_open_session-LogsIn a email password request.client_ip request.user_agent
            w out e)
        h
    where
      go :
          (r : Result LoginOutcome × World AuthDb)
          → ((out : LoginOutcome) → r.0 ≡ ok out → LogsIn a email password out w.db r.1.db)
          → (continue r (logged_in a)).0 ≡ ok response
          → OpensSession email password response.1 w.db (continue r (logged_in a)).1.db
      go (ok out, w') logs_in h' = record {
        out = out;
        cookie = logged_in-cookies out (build_user_response a out.user w') response h';
        logs_in =
            subst (LogsIn a email password out w.db) (sym ((logged_in-Same out).keeps w'))
              (logs_in out refl);
      }
      go (err e, w') logs_in h' = cc

-- A response of 200 whose refresh cookie holds the token of a new session of the user with the e-mail
-- and the password of the request.
pub record IsLoggedIn (a : App) (v : Validators) (email password : String) (before after : AuthDb)
    (reply : Reply LoginResponse) : Type 0 where
  pub email' : String
  pub password' : String
  pub accepted : login_request v email password ≡ ok (email', password')
  pub out : LoginOutcome
  pub logs_in : LogsIn a email' password' out before after
  pub status : reply.status_code ≡ 200
  pub cookie : reply.set_cookie ≡ some (refresh_cookie a out.refresh_token)

module _ (a : App) (v : Validators) where
  replied :
      (email' password' : String) (request : Request) (w : World AuthDb)
      (reply : Reply LoginResponse) (r : Result (LoginResponse × List SetCookie) × World AuthDb)
      → ((response : LoginResponse × List SetCookie)
          → r.0 ≡ ok response
          → OpensSession a email' password' response.1 w.db r.1.db)
      → (email password : String) → login_request v email password ≡ ok (email', password')
      → (continue r (λ response. pure (reply_of a v response))).0 ≡ ok reply
      → IsLoggedIn a v email password w.db
          (continue r (λ response. pure (reply_of a v response))).1.db
          reply
  replied email' password' request w reply ((ok (response, cookies)), w') opens email password e h =
      let s = opens (response, cookies) refl in
      let same : reply_of a v (response, cookies) ≡ reply = cc h in
      record {
        email' = email';
        password' = password';
        accepted = e;
        out = s.out;
        logs_in = s.logs_in;
        status = ap (λ (x : Reply LoginResponse). x.status_code) (sym same);
        cookie =
            ap (λ (x : Reply LoginResponse). x.set_cookie) (sym same) ∙ ap last_cookie s.cookie;
      }
  replied email' password' request w reply (err x, w') opens email password e h = cc

  -- A login that is answered is answered with 200, the e-mail and the password of the request are valid
  -- and those of an active user, and the response's one cookie is the refresh cookie with the token of the
  -- session that was opened for the user, which is the only change of the tables.
  pub login_endpoint-IsLoggedIn :
      (email password : String) (request : Request) (w : World AuthDb) (reply : Reply LoginResponse)
      → (login_endpoint a v email password request w).0 ≡ ok reply
      → IsLoggedIn a v email password w.db (login_endpoint a v email password request w).1.db reply
  unfolding login_endpoint
  login_endpoint-IsLoggedIn email password request w reply h =
      go (login_request v email password) refl h
    where
      go :
          (r : Result (String × String))
          → login_request v email password ≡ r
          → (continue (r, w) (send_login a v request)).0 ≡ ok reply
          → IsLoggedIn a v email password w.db (continue (r, w) (send_login a v request)).1.db reply
      go (ok (email', password')) e h' =
          replied email' password' request w reply (login a email' password' request w)
            (login-OpensSession a email' password' request w) email password e h'
      go (err x) e h' = cc
