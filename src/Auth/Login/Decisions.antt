-- ===== src/Auth/Login/Decisions.antt =====
-- Which logins `authenticate_and_open_session` lets in, and what it answers to the others.
use back_end.Prelude.{String, true, Option, none, some, ◌≡◌, ◌≢◌, string_eq, All}
use back_end.Prelude.Exec.{Result, ok, err, app_error, raised}
use back_end.Shared.Events.{World}
use back_end.Auth.Models.{User, active}
use back_end.Auth.Db.{AuthDb, user_by_email}
use back_end.Auth.App.{App}
use back_end.Auth.Login.{LoginOutcome}
use back_end.Auth.Login.Sessions.{LogsIn}

module _ (a : App) where
  -- The stored hash is a text that bcrypt verifies the password against.
  abbrev pub IsRight : String → Option String → Type 0
  IsRight password none = ⊥
  IsRight password (some hashed) = (hashed ≢ "") × (a.bcrypt_verify password hashed ≡ some true)

  -- Every answer to a login, `db` being the tables before it, and the conditions on which it is given.
  pub data Decides (email password : String) (w : World AuthDb)
      : Result LoginOutcome × World AuthDb → Type 0 where
    -- No user has the e-mail.
    unknown :
        All (λ user. user.email ≢ email) w.db.users
        → Decides email password w (err (app_error 401 "invalid credentials"), w)
    wrong :
        (user : User)
        → user_by_email email w.db.users ≡ some user
        → ¬ IsRight password user.password_hash
        → Decides email password w (err (app_error 401 "invalid credentials"), w)
    not_active :
        (user : User)
        → user_by_email email w.db.users ≡ some user
        → IsRight password user.password_hash
        → user.status ≢ active
        → Decides email password w (err (app_error 403 "user not active"), w)
    opened :
        (out : LoginOutcome) (after : World AuthDb)
        → IsRight password out.user.password_hash
        → out.user.status ≡ active
        → LogsIn a email password out w.db after.db
        → Decides email password w (ok out, after)
    -- The new row has the key of another one, and is not written.
    clashed :
        (user : User) (after : World AuthDb)
        → user_by_email email w.db.users ≡ some user
        → IsRight password user.password_hash
        → user.status ≡ active
        → after.db ≡ w.db
        → Decides email password w (err (raised "IntegrityError"), after)
