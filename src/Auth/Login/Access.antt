-- ===== src/Auth/Login/Access.antt =====
-- The access token that `authenticate_and_open_session` hands out.
use back_end.Prelude.{
  ℕ, ◌+◌, ◌*◌, String, Option, none, some, ◌≡◌, refl, subst, arith, Bool-cases, inl, inr,
}
use back_end.Prelude.Exec.{ok}
use back_end.Shared.Events.{World}
use back_end.Auth.Models.{User, value, is_active}
use back_end.Auth.Db.{AuthDb, user_by_email}
use back_end.Auth.App.{App}
use back_end.Auth.Tokens.{access_claims}
use back_end.Auth.Login.{
  LoginOutcome, authenticate, admit, open_login, authenticate_and_open_session,
}
use back_end.Auth.Login.Sessions.{commit_opens}

module _ (a : App) where
  -- The access token is one of the user's claims at a time, signed with the service's key.
  pub record HandsOut (issued : ℕ) (out : LoginOutcome) : Type 0 where
    pub expires : out.expires_at ≡ issued + a.access_token_expire_minutes * 60
    pub token :
        out.access_token
        ≡ a.jwt.encode
            (access_claims a out.user.id out.user.tenant_id
              (value out.user.status)
              issued
              out.expires_at)
            a.secret_key
            "HS256"

  open_login-HandsOut :
      (user : User) (ip ua : Option String) (w : World AuthDb) (out : LoginOutcome)
      → (open_login a user ip ua w).0 ≡ ok out
      → HandsOut (a.time w.draws) out
  unfolding open_login
  open_login-HandsOut user ip ua w out h =
      subst (λ o. HandsOut (a.time w.draws) o) (commit_opens a _ out w _ h).0
        (record { expires = refl; token = refl })

  admit-HandsOut :
      (o : Option User) (ip ua : Option String) (w : World AuthDb) (out : LoginOutcome)
      → (admit a o ip ua w).0 ≡ ok out
      → HandsOut (a.time w.draws) out
  unfolding admit
  admit-HandsOut none ip ua w out h = cc
  admit-HandsOut (some user) ip ua w out h = elim (Bool-cases (is_active user.status)) [
    | inl is ↦ open_login-HandsOut user ip ua w out (rw is at h)
    | inr not_active ↦ ground arith
  ]

  pub authenticate_and_open_session-HandsOut :
      (email password : String) (ip ua : Option String) (w : World AuthDb) (out : LoginOutcome)
      → (authenticate_and_open_session a email password ip ua w).0 ≡ ok out
      → HandsOut (a.time w.draws) out
  unfolding authenticate_and_open_session
  authenticate_and_open_session-HandsOut email password ip ua w out h =
      admit-HandsOut (authenticate a password (user_by_email email w.db.users)) ip ua w out h
