-- ===== src/Auth/Login/Sessions.antt =====
-- What `authenticate_and_open_session` does on each of its branches.
use back_end.Prelude.{
  ℕ, String, true, false, Option, none, some, [], ◌∷◌, ◌++◌, ◌≡◌, refl, arith, Bool-cases, inl, inr,
  subst, string_eq,
}
use back_end.Prelude.Exec.{ok, pure, ◌>>◌}
use back_end.Prelude.Distinct.{find-snoc_self, contains}
use back_end.Shared.Events.{World}
use back_end.Auth.Models.{User, is_active}
use back_end.Auth.Db.{AuthDb, user_by_email, token_by_hash, commit_token}
use back_end.Auth.Db.Laws.{commit_token_cases, hashes}
use back_end.Auth.App.{App}
use back_end.Auth.Tokens.{hash_refresh}
use back_end.Auth.Login.{
  LoginOutcome, verify_password, authenticate, admit, open_login, authenticate_and_open_session,
}

module _ (a : App) where
  -- The user's password was given, the account is active, and the new session's row is in the table
  -- under the digest of the token that was handed out, the rest of the tables being as it was.
  pub record LogsIn (email password : String) (out : LoginOutcome) (before after : AuthDb)
      : Type 0 where
    pub of_email : user_by_email email before.users ≡ some out.user
    pub right_password : verify_password a password out.user.password_hash ≡ true
    pub active_user : is_active out.user.status ≡ true
    pub of_user : out.refresh_row.user_id ≡ out.user.id
    pub digest : out.refresh_row.token_hash ≡ hash_refresh a out.refresh_token
    pub unrevoked : out.refresh_row.revoked_at ≡ none
    pub session :
        token_by_hash out.refresh_row.token_hash after.refresh_tokens ≡ some out.refresh_row
    pub users : after.users ≡ before.users
    pub tokens : after.refresh_tokens ≡ before.refresh_tokens ++ out.refresh_row ∷ []

  -- What a session's opening returned and wrote.
  record Opens (user : User) (out : LoginOutcome) (before after : AuthDb) : Type 0 where
    same_user : out.user ≡ user
    of_user : out.refresh_row.user_id ≡ user.id
    digest : out.refresh_row.token_hash ≡ hash_refresh a out.refresh_token
    unrevoked : out.refresh_row.revoked_at ≡ none
    session : token_by_hash out.refresh_row.token_hash after.refresh_tokens ≡ some out.refresh_row
    users : after.users ≡ before.users
    tokens : after.refresh_tokens ≡ before.refresh_tokens ++ out.refresh_row ∷ []

  pub commit_opens :
      (out out' : LoginOutcome) (w : World AuthDb) (draws : ℕ)
      → let call =
          (commit_token out.refresh_row w.db.users w.db.refresh_tokens >> pure out)
            (record w { draws = draws }) in
        call.0 ≡ ok out'
        → (out ≡ out')
          × (call.1.db ≡ record {
            users = w.db.users;
            refresh_tokens = w.db.refresh_tokens ++ out.refresh_row ∷ [];
          })
          × (contains out.refresh_row.token_hash (hashes w.db.refresh_tokens) ≡ false)
  commit_opens out out' w draws h =
      elim (commit_token_cases out.refresh_row w.db.users w.db.refresh_tokens
        (record w { draws = draws })) [
          | inl e ↦ ground (arith, e)
          | inr (_, new_hash, e) ↦ rw (e, ◌>>◌) (ground (arith, e), refl, new_hash)
        ]

  open_login-Opens :
      (user : User) (ip ua : Option String) (w : World AuthDb) (out : LoginOutcome)
      → (open_login a user ip ua w).0 ≡ ok out
      → Opens user out w.db (open_login a user ip ua w).1.db
  unfolding open_login token_by_hash
  open_login-Opens user ip ua w out h =
      let (same, written, new_hash) = commit_opens _ out w _ h in
      subst (λ o. Opens user o w.db (open_login a user ip ua w).1.db) same
        (rw written (record {
          same_user = refl;
          of_user = refl;
          digest = refl;
          unrevoked = refl;
          session = find-snoc_self (λ t. t.token_hash) _ w.db.refresh_tokens new_hash;
          users = refl;
          tokens = refl;
        }))

  pub open_login-LogsIn :
      (email password : String) (user : User) (ip ua : Option String) (w : World AuthDb)
      (out : LoginOutcome)
      → user_by_email email w.db.users ≡ some user
      → verify_password a password user.password_hash ≡ true
      → is_active user.status ≡ true
      → (open_login a user ip ua w).0 ≡ ok out
      → LogsIn email password out w.db (open_login a user ip ua w).1.db
  open_login-LogsIn email password user ip ua w out found right is e =
      let r = open_login-Opens user ip ua w out e in
      record {
        of_email = cc (found, r.same_user);
        right_password = rw r.same_user right;
        active_user = rw r.same_user is;
        of_user = cc (r.of_user, r.same_user);
        digest = r.digest;
        unrevoked = r.unrevoked;
        session = r.session;
        users = r.users;
        tokens = r.tokens;
      }

  admit-LogsIn :
      (email password : String) (o : Option User) (ip ua : Option String) (w : World AuthDb)
      (out : LoginOutcome)
      → user_by_email email w.db.users ≡ o
      → (admit a (authenticate a password o) ip ua w).0 ≡ ok out
      → LogsIn email password out w.db (admit a (authenticate a password o) ip ua w).1.db
  unfolding authenticate admit
  admit-LogsIn email password none ip ua w out h e = cc
  admit-LogsIn email password (some user) ip ua w out h e =
      elim (Bool-cases (verify_password a password user.password_hash)) [
        | inl right ↦ elim (Bool-cases (is_active user.status)) [
          | inl is ↦
              rw (right, is)
                (open_login-LogsIn email password user ip ua w out h right is (rw (right, is) at e))
          | inr not_active ↦ ground arith
        ]
        | inr wrong ↦ ground arith
      ]

  -- When a login returns, the e-mail's user gave the right password and is active, and the only
  -- change of the tables is a new, unrevoked session of that user, found by the digest of the token
  -- that was handed out.
  pub authenticate_and_open_session-LogsIn :
      (email password : String) (ip ua : Option String) (w : World AuthDb) (out : LoginOutcome)
      → (authenticate_and_open_session a email password ip ua w).0 ≡ ok out
      → LogsIn email password out w.db (authenticate_and_open_session a email password ip ua w).1.db
  unfolding authenticate_and_open_session
  authenticate_and_open_session-LogsIn email password ip ua w out h =
      admit-LogsIn email password _ ip ua w out refl h
