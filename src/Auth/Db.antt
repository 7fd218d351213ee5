-- ===== src/Auth/Db.antt =====
-- The two tables of the auth database, and the session calls that the services make on them. A
-- table is the list of its committed rows. A commit that would break a unique column (`email` of
-- users, `token_hash` of refresh_tokens, each `id`) raises `IntegrityError` and writes nothing.
pub mod Laws
use back_end.Prelude.{
  ℕ, String, Bool, true, false, Option, none, some, List, [], ◌∷◌, ◌++◌, ◌≡◌, refl, arith, ◌==◌,
  nat_eq, string_eq, if◌then◌else◌, ◌||◌, ◌&&◌, find, map,
}
use back_end.Prelude.Distinct.{overwrite}
use back_end.Prelude.Exec.{Exec, Result, ok, err, raised, raise, pure, ◌>>=◌, ◌>>◌}
use back_end.Shared.Events.{World, query, write}
use back_end.Auth.Models.{User, RefreshToken}

pub record AuthDb : Type 0 where
  pub users : List User
  pub refresh_tokens : List RefreshToken

-- `select(User).where(User.email == email)` and `.first()`
unfoldable pub user_by_email : String → List User → Option User
user_by_email email = find λ u. u.email == email

-- `db.get(User, user_id)`
unfoldable pub user_by_id : ℕ → List User → Option User
user_by_id id = find λ u. u.id == id

-- `select(RefreshToken).where(RefreshToken.token_hash == digest)` and `.first()`
unfoldable pub token_by_hash : String → List RefreshToken → Option RefreshToken
token_by_hash digest = find λ t. t.token_hash == digest

-- The rows of a table with one row's columns written anew, found by its primary key.
unfoldable pub put_user : User → List User → List User
unfolding overwrite
put_user = overwrite (λ u. u.id)

unfoldable pub put_token : RefreshToken → List RefreshToken → List RefreshToken
unfolding overwrite
put_token = overwrite (λ t. t.id)

abbrev pub is_some {ℓ} : {A : Type ℓ} → Option A → Bool
is_some none = false
is_some (some _) = true

-- Whether the commit of a new row is refused.
unfoldable pub user_conflicts : User → List User → Bool
user_conflicts user users = is_some (find (λ u. u.id == user.id || u.email == user.email) users)

unfoldable pub token_conflicts : RefreshToken → List RefreshToken → Bool
token_conflicts token tokens =
    is_some (find (λ t. t.id == token.id || t.token_hash == token.token_hash) tokens)

-- `db.add(user)`, `db.commit()`
unfoldable pub commit_user : User → Exec (World AuthDb) Unit
commit_user user w =
    if user_conflicts user w.db.users
    then (err (raised "IntegrityError"), w)
    else (ok tt, record w { db = record w.db { users = w.db.users ++ user ∷ [] } })

-- `db.add(token)`, `db.commit()`, the rows that the session has changed meanwhile being `users`
-- and `tokens`: one transaction.
unfoldable pub commit_token :
    RefreshToken → List User → List RefreshToken → Exec (World AuthDb) Unit
commit_token token users tokens w =
    if token_conflicts token tokens
    then (err (raised "IntegrityError"), w)
    else (ok tt, record w { db = record { users = users; refresh_tokens = tokens ++ token ∷ [] } })
