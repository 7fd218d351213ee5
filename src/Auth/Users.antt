-- ===== src/Auth/Users.antt =====
-- services/auth-service/app/services/users.py
use back_end.Prelude.{ℕ, String, Option, none, some}
use back_end.Prelude.Exec.{Exec, raise, pure, ◌>>=◌, ◌>>◌}
use back_end.Shared.Exceptions.{not_found_error}
use back_end.Shared.Events.{World, query, write}
use back_end.Auth.Models.{User}
use back_end.Auth.Db.{AuthDb, user_by_id, put_user}

abbrev pub or_not_found : Option User → Exec (World AuthDb) User
or_not_found none = raise (not_found_error "user not found")
or_not_found (some user) = pure user

unfoldable pub get_user_by_id : ℕ → Exec (World AuthDb) User
get_user_by_id user_id = do found ← query (λ db. user_by_id user_id db.users); or_not_found found

-- `if v is not None: field = v`
abbrev pub or_keep : Option String → Option String → Option String
or_keep none old = old
or_keep (some v) old = some v

unfoldable pub write_user : User → Option String → Option String → Exec (World AuthDb) User
write_user user full_name phone = do
  let user' = record user {
    full_name = or_keep full_name user.full_name;
    phone = or_keep phone user.phone;
  }
  db ← query (λ db. db)
  write (record db { users = put_user user' db.users })
  pure user'

unfoldable pub update_user : ℕ → Option String → Option String → Exec (World AuthDb) User
unfolding get_user_by_id write_user
update_user user_id full_name phone = do
  user ← get_user_by_id user_id
  write_user user full_name phone
