-- ===== src/Auth/Service/Grows.antt =====
-- How the tables of the auth database may change: constraints stay met, and a session's row stays
-- with its user, its digest and its expiry, and once revoked stays revoked.
use back_end.Prelude.{
  String, none, some, List, [], ◌∷◌, ◌++◌, map, ◌≡◌, ◌≢◌, refl, sym, inl, inr, ◌==◌, nat_eq,
  string_eq, find, Bool-cases, ap, subst, ◌∙◌, if◌then◌else◌, nat_beq_iff,
}
use back_end.Prelude.Exec.{Exec, Result, ok, err, continue}
use back_end.Prelude.Distinct.{find-map, find-snoc_old, overwrite}
use back_end.Shared.Events.{World}
use back_end.Shared.Events.Same.{Same}
use back_end.Auth.Models.{User, RefreshToken}
use back_end.Auth.Db.{
  AuthDb, user_by_id, token_by_hash, put_user, put_token, commit_user, commit_token, user_conflicts,
}
use back_end.Auth.Db.Laws.{
  IsValid, SameKeys, SameKeys-IsValid, commit_token_cases, with_token-IsValid, commit_user-IsValid,
  put_user-IsValid, put_token-SameKeys, token_by_hash-id,
}

-- A row of refresh_tokens after some requests.
pub record IsKept (row later : RefreshToken) : Type 0 where
  pub same_user : later.user_id ≡ row.user_id
  pub same_hash : later.token_hash ≡ row.token_hash
  pub same_expiry : later.expires_at ≡ row.expires_at
  pub stays_revoked : row.revoked_at ≢ none → later.revoked_at ≢ none

pub record Finds (digest : String) (row : RefreshToken) (tokens : List RefreshToken) : Type 0 where
  pub later : RefreshToken
  pub found : token_by_hash digest tokens ≡ some later
  pub kept : IsKept row later

pub record Grows (before after : AuthDb) : Type 0 where
  pub valid : IsValid before → IsValid after
  pub finds :
      IsValid before
      → (digest : String) (row : RefreshToken)
      → token_by_hash digest before.refresh_tokens ≡ some row
      → Finds digest row after.refresh_tokens

pub IsKept-refl : {row : RefreshToken} → IsKept row row
IsKept-refl = record {
  same_user = refl;
  same_hash = refl;
  same_expiry = refl;
  stays_revoked = λ h. h;
}

IsKept-trans : {r s t : RefreshToken} → IsKept r s → IsKept s t → IsKept r t
IsKept-trans k l = record {
  same_user = cc (k.same_user, l.same_user);
  same_hash = cc (k.same_hash, l.same_hash);
  same_expiry = cc (k.same_expiry, l.same_expiry);
  stays_revoked = λ h. l.stays_revoked (k.stays_revoked h);
}

-- The users change within the constraints, the tokens not at all.
pub users-Grows :
    {before : AuthDb} (us : List User)
    → (IsValid before → IsValid (record before { users = us }))
    → Grows before (record before { users = us })
users-Grows us v = record {
  valid = v;
  finds = λ _ digest row h. record { later = row; found = h; kept = IsKept-refl };
}

pub Grows-refl : {db : AuthDb} → Grows db db
Grows-refl = record {
  valid = λ v. v;
  finds = λ _ digest row h. record { later = row; found = h; kept = IsKept-refl };
}

pub Grows-trans : {b c d : AuthDb} → Grows b c → Grows c d → Grows b d
Grows-trans g h = record {
  valid = λ v. h.valid (g.valid v);
  finds = λ v digest row e.
      let f = g.finds v digest row e in
      let f' = h.finds (g.valid v) digest f.later f.found in
      record { later = f'.later; found = f'.found; kept = IsKept-trans f.kept f'.kept };
}

-- Every row is rewritten by a function that keeps it.
pub map-Grows :
    (g : RefreshToken → RefreshToken) (db : AuthDb)
    → (IsValid db → SameKeys db.refresh_tokens (map g db.refresh_tokens))
    → ((digest : String) (row : RefreshToken)
        → IsValid db
        → token_by_hash digest db.refresh_tokens ≡ some row
        → IsKept row (g row))
    → Grows db (record db { refresh_tokens = map g db.refresh_tokens })
unfolding token_by_hash
map-Grows g db same kept = record {
  valid = λ v. SameKeys-IsValid (same v) v;
  finds = λ v digest row h. record {
    later = g row;
    found = find-map (λ t. t.token_hash) digest g db.refresh_tokens (same v).same_hashes h;
    kept = kept digest row v h;
  };
}

overwritten-IsKept :
    (row old new : RefreshToken) (db : AuthDb)
    → IsValid db
    → find (λ t. t.id == row.id) db.refresh_tokens ≡ some row
    → find (λ t. t.id == old.id) db.refresh_tokens ≡ some old
    → new.id ≡ old.id
    → IsKept old new
    → IsKept row (if row.id == new.id then new else row)
overwritten-IsKept row old new db v e h same_id k = elim (Bool-cases (row.id == new.id)) [
  | inl same ↦
      let ids : row.id ≡ old.id = (nat_beq_iff row.id new.id).0 same ∙ same_id in
      let both : some row ≡ some old =
        sym e ∙ ap (λ i. find (λ t. t.id == i) db.refresh_tokens) ids ∙ h in
      let is : row ≡ old = cc in rw same (subst (λ r. IsKept r new) (sym is) k)
  | inr differs ↦ rw differs IsKept-refl
]

-- A session that was found by its digest is written anew.
pub put_token-Grows :
    (digest : String) (old new : RefreshToken) (db : AuthDb)
    → token_by_hash digest db.refresh_tokens ≡ some old
    → new.id ≡ old.id
    → IsKept old new
    → Grows db (record db { refresh_tokens = put_token new db.refresh_tokens })
unfolding put_token overwrite
put_token-Grows digest old new db h same_id k =
    map-Grows (λ x. if x.id == new.id then new else x) db
      (λ v.
        put_token-SameKeys new old db.refresh_tokens v.ids_of_tokens
          (rw same_id (token_by_hash-id digest db.refresh_tokens v.ids_of_tokens h)) k.same_hash)
      (λ digest' row v e.
        overwritten-IsKept row old new db v
          (token_by_hash-id digest' db.refresh_tokens v.ids_of_tokens e)
          (token_by_hash-id digest db.refresh_tokens v.ids_of_tokens h) same_id k)

-- A new row is committed, with what else the transaction changed.
pub commit_token-Grows :
    (t : RefreshToken) (us : List User) (ts : List RefreshToken) (w : World AuthDb)
    → Grows w.db (record { users = us; refresh_tokens = ts })
    → Grows w.db (commit_token t us ts w).1.db
unfolding token_by_hash
commit_token-Grows t us ts w g = elim (commit_token_cases t us ts w) [
  | inl e ↦ rw e Grows-refl
  | inr (new_id, new_hash, e) ↦ rw e (record {
    valid = λ v. with_token-IsValid t us ts w new_id new_hash (g.valid v);
    finds = λ v digest row h.
        let f = g.finds v digest row h in
        record {
          later = f.later;
          found = find-snoc_old (λ x. x.token_hash) digest t f.later ts f.found;
          kept = f.kept;
        };
  })
]

pub commit_user-Grows : (u : User) (w : World AuthDb) → Grows w.db (commit_user u w).1.db
unfolding commit_user
commit_user-Grows u w = elim (Bool-cases (user_conflicts u w.db.users)) [
  | inl refused ↦ rw refused Grows-refl
  | inr free ↦
      let v = commit_user-IsValid u w in rw free (users-Grows (w.db.users ++ u ∷ []) (rw free at v))
]

-- A user's row is written anew with the same id and e-mail.
pub put_user-Grows :
    (u old : User) (db : AuthDb)
    → user_by_id u.id db.users ≡ some old
    → u.email ≡ old.email
    → Grows db (record db { users = put_user u db.users })
put_user-Grows u old db h same =
    users-Grows (put_user u db.users)
      (λ v. put_user-IsValid u old db.users db.refresh_tokens v h same)

-- What a call does after a part of it that may have raised.
pub continue-Grows :
    {A B : Type 0} {before : AuthDb} (r : Result A × World AuthDb) (f : A → Exec (World AuthDb) B)
    → Grows before r.1.db
    → ((x : A) (w : World AuthDb) → Grows w.db (f x w).1.db)
    → Grows before (continue r f).1.db
continue-Grows (ok x, w) f g h = Grows-trans g (h x w)
continue-Grows (err e, w) f g h = g

-- A call that leaves the tables as they are.
pub Same-Grows :
    {A : Type 0} {m : Exec (World AuthDb) A} → Same m → (w : World AuthDb) → Grows w.db (m w).1.db
Same-Grows same w = subst (Grows w.db) (sym (same.keeps w)) Grows-refl
