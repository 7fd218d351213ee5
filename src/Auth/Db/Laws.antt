-- ===== src/Auth/Db/Laws.antt =====
-- What the constraints of the auth database keep, and how lookups see a commit.
use back_end.Prelude.{
  Eq, ℕ, String, false, some, List, [], ◌∷◌, ◌++◌, ◌≡◌, ◌≢◌, ◌⊎◌, ◌∙◌, refl, sym, subst, arith,
  ◌==◌, nat_eq, string_eq, if◌then◌else◌, find, map, nat_beq_iff, Bool-cases, inl, inr,
}
use mathlib.Core.List.{map-append}
use back_end.Prelude.Distinct.{
  contains, Distinct, Distinct-snoc, find-map, find-key, find-found, map-overwrite,
}
use back_end.Prelude.Exec.{ok, err, raised}
use back_end.Shared.Events.{World}
use back_end.Auth.Models.{User, RefreshToken}
use back_end.Auth.Db.{
  AuthDb, user_by_id, token_by_hash, put_user, put_token, user_conflicts, token_conflicts,
  commit_user, commit_token,
}

abbrev pub ids : List User → List ℕ
ids = map λ u. u.id

abbrev pub emails : List User → List String
emails = map λ u. u.email

abbrev pub token_ids : List RefreshToken → List ℕ
token_ids = map λ t. t.id

abbrev pub hashes : List RefreshToken → List String
hashes = map λ t. t.token_hash

-- The primary keys and the unique columns hold distinct values.
pub record IsValid (db : AuthDb) : Type 0 where
  pub user_ids : Distinct (ids db.users)
  pub user_emails : Distinct (emails db.users)
  pub ids_of_tokens : Distinct (token_ids db.refresh_tokens)
  pub hashes_of_tokens : Distinct (hashes db.refresh_tokens)

-- A commit that goes through meets no row with the new row's key or unique value.
pub token_free :
    (t : RefreshToken) (ts : List RefreshToken)
    → token_conflicts t ts ≡ false
    → (contains t.id (token_ids ts) ≡ false) × (contains t.token_hash (hashes ts) ≡ false)
unfolding token_conflicts find contains
token_free t [] h = (refl, refl)
token_free t (x ∷ ts) h = ground (arith, token_free t ts)

pub user_free :
    (u : User) (us : List User)
    → user_conflicts u us ≡ false
    → (contains u.id (ids us) ≡ false) × (contains u.email (emails us) ≡ false)
unfolding user_conflicts find contains
user_free u [] h = (refl, refl)
user_free u (x ∷ us) h = ground (arith, user_free u us)

Distinct-map-snoc :
    {A K : Type 0} ⦃e : Eq K⦄ (key : A → K) (x : A) (xs : List A)
    → contains (key x) (map key xs) ≡ false
    → Distinct (map key xs)
    → Distinct (map key (xs ++ x ∷ []))
Distinct-map-snoc key x xs h d = rw map-append (Distinct-snoc (key x) (map key xs) h d)

-- Columns that are not touched stay distinct.
Distinct-of_same : {K : Type 0} ⦃e : Eq K⦄ {ks js : List K} → js ≡ ks → Distinct ks → Distinct js
Distinct-of_same same d = subst Distinct (sym same) d

pub commit_user-IsValid :
    (u : User) (w : World AuthDb) → IsValid w.db → IsValid (commit_user u w).1.db
unfolding commit_user
commit_user-IsValid u w v = elim (Bool-cases (user_conflicts u w.db.users)) [
  | inl refused ↦ rw refused v
  | inr free ↦
      let (new_id, new_email) = user_free u w.db.users free in
      rw free (record {
        user_ids = Distinct-map-snoc (λ x. x.id) u w.db.users new_id v.user_ids;
        user_emails = Distinct-map-snoc (λ x. x.email) u w.db.users new_email v.user_emails;
        ids_of_tokens = v.ids_of_tokens;
        hashes_of_tokens = v.hashes_of_tokens;
      })
]

-- A user's row is written anew with the same id and e-mail.
pub put_user-IsValid :
    (u old : User) (us : List User) (ts : List RefreshToken)
    → IsValid (record { users = us; refresh_tokens = ts })
    → user_by_id u.id us ≡ some old
    → u.email ≡ old.email
    → IsValid (record { users = put_user u us; refresh_tokens = ts })
unfolding put_user user_by_id
put_user-IsValid u old us ts v h same = record {
  user_ids =
      Distinct-of_same
        (map-overwrite (λ x. x.id) (λ x. x.id) u old us v.user_ids h
          (sym (find-key (λ x. x.id) u.id us h)))
        v.user_ids;
  user_emails =
      Distinct-of_same (map-overwrite (λ x. x.id) (λ x. x.email) u old us v.user_ids h same)
        v.user_emails;
  ids_of_tokens = v.ids_of_tokens;
  hashes_of_tokens = v.hashes_of_tokens;
}

-- The columns of the tokens that identify them are those of `ts`.
pub record SameKeys (ts ss : List RefreshToken) : Type 0 where
  pub same_ids : token_ids ss ≡ token_ids ts
  pub same_hashes : hashes ss ≡ hashes ts

pub SameKeys-IsValid :
    {us : List User} {ts ss : List RefreshToken}
    → SameKeys ts ss
    → IsValid (record { users = us; refresh_tokens = ts })
    → IsValid (record { users = us; refresh_tokens = ss })
SameKeys-IsValid k v = record {
  user_ids = v.user_ids;
  user_emails = v.user_emails;
  ids_of_tokens = Distinct-of_same k.same_ids v.ids_of_tokens;
  hashes_of_tokens = Distinct-of_same k.same_hashes v.hashes_of_tokens;
}

-- The row of a digest is the row of its id.
pub token_by_hash-id :
    (digest : String) (ts : List RefreshToken) {row : RefreshToken}
    → Distinct (token_ids ts)
    → token_by_hash digest ts ≡ some row
    → find (λ t. t.id == row.id) ts ≡ some row
unfolding token_by_hash
token_by_hash-id digest ts d h = find-found (λ t. t.id) (λ t. t.token_hash == digest) ts d h

-- A row that is written anew keeps its id and its hash.
pub put_token-SameKeys :
    (t old : RefreshToken) (ts : List RefreshToken)
    → Distinct (token_ids ts)
    → find (λ x. x.id == t.id) ts ≡ some old
    → t.token_hash ≡ old.token_hash
    → SameKeys ts (put_token t ts)
unfolding put_token
put_token-SameKeys t old ts d h same = record {
  same_ids =
      map-overwrite (λ x. x.id) (λ x. x.id) t old ts d h (sym (find-key (λ x. x.id) t.id ts h));
  same_hashes = map-overwrite (λ x. x.id) (λ x. x.token_hash) t old ts d h same;
}

abbrev pub with_token : RefreshToken → List User → List RefreshToken → World AuthDb → World AuthDb
with_token t us ts w = record w { db = record { users = us; refresh_tokens = ts ++ t ∷ [] } }

-- A commit of a new row writes nothing, or meets neither its key nor its digest in the table.
pub commit_token_cases :
    (t : RefreshToken) (us : List User) (ts : List RefreshToken) (w : World AuthDb)
    → (commit_token t us ts w ≡ (err (raised "IntegrityError"), w))
      ⊎ ((contains t.id (token_ids ts) ≡ false)
          × (contains t.token_hash (hashes ts) ≡ false)
          × (commit_token t us ts w ≡ (ok tt, with_token t us ts w)))
unfolding commit_token
commit_token_cases t us ts w = elim (Bool-cases (token_conflicts t ts)) [
  | inl refused ↦ inl (rw refused refl)
  | inr free ↦ let (new_id, new_hash) = token_free t ts free in inr (new_id, new_hash, rw free refl)
]

pub with_token-IsValid :
    (t : RefreshToken) (us : List User) (ts : List RefreshToken) (w : World AuthDb)
    → contains t.id (token_ids ts) ≡ false
    → contains t.token_hash (hashes ts) ≡ false
    → IsValid (record { users = us; refresh_tokens = ts })
    → IsValid (with_token t us ts w).db
with_token-IsValid t us ts w new_id new_hash v = record {
  user_ids = v.user_ids;
  user_emails = v.user_emails;
  ids_of_tokens = Distinct-map-snoc (λ x. x.id) t ts new_id v.ids_of_tokens;
  hashes_of_tokens = Distinct-map-snoc (λ x. x.token_hash) t ts new_hash v.hashes_of_tokens;
}

pub commit_token-IsValid :
    (t : RefreshToken) (us : List User) (ts : List RefreshToken) (w : World AuthDb)
    → IsValid (record { users = us; refresh_tokens = ts })
    → IsValid w.db
    → IsValid (commit_token t us ts w).1.db
commit_token-IsValid t us ts w v v' = elim (commit_token_cases t us ts w) [
  | inl e ↦ rw e v'
  | inr (new_id, new_hash, e) ↦ rw e (with_token-IsValid t us ts w new_id new_hash v)
]

-- The digest of a row that is written anew finds the new row, and any other digest what it found.
pub token_by_hash-put_self :
    (digest : String) (t old : RefreshToken) (ts : List RefreshToken)
    → Distinct (token_ids ts)
    → token_by_hash digest ts ≡ some old
    → t.id ≡ old.id
    → t.token_hash ≡ old.token_hash
    → token_by_hash digest (put_token t ts) ≡ some t
unfolding token_by_hash put_token
token_by_hash-put_self digest t old ts d h same_id same_hash =
    find-map (λ x. x.token_hash) digest (λ x. if x.id == t.id then t else x) ts
      (put_token-SameKeys t old ts d (rw same_id (token_by_hash-id digest ts d h))
        same_hash).same_hashes
      h
    ∙ ground (arith, nat_beq_iff old.id t.id)

pub token_by_hash-put_other :
    (digest : String) (t old x : RefreshToken) (ts : List RefreshToken)
    → SameKeys ts (put_token t ts)
    → token_by_hash digest ts ≡ some x
    → x.id ≢ t.id
    → token_by_hash digest (put_token t ts) ≡ some x
unfolding token_by_hash put_token
token_by_hash-put_other digest t old x ts same h ne =
    find-map (λ x. x.token_hash) digest (λ x. if x.id == t.id then t else x) ts same.same_hashes h
    ∙ ground (arith, nat_beq_iff x.id t.id)

-- The user that an id finds has that id.
pub user_by_id-id : (id : ℕ) (us : List User) {u : User} → user_by_id id us ≡ some u → u.id ≡ id
unfolding user_by_id
user_by_id-id id us h = find-key (λ u. u.id) id us h
