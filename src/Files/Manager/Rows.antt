-- ===== src/Files/Manager/Rows.antt =====
-- The avatars among the rows of the media table.
use back_end.Prelude.{
  ℕ, suc, ◌≤◌, true, false, none, some, List, [], ◌∷◌, ◌++◌, ◌≡◌, refl, arith, ap, nat_eq,
  if◌then◌else◌, find, Bool-cases, inl, inr,
}
use back_end.Files.Models.{MediaResources}
use back_end.Files.Manager.{is_avatar, avatar_of, delete_row}

-- How many rows are the avatar of a user.
unfoldable pub count : ℕ → List MediaResources → ℕ
count user [] = 0
count user (row ∷ rows) =
    let rest = count user rows in if is_avatar user row then suc rest else rest

pub count-snoc_other :
    (user : ℕ) (row : MediaResources) (rows : List MediaResources)
    → is_avatar user row ≡ false
    → count user (rows ++ row ∷ []) ≡ count user rows
unfolding count
count-snoc_other user row [] h = rw h refl
count-snoc_other user row (r ∷ rows) h = rw (count-snoc_other user row rows h) refl

pub count-snoc :
    (user : ℕ) (row : MediaResources) (rows : List MediaResources)
    → count user (rows ++ row ∷ []) ≤ suc (count user rows)
unfolding count
count-snoc user row [] = ground arith
count-snoc user row (r ∷ rows) = ground (arith, count-snoc user row rows)

pub count-delete_row :
    (user id : ℕ) (rows : List MediaResources) → count user (delete_row id rows) ≤ count user rows
unfolding count delete_row
count-delete_row user id [] = omega arith
count-delete_row user id (row ∷ rows) = ground (arith, count-delete_row user id rows)

-- Deleting the row that is found leaves fewer avatars of that user.
pub count-delete_found :
    (user : ℕ) (rows : List MediaResources) {row : MediaResources}
    → avatar_of user rows ≡ some row
    → suc (count user (delete_row row.id rows)) ≤ count user rows
unfolding count delete_row avatar_of find
count-delete_found user [] h = cc
count-delete_found user (r ∷ rows) {row} h = elim (Bool-cases (is_avatar user r)) [
  | inl e ↦
      let same : r ≡ row = ground (arith, e, h) in
      ground (arith, e, ap (λ x. x.id) same, count-delete_row user row.id rows)
  | inr e ↦ ground (arith, e, h, count-delete_found user rows {row = row})
]

pub count_of_none :
    (user : ℕ) (rows : List MediaResources) → avatar_of user rows ≡ none → count user rows ≡ 0
unfolding count avatar_of find
count_of_none user [] h = refl
count_of_none user (r ∷ rows) h = ground (arith, count_of_none user rows)

pub none_of_count :
    (user : ℕ) (rows : List MediaResources) → count user rows ≡ 0 → avatar_of user rows ≡ none
unfolding count avatar_of find
none_of_count user [] h = refl
none_of_count user (r ∷ rows) h = ground (arith, none_of_count user rows)

-- A row at the end is found if there is no avatar above it.
pub avatar_of-snoc :
    (user : ℕ) (row : MediaResources) (rows : List MediaResources)
    → count user rows ≡ 0
    → is_avatar user row ≡ true
    → avatar_of user (rows ++ row ∷ []) ≡ some row
unfolding count avatar_of find
avatar_of-snoc user row [] h e = rw e refl
avatar_of-snoc user row (r ∷ rows) h e = ground (arith, avatar_of-snoc user row rows)
