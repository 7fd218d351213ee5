-- ===== src/Prelude/Distinct.antt =====
-- A column of a table whose values are distinct: a unique index, or a primary key.
use mathlib.Core.Path.{◌≡◌, refl, ap}
use mathlib.Core.Logic.{◌≢◌}
use mathlib.Core.Bool.{Bool, false, ◌||◌}
use mathlib.Core.Option.{none, some}
use mathlib.Core.List.{List, [], ◌∷◌, ◌++◌, map}
use native.Mathlib.Omega.{arith}
use back_end.Prelude.Tests.{Eq, ◌==◌, beq_refl, if◌then◌else◌}
use back_end.Prelude.Lists.{find}

module _ {ℓ} {K : Type ℓ} ⦃e : Eq K⦄ where
  unfoldable pub contains : K → List K → Bool
  contains k [] = false
  contains k (j ∷ js) = j == k || contains k js

  abbrev pub Distinct : List K → Type ℓ
  Distinct [] = Unit
  Distinct (k ∷ ks) = (contains k ks ≡ false) × Distinct ks

  contains-snoc :
      (k j : K) (ks : List K) → contains k ks ≡ false → j ≢ k → contains k (ks ++ j ∷ []) ≡ false
  unfolding contains
  contains-snoc k j [] h ne = ground (arith, e.equals_iff j k)
  contains-snoc k j (i ∷ ks) h ne = ground (arith, contains-snoc k j ks)

  -- A new value at the end of a distinct column.
  pub Distinct-snoc :
      (k : K) (ks : List K) → contains k ks ≡ false → Distinct ks → Distinct (ks ++ k ∷ [])
  unfolding contains
  Distinct-snoc k [] h d = (refl, tt)
  Distinct-snoc k (j ∷ ks) h d = (
    contains-snoc j k ks d.0 (λ p. ground (arith, e.equals_iff j k)),
    Distinct-snoc k ks (ground arith) d.1,
  )

module _ {ℓ} {A K : Type ℓ} ⦃e : Eq K⦄ (key : A → K) where
  -- No row is found by a key that the column does not hold.
  pub contains_of_find :
      (k : K) (xs : List A) → find (λ x. key x == k) xs ≡ none → contains k (map key xs) ≡ false
  unfolding contains find
  contains_of_find k [] h = refl
  contains_of_find k (x ∷ xs) h = ground (arith, contains_of_find k xs)

  pub find_of_contains :
      (k : K) (xs : List A) → contains k (map key xs) ≡ false → find (λ x. key x == k) xs ≡ none
  unfolding contains find
  find_of_contains k [] h = refl
  find_of_contains k (x ∷ xs) h = ground (arith, find_of_contains k xs)

  -- The row that is found has the key.
  pub find-key : (k : K) (xs : List A) {x : A} → find (λ y. key y == k) xs ≡ some x → key x ≡ k
  unfolding find
  find-key k [] h = cc
  find-key k (y ∷ xs) {x} h = ground (arith, e.equals_iff (key y) k, find-key k xs {x = x})

  -- A row at the end is found if no row above it has its key.
  pub find-snoc_self :
      (x : A) (xs : List A)
      → contains (key x) (map key xs) ≡ false
      → find (λ y. key y == key x) (xs ++ x ∷ []) ≡ some x
  unfolding contains find
  find-snoc_self x [] h = ground (arith, beq_refl (key x))
  find-snoc_self x (y ∷ xs) h = ground (arith, find-snoc_self x xs)

  pub find-snoc_old :
      (k : K) (x y : A) (xs : List A)
      → find (λ z. key z == k) xs ≡ some y
      → find (λ z. key z == k) (xs ++ x ∷ []) ≡ some y
  unfolding find
  find-snoc_old k x y [] h = cc
  find-snoc_old k x y (z ∷ xs) h = ground (arith, find-snoc_old k x y xs)

  -- Rewriting rows without touching the column.
  pub find-map :
      (k : K) (g : A → A) (xs : List A) {x : A}
      → map key (map g xs) ≡ map key xs
      → find (λ z. key z == k) xs ≡ some x
      → find (λ z. key z == k) (map g xs) ≡ some (g x)
  unfolding find
  find-map k g [] same h = cc
  find-map k g (y ∷ xs) {x} same h = ground (arith, find-map k g xs {x = x})

  -- A row that some scan finds is the one that its primary key finds.
  pub find-found :
      (p : A → Bool) (xs : List A) {x : A}
      → Distinct (map key xs)
      → find p xs ≡ some x
      → find (λ y. key y == key x) xs ≡ some x
  unfolding find
  find-found p [] d h = cc
  find-found p (y ∷ xs) {x} d h = ground (
    arith,
    beq_refl (key y),
    e.equals_iff (key y) (key x),
    find-found p xs {x = x} d.1,
    find_of_contains (key y) xs,
  )

  -- `UPDATE` by a key: the rows with the key of `row` become `row`.
  unfoldable pub overwrite : A → List A → List A
  overwrite row xs = map (λ x. if key x == key row then row else x) xs

  pub overwrite_absent :
      (row : A) (xs : List A) → contains (key row) (map key xs) ≡ false → overwrite row xs ≡ xs
  unfolding overwrite contains
  overwrite_absent row [] h = refl
  overwrite_absent row (x ∷ xs) h = ground (arith, overwrite_absent row xs)

module _ {ℓ} {A K B : Type ℓ} ⦃e : Eq K⦄ (key : A → K) (column : A → B) where
  map-overwrite_absent :
      (row : A) (xs : List A)
      → contains (key row) (map key xs) ≡ false
      → map column (overwrite key row xs) ≡ map column xs
  map-overwrite_absent row xs h = ap (map column) (overwrite_absent key row xs h)

  -- A row that is overwritten by one with the same value in a column leaves the column as it was.
  pub map-overwrite :
      (row old : A) (xs : List A)
      → Distinct (map key xs)
      → find (λ x. key x == key row) xs ≡ some old
      → column row ≡ column old
      → map column (overwrite key row xs) ≡ map column xs
  unfolding overwrite find
  map-overwrite row old [] d h same = refl
  map-overwrite row old (x ∷ xs) d h same = ground (
    arith,
    e.equals_iff (key x) (key row),
    map-overwrite_absent row xs,
    map-overwrite row old xs d.1,
  )
