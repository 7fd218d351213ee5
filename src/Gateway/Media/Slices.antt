-- ===== src/Gateway/Media/Slices.antt =====
-- The bytes of a file: the first ones, and those after them.
use back_end.Prelude.{
  ℕ, zero, suc, ◌-◌, ◌≤◌, min, List, [], ◌∷◌, ◌++◌, ◌≡◌, ◌∙◌, refl, ap, arith, length,
}

abbrev pub Bytes : Type 0
Bytes = List ℕ

unfoldable pub take : ℕ → Bytes → Bytes
take zero xs = []
take (suc n) [] = []
take (suc n) (x ∷ xs) = x ∷ take n xs

unfoldable pub drop : ℕ → Bytes → Bytes
drop zero xs = xs
drop (suc n) [] = []
drop (suc n) (x ∷ xs) = drop n xs

abbrev pub concat : List Bytes → Bytes
concat [] = []
concat (xs ∷ xss) = xs ++ concat xss

pub length-take : (n : ℕ) (xs : Bytes) → length (take n xs) ≡ min n (length xs)
unfolding take
length-take zero xs = omega arith
length-take (suc n) [] = omega arith
length-take (suc n) (x ∷ xs) = omega (arith, length-take n xs)

pub length-drop : (n : ℕ) (xs : Bytes) → length (drop n xs) ≡ length xs - n
unfolding drop
length-drop zero xs = omega arith
length-drop (suc n) [] = omega arith
length-drop (suc n) (x ∷ xs) = omega (arith, length-drop n xs)

take-nil : (n : ℕ) → take n [] ≡ []
unfolding take
take-nil zero = refl
take-nil (suc n) = refl

-- The first bytes that a read gives, and the rest of the wanted ones after them.
pub take-read :
    (n k : ℕ) (xs : Bytes)
    → n ≤ k
    → take n xs ++ take (k - length (take n xs)) (drop (length (take n xs)) xs) ≡ take k xs
unfolding take drop
take-read zero k xs l = let e : k - 0 ≡ k = omega arith in ap (λ m. take m xs) e
take-read (suc n) zero xs l = absurd (omega (arith, l))
take-read (suc n) (suc k) [] l = take-nil (suc k - 0)
take-read (suc n) (suc k) (x ∷ xs) l =
    let c = length (take n xs) in
    let e : suc k - suc c ≡ k - c = omega arith in
    ap (λ ys. x ∷ ys)
      (ap (λ m. take n xs ++ take m (drop c xs)) e ∙ take-read n k xs (omega (arith, l)))
