-- ===== src/Gateway/Media/Chunks.antt =====
-- The chunks that `_iter_file` of services/api-gateway/app/services/media.py reads.
use back_end.Prelude.{
  ℕ, zero, suc, ◌+◌, ◌-◌, ◌≤◌, min, true, false, [], ◌∷◌, ◌≡◌, inl, inr, refl, sym, ap, ◌∙◌, ◌==◌,
  string_eq, nat_eq, Bool-cases, nat_beq_iff, length, arith, ◌++◌,
}
use back_end.Gateway.Media.Slices.{Bytes, take, drop, concat, length-take, take-read}
use back_end.Gateway.Media.{chunk_size, is_nil, iter_from, iter_file}

take-zero : (xs : Bytes) → take 0 xs ≡ []
unfolding take
take-zero xs = refl

-- An empty read is the end of the file.
take-at_end : (m k : ℕ) (xs : Bytes) → 1 ≤ m → is_nil (take m xs) ≡ true → take k xs ≡ []
unfolding take
take-at_end m zero xs l h = refl
take-at_end m (suc k) [] l h = refl
take-at_end zero (suc k) (x ∷ xs) l h = absurd (omega (arith, l))
take-at_end (suc m) (suc k) (x ∷ xs) l h = cc

read_some : (xs : Bytes) → is_nil xs ≡ false → 1 ≤ length xs
read_some [] h = cc
read_some (x ∷ xs) h = omega arith

-- The chunks of the loop, one after the other, are the first bytes of what is left.
concat-iter_from :
    (fuel chunk remaining : ℕ) (rest : Bytes)
    → remaining ≤ fuel
    → 1 ≤ chunk
    → concat (iter_from fuel chunk remaining rest) ≡ take remaining rest
unfolding iter_from
concat-iter_from zero chunk remaining rest l c =
    let e : remaining ≡ 0 = omega (arith, l) in rw e (sym (take-zero rest))
concat-iter_from (suc fuel) chunk remaining rest l c =
    let read = take (min chunk remaining) rest in
    let shorter = length-take (min chunk remaining) rest in
    elim (Bool-cases (remaining == 0)) [
      | inl e ↦ let z : remaining ≡ 0 = (nat_beq_iff remaining 0).0 e in rw z (sym (take-zero rest))
      | inr e ↦
          let left : 1 ≤ remaining = ground (arith, e) in
          elim (Bool-cases (is_nil read)) [
            | inl n ↦
                rw (e, n)
                  (sym
                    (take-at_end (min chunk remaining) remaining rest (omega (arith, c, left)) n))
            | inr n ↦
                rw (e, n)
                  (ap (λ xs. read ++ xs)
                      (concat-iter_from fuel chunk (remaining - length read)
                        (drop (length read) rest) (omega (arith, l, read_some read n)) c)
                    ∙ take-read (min chunk remaining) remaining rest (omega arith))
          ]
    ]

chunk_size_positive : 1 ≤ chunk_size
chunk_size_positive = omega arith

pub concat-iter_file :
    (content : Bytes) (start end : ℕ)
    → concat (iter_file content start end) ≡ take (end + 1 - start) (drop start content)
unfolding iter_file
concat-iter_file content start end =
    concat-iter_from (end + 1 - start) chunk_size (end + 1 - start) (drop start content)
      (omega arith) chunk_size_positive
