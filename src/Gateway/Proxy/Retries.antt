-- ===== src/Gateway/Proxy/Retries.antt =====
-- How often a request is sent, and whose answer is returned.
use back_end.Prelude.{
  ℕ, zero, suc, ◌+◌, ◌≤◌, ◌<◌, String, true, false, some, ◌≡◌, ◌⊎◌, refl, arith, if◌then◌else◌,
  Bool-cases, inl, inr, leb, leb→le, subst,
}
use back_end.Gateway.Proxy.{Answer, tries_again, attempt_from, forward_with_retry, is_idempotent}

-- The answer is the first of the attempts that needs no other, or the last one's.
pub record IsFirstFinal (send : ℕ → Answer) (attempts : ℕ) (i : ℕ) (answer : Answer) : Type 0 where
  pub is_answer : answer ≡ send i
  pub bound : i < attempts
  pub earlier : (j : ℕ) → j < i → tries_again (send j) ≡ true
  pub final : (tries_again (send i) ≡ false) ⊎ (i + 1 ≡ attempts)

-- The attempts from `i` on.
record IsFirstFrom (send : ℕ → Answer) (i end k : ℕ) (answer : Answer) : Type 0 where
  is_answer : answer ≡ send k
  start : i ≤ k
  bound : k < end
  earlier : (j : ℕ) → i ≤ j → j < k → tries_again (send j) ≡ true
  final : (tries_again (send k) ≡ false) ⊎ (k + 1 ≡ end)

attempt_from-IsFirstFrom :
    (send : ℕ → Answer) (i left end : ℕ)
    → end ≡ i + left + 1
    → IsFirstFrom send i end (attempt_from send i left).0 (attempt_from send i left).1
unfolding attempt_from
attempt_from-IsFirstFrom send i zero end e = record {
  is_answer = refl;
  start = omega arith;
  bound = omega (arith, e);
  earlier = λ j l h. absurd (omega (arith, l, h));
  final = inr (omega (arith, e));
}
attempt_from-IsFirstFrom send i (suc left) end e = elim (Bool-cases (tries_again (send i))) [
  | inl again ↦
      let r = attempt_from-IsFirstFrom send (i + 1) left end (omega (arith, e)) in
      rw again (record {
        is_answer = r.is_answer;
        start = omega (arith, r.start);
        bound = r.bound;
        earlier = λ j l h. elim (Bool-cases (leb j i)) [
          | inl le ↦
              let e : i ≡ j = omega (arith, leb→le j i le, l) in
              subst (λ x. tries_again (send x) ≡ true) e again
          | inr gt ↦ r.earlier j (ground arith) h
        ];
        final = r.final;
      })
  | inr done ↦ rw done (record {
    is_answer = refl;
    start = omega arith;
    bound = omega (arith, e);
    earlier = λ j l h. absurd (omega (arith, l, h));
    final = inl done;
  })
]

all_attempts :
    (send : ℕ → Answer) (left attempts : ℕ)
    → attempts ≡ left + 1
    → IsFirstFinal send attempts (attempt_from send 0 left).0 (attempt_from send 0 left).1
all_attempts send left attempts e =
    let r = attempt_from-IsFirstFrom send 0 left attempts (omega (arith, e)) in
    record {
      is_answer = r.is_answer;
      bound = r.bound;
      earlier = λ j h. r.earlier j (omega arith) h;
      final = r.final;
    }

-- A GET or HEAD request is sent at most `attempts` times, another one once. What is returned is the
-- answer of the first attempt that needs no other, or of the last, and each attempt before it was
-- answered 502, 503 or 504 or did not connect.
pub forward_with_retry-IsFirstFinal :
    (send : ℕ → Answer) (method : String) (left : ℕ)
    → (i : ℕ) × (answer : Answer) × (forward_with_retry send method (suc left) ≡ some (i, answer))
      × IsFirstFinal send (if is_idempotent method then suc left else 1) i answer
unfolding forward_with_retry
forward_with_retry-IsFirstFinal send method left = (
  _,
  _,
  refl,
  elim (Bool-cases (is_idempotent method)) [
    | inl is ↦ rw is (all_attempts send left (suc left) (omega arith))
    | inr once ↦ rw once (all_attempts send 0 1 (omega arith))
  ],
)
