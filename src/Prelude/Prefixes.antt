-- ===== src/Prelude/Prefixes.antt =====
-- Texts that begin with a known part: what a prefix test and a slice make of it.
use Prim.Native.Char.{code}
use Prim.Native.String.{String, [], ◌∷◌, ◌++◌}
use mathlib.Core.Path.{◌≡◌, refl, sym, ap, ◌∙◌}
use mathlib.Core.Bool.{Bool, true, false, ◌||◌, not}
use mathlib.Core.Logic.{inl, inr}
use text.Mathlib.TextEquality.{eq_iff}
use native.Mathlib.Omega.{arith}
use text.Mathlib.TextLemmas.{nil-append, cons-append, append_assoc, append-nil}
use mathlib.Core.List
use back_end.Prelude.Tests.{◌==◌, nat_eq, string_eq, Bool-cases, join}
use back_end.Prelude.Text.{len, starts_with, drop}

-- The texts differ before either ends.
unfoldable pub clash : String → String → Bool
clash [] p = false
clash (c ∷ s) [] = false
clash (c ∷ s) (d ∷ p) = not (code c == code d) || clash s p

pub starts_with-append : (s t p : String) → starts_with s p ≡ true → starts_with (s ++ t) p ≡ true
unfolding starts_with
starts_with-append s t [] h = refl
starts_with-append [] t (d ∷ p) h = cc
starts_with-append (c ∷ s) t (d ∷ p) h =
    rw (cons-append c s t) (ground (arith, starts_with-append s t p))

pub starts_with-clash : (s t p : String) → clash s p ≡ true → starts_with (s ++ t) p ≡ false
unfolding starts_with clash
starts_with-clash [] t p h = cc
starts_with-clash (c ∷ s) t [] h = cc
starts_with-clash (c ∷ s) t (d ∷ p) h =
    rw (cons-append c s t) (ground (arith, starts_with-clash s t p))

starts_with_refl : (p : String) → starts_with p p ≡ true
unfolding starts_with
starts_with_refl [] = refl
starts_with_refl (c ∷ p) = ground (arith, starts_with_refl p)

-- A text that begins otherwise than another is not that one.
pub eq-clash : (s t p : String) → clash s p ≡ true → (s ++ t == p) ≡ false
eq-clash s t p h = elim (Bool-cases (s ++ t == p)) [
  | inl e ↦
      let same = (eq_iff (s ++ t) p).0 e in
      let h1 = starts_with-clash s t p h in let h2 = starts_with_refl p in cc
  | inr e ↦ e
]

pub drop-append : (s t : String) → drop (len s) (s ++ t) ≡ t
unfolding drop len
drop-append [] t = nil-append t
drop-append (c ∷ s) t = rw (cons-append c s t) (drop-append s t)

-- A prefix is replaced, and what follows is kept.
pub swap_prefix :
    (p q sep t : String)
    → join (
        List.◌∷◌ q
          (List.◌∷◌ (drop (len p) (join (List.◌∷◌ (p ++ sep) (List.◌∷◌ t List.[])))) List.[]))
      ≡ join (List.◌∷◌ (q ++ sep) (List.◌∷◌ t List.[]))
swap_prefix p q sep t =
    let cut : drop (len p) ((p ++ sep) ++ (t ++ "")) ≡ sep ++ (t ++ "") =
      ap (drop (len p)) (append_assoc p sep (t ++ "")) ∙ drop-append p (sep ++ (t ++ "")) in
    ap (λ x. q ++ (x ++ "")) cut
    ∙ ap (λ x. q ++ x) (append-nil (sep ++ (t ++ "")))
    ∙ sym (append_assoc q sep (t ++ ""))
