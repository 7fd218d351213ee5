-- ===== src/Tenant/Slug/Chars.antt =====
-- What a slug is made of.
use back_end.Prelude.{
  ℕ, zero, suc, ◌≤◌, String, Bool, true, Char, ◌≡◌, refl, arith, ◌&&◌, Bool-cases, inl, inr,
}
use back_end.Prelude.Text.{take, len, drop_while, drop_while_end, strip_by, is_empty}
use Prim.Native.String.{[], ◌∷◌}
use back_end.Tenant.Slug.{
  is_dash, is_slug_char, dash_spaces, keep_slug_chars, starts_dash, join_dashes, or_tenant, slugify,
}

-- Every character passes the test.
abbrev pub AllChars : (Char → Bool) → String → Type 0
AllChars p [] = Unit
AllChars p (c ∷ s) = (p c ≡ true) × AllChars p s

all_kept : (s : String) → AllChars is_slug_char (keep_slug_chars s)
unfolding keep_slug_chars
all_kept [] = tt
all_kept (c ∷ s) = elim (Bool-cases (is_slug_char c)) [
  | inl is ↦ rw is (is, all_kept s)
  | inr differs ↦ rw differs (all_kept s)
]

module _ (p : Char → Bool) where
  all_joined : (s : String) → AllChars p s → AllChars p (join_dashes s)
  unfolding join_dashes
  all_joined [] h = tt
  all_joined (c ∷ s) h = elim (Bool-cases (is_dash c && starts_dash s)) [
    | inl is ↦ rw is (all_joined s h.1)
    | inr differs ↦ rw differs (h.0, all_joined s h.1)
  ]

  all_dropped : (q : Char → Bool) (s : String) → AllChars p s → AllChars p (drop_while q s)
  unfolding drop_while
  all_dropped q [] h = tt
  all_dropped q (c ∷ s) h = elim (Bool-cases (q c)) [
    | inl is ↦ rw is (all_dropped q s h.1)
    | inr differs ↦ rw differs h
  ]

  all_dropped_end : (q : Char → Bool) (s : String) → AllChars p s → AllChars p (drop_while_end q s)
  unfolding drop_while_end
  all_dropped_end q [] h = tt
  all_dropped_end q (c ∷ s) h = elim (Bool-cases (is_empty (drop_while_end q s) && q c)) [
    | inl is ↦ rw is tt
    | inr differs ↦ rw differs (h.0, all_dropped_end q s h.1)
  ]

  all_taken : (n : ℕ) (s : String) → AllChars p s → AllChars p (take n s)
  unfolding take
  all_taken zero s h = tt
  all_taken (suc n) [] h = tt
  all_taken (suc n) (c ∷ s) h = (h.0, all_taken n s h.1)

len-take : (n : ℕ) (s : String) → len (take n s) ≤ n
unfolding len take
len-take zero s = omega arith
len-take (suc n) [] = omega arith
len-take (suc n) (c ∷ s) = omega (arith, len-take n s)

all_or_tenant : (s : String) → AllChars is_slug_char s → AllChars is_slug_char (or_tenant s)
all_or_tenant [] h = (refl, (refl, (refl, (refl, (refl, (refl, tt))))))
all_or_tenant (c ∷ s) h = h

-- A slug's base has at most 32 characters, and each is a lower-case letter, a digit or a dash.
pub slugify_lem :
    (lower : String → String) (business_name : String)
    → AllChars is_slug_char (slugify lower business_name) × (len (slugify lower business_name) ≤ 32)
unfolding slugify strip_by
slugify_lem lower business_name =
    let kept = keep_slug_chars (dash_spaces (lower business_name)) in
    let joined = join_dashes kept in
    let trimmed = drop_while is_dash joined in
    let base = drop_while_end is_dash trimmed in
    let in_kept = all_joined is_slug_char kept (all_kept (dash_spaces (lower business_name))) in
    let in_trimmed = all_dropped is_slug_char is_dash joined in_kept in
    let in_base = all_dropped_end is_slug_char is_dash trimmed in_trimmed in
    (
      all_taken is_slug_char 32 (or_tenant base) (all_or_tenant base in_base),
      len-take 32 (or_tenant base),
    )
