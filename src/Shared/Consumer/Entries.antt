-- ===== src/Shared/Consumer/Entries.antt =====
-- The entries of a stream by their ids.
use back_end.Prelude.{
  ℕ, zero, suc, String, some, [], ◌∷◌, ◌++◌, ◌≡◌, ap, arith, ◌==◌, string_eq, eq_iff, Bool-cases,
  inl, inr, ◌⊎◌, take, drop, All,
}
use back_end.Prelude.Dict
use back_end.Prelude.Dict.{Dict}
use back_end.Shared.Consumer.{Entry}

-- An id names one entry.
abbrev pub Names : String → Entry → Dict String Entry → Type 0
Names id fields = All (λ e. e.0 ≡ id → e.1 ≡ fields)

pub Names-pop :
    (id j : String) (fields : Entry) (d : Dict String Entry)
    → Names id fields d
    → Names id fields (Dict.pop j d)
unfolding Dict.pop
Names-pop id j fields [] h = tt
Names-pop id j fields ((k, f) ∷ d) h = elim (Bool-cases (k == j)) [
  | inl e ↦ rw e (Names-pop id j fields d h.1)
  | inr e ↦ rw e (h.0, Names-pop id j fields d h.1)
]

-- What is found under an id is the entry that it names.
pub Names-get :
    (id : String) (fields f : Entry) (d : Dict String Entry)
    → Names id fields d
    → Dict.get id d ≡ some f
    → f ≡ fields
unfolding Dict.get
Names-get id fields f [] h e = cc
Names-get id fields f ((k, f') ∷ d) h e = elim (Bool-cases (k == id)) [
  | inl is ↦ let same = h.0 ((eq_iff k id).0 is) in let e' = rw is at e in cc
  | inr other ↦ Names-get id fields f d h.1 (rw other at e)
]

pub get-append :
    (id : String) (fields : Entry) (d d' : Dict String Entry)
    → Dict.get id d ≡ some fields
    → Dict.get id (d ++ d') ≡ some fields
unfolding Dict.get
get-append id fields [] d' h = cc
get-append id fields ((j, f) ∷ d) d' h = ground (arith, get-append id fields d d')

pub get-append_last :
    (id : String) (fields : Entry) (d d' : Dict String Entry)
    → Names id fields d
    → Dict.get id d' ≡ some fields
    → Dict.get id (d ++ d') ≡ some fields
unfolding Dict.get
get-append_last id fields [] d' n h = h
get-append_last id fields ((j, f) ∷ d) d' n h = elim (Bool-cases (j == id)) [
  | inl e ↦ rw e (ap some (n.0 ((eq_iff j id).0 e)))
  | inr e ↦ rw e (get-append_last id fields d d' n.1 h)
]

-- What is found is among the first entries or among the others.
pub get-take-drop :
    (id : String) (fields : Entry) (n : ℕ) (d : Dict String Entry)
    → Dict.get id d ≡ some fields
    → (Dict.get id (take n d) ≡ some fields) ⊎ (Dict.get id (drop n d) ≡ some fields)
unfolding Dict.get take drop
get-take-drop id fields zero d h = inr h
get-take-drop id fields (suc n) [] h = cc
get-take-drop id fields (suc n) ((j, f) ∷ d) h = elim (Bool-cases (j == id)) [
  | inl e ↦ inl (rw e (rw e at h))
  | inr e ↦ rw e (get-take-drop id fields n d (rw e at h))
]
