-- ===== src/Shared/Json.antt =====
-- JSON values, as the payloads of events and the claims of tokens hold them, and Python's `dict`
-- operations on a JSON object.
use back_end.Prelude.{
  ℕ, String, Bool, Option, none, some, ◌==◌, string_eq, if◌then◌else◌, true, false, not, nat_eq,
}

mutual
  pub data Json : Type 0 where
    null : Json
    bool : Bool → Json
    num : ℕ → Json
    str : String → Json
    obj : Fields → Json

  pub data Fields : Type 0 where
    nil : Fields
    field : String → Json → Fields → Fields

-- `d.get(k)` on a dict whose keys are distinct
abbrev pub get : String → Fields → Option Json
get k nil = none
get k (field j v rest) = if j == k then some v else get k rest

-- `d.get(k, default)`
abbrev pub get_or : String → Json → Fields → Json
get_or k default d = elim (get k d) [ none ↦ default | some v ↦ v ]

-- A text, or `null` for `None`.
abbrev pub opt_str : Option String → Json
opt_str none = null
opt_str (some s) = str s

abbrev pub is_nil : Fields → Bool
is_nil nil = true
is_nil (field _ _ _) = false

-- The truth of what `d.get(k)` returns.
abbrev pub is_truthy : Option Json → Bool
is_truthy none = false
is_truthy (some null) = false
is_truthy (some (bool b)) = b
is_truthy (some (num n)) = not (n == 0)
is_truthy (some (str s)) = not (s == "")
is_truthy (some (obj d)) = not (is_nil d)
