-- ===== src/Flows/Unary.antt =====
-- UUIDs in unary, for tests.
use Prim.Native.String.{String, [], ◌∷◌}
use back_end.Prelude.{ℕ, zero, suc, Option, none, some, ◌≡◌, refl, ap}
use back_end.Prelude.Text.{len}

abbrev pub unary : ℕ → String
unary zero = []
unary (suc n) = "u" ∷ unary n

pub len-unary : (n : ℕ) → len (unary n) ≡ n
unfolding len
len-unary zero = refl
len-unary (suc n) = ap suc (len-unary n)

-- A form with no empty text.
abbrev pub marked : ℕ → String
marked n = unary (suc n)

abbrev pub parse_marked : String → Option ℕ
parse_marked [] = none
parse_marked (c ∷ s) = some (len s)
