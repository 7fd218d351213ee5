-- ===== src/Prelude/Text.antt =====
-- Python's string methods that the program walks its texts with, on a text as a list of characters.
use Prim.Native.Nat.{ℕ, zero, suc}
use Prim.Native.Char.{Char, code}
use Prim.Native.String.{String, [], ◌∷◌}
use mathlib.Core.Bool.{Bool, true, false, ◌&&◌, ◌||◌, not}
use mathlib.Core.Option.{Option, none, some}
use back_end.Prelude.Tests.{if◌then◌else◌, ◌==◌, nat_eq, leb}

-- `len(s)`
unfoldable pub len : String → ℕ
len [] = 0
len (c ∷ s) = suc (len s)

abbrev pub is_empty : String → Bool
is_empty [] = true
is_empty (c ∷ s) = false

-- `s.startswith(prefix)`
unfoldable pub starts_with : String → String → Bool
starts_with s [] = true
starts_with [] (p ∷ ps) = false
starts_with (c ∷ s) (p ∷ ps) = code c == code p && starts_with s ps

-- `part in s`
unfoldable pub occurs_in : String → String → Bool
unfolding starts_with
occurs_in part [] = starts_with [] part
occurs_in part (c ∷ s) = starts_with (c ∷ s) part || occurs_in part s

-- `s[n:]` and `s[:n]`
unfoldable pub drop : ℕ → String → String
drop zero s = s
drop (suc n) [] = []
drop (suc n) (c ∷ s) = drop n s

unfoldable pub take : ℕ → String → String
take zero s = []
take (suc n) [] = []
take (suc n) (c ∷ s) = c ∷ take n s

-- `str.isspace` of one character
unfoldable pub is_space : Char → Bool
is_space c =
    let n = code c in
    (leb 9 n && leb n 13)
    || (leb 28 n && leb n 32)
    || n == 133
    || n == 160
    || n == 5760
    || (leb 8192 n && leb n 8202)
    || n == 8232
    || n == 8233
    || n == 8239
    || n == 8287
    || n == 12288

-- The text from the first character that fails the test.
unfoldable pub drop_while : (Char → Bool) → String → String
drop_while p [] = []
drop_while p (c ∷ s) = if p c then drop_while p s else c ∷ s

unfoldable pub drop_while_end : (Char → Bool) → String → String
drop_while_end p [] = []
drop_while_end p (c ∷ s) =
    let rest = drop_while_end p s in if is_empty rest && p c then [] else c ∷ rest

-- `s.strip(chars)`, the characters given by a test
unfoldable pub strip_by : (Char → Bool) → String → String
unfolding drop_while drop_while_end
strip_by p s = drop_while_end p (drop_while p s)

-- `s.strip()`
unfoldable pub strip : String → String
unfolding strip_by is_space
strip = strip_by is_space

-- `s.split(None, 1)[1:]`: what follows the first word and the spaces after it
unfoldable pub after_first_word : String → Option String
unfolding drop_while is_space
after_first_word s =
    let rest = drop_while is_space (drop_while (λ c. not (is_space c)) (drop_while is_space s)) in
    if is_empty rest then none else some rest
